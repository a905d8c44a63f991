-- ===== src/Solver/Install.antt =====
-- Install of pkg/v2/solver/solver.go.
use luet.Prelude.{
  ℕ, String, Bool, true, false, Option, none, some, List, [], ◌∷◌, ◌++◌, ◌==◌, if◌then◌else◌,
  is_empty, ltb, length, ℤ,
}
use luet.GoMap.{Map, keys, lookup, has, put, delete_all}
use luet.Runtime.{GoRuntime}
use luet.Result.{Result, Error, ok, err, panic, out_of_fuel, no_database, search_error}
use luet.Gentoo.{Gentoo}
use luet.Package.Default.{DefaultPackage, name_of, get_provides}
use luet.Artifact.{
  PackageArtifact, ArtifactsMap, ArtifactsPack, get_package, artifact_name, to_map, get_provides_of,
}
use luet.Operations.{first}
use luet.Solver.{
  Solver, Searcher, search_opts, Solving, give, ◌>>=◌, ◌>>◌, get, modify, lift, next_tick,
}
use luet.Solver.Sorting.{sort_artifact_list_4_repos_and_requires}
use luet.Solver.Conflicts.{prepare_conflicts_and_system_map}
use luet.Solver.Resolve.{resolve_package}

-- The names that the artefacts of one key provide: the map ppmap.
unfoldable pub provided_by : List PackageArtifact → Map Bool → Map Bool
provided_by [] ppmap = ppmap
provided_by (art ∷ arts) ppmap = provided_by arts (mark (get_provides (get_package art)) ppmap)
  where
    mark : List DefaultPackage → Map Bool → Map Bool
    mark [] m = m
    mark (prov ∷ provs) m = mark provs (put (name_of prov) true m)

abbrev pub behind : List PackageArtifact → Option (List PackageArtifact) → List PackageArtifact
behind arts none = arts
behind arts (some pval) = pval ++ arts

-- For a provided name, the artefacts under the name of the package that provides it.
unfoldable pub add_provider :
    String → List PackageArtifact → String → Map ArtifactsMap → Map ArtifactsMap
add_provider pname arts k prov_maps = elim (lookup k prov_maps) [
  | some val ↦ put k (put pname (behind arts (lookup pname val)) val) prov_maps
  | none ↦ put k (put pname arts []) prov_maps
]

unfoldable pub add_providers :
    String → List PackageArtifact → List String → Map ArtifactsMap → Map ArtifactsMap
unfolding add_provider
add_providers pname arts [] prov_maps = prov_maps
add_providers pname arts (k ∷ ks) prov_maps =
    add_providers pname arts ks (add_provider pname arts k prov_maps)

-- The artefacts in front of an installed package, or that package's name.
unfoldable pub gather :
    (system : Map (List DefaultPackage))
    → ArtifactsMap
    → List PackageArtifact
    → Option String × List PackageArtifact
gather system [] arts = (none, arts)
gather system ((k, pp) ∷ m) arts =
    let rest = gather system m (arts ++ pp) in if has k system then (some k, arts) else rest

abbrev other_than : String → List String → List String
other_than k [] = []
other_than k (j ∷ js) = let rest = other_than k js in if j == k then rest else j ∷ rest

module _ (g : Gentoo) (rt : GoRuntime) (searcher : Searcher) where
  -- The map provMaps.
  unfoldable pub providers : ArtifactsMap → Map ArtifactsMap → Solving (Map ArtifactsMap)
  unfolding provided_by add_providers
  providers [] prov_maps = give prov_maps
  providers ((key, arts) ∷ am) prov_maps =
      let ppmap = provided_by arts [] in
      if is_empty ppmap then providers am prov_maps else do
        n ← next_tick
        art ← lift (first arts)
        providers am (add_providers (artifact_name art) arts (keys (rt.range n ppmap)) prov_maps)

  -- A name that several packages provide: none of them is kept if one is installed, and only the one
  -- that sorts first otherwise.
  unfoldable pub choose_provider : ArtifactsMap → Solving (Unit {0})
  unfolding gather
  choose_provider m = do
    s ← get
    n ← next_tick
    let (installed_pkg, arts) = gather s.system_map (rt.range n m) []
    elim installed_pkg [
      | some k ↦
          modify (λ s. record s { available_arts_map = delete_all (keys m) s.available_arts_map })
      | none ↦ (do
        winner ← lift (
            first (
              sort_artifact_list_4_repos_and_requires rt
                (elim s.map_repos [ none ↦ [] | some repos ↦ repos ]) arts))
        modify (λ s. record s {
          available_arts_map =
              delete_all (other_than (artifact_name winner) (keys m)) s.available_arts_map;
        }))
    ]

  unfoldable pub choose_providers : Map ArtifactsMap → Solving (Unit {0})
  unfolding choose_provider
  choose_providers [] = give tt
  choose_providers ((k, m) ∷ prov_maps) =
      let rest = choose_providers prov_maps in
      if ltb 1 (length m) then choose_provider m >> rest else rest

  -- The loop over pList. With the option Force an error is passed over.
  abbrev pub forced : Bool → Solver × Result (Unit {0}) → Solver × Result (Unit {0})
  forced force (s, err e) = (s, if force then ok tt else err e)
  forced force (s, ok u) = (s, ok u)
  forced force (s, panic) = (s, panic)
  forced force (s, out_of_fuel) = (s, out_of_fuel)

  unfoldable pub resolve_all : ℕ → List String → Solving (Unit {0})
  resolve_all depth [] = give tt
  resolve_all depth (pname ∷ p_list) = do
    s ← get
    _ ← λ s'. forced s.opts.force (resolve_package g rt searcher depth pname [] s')
    resolve_all depth p_list

  abbrev candidates_of : Option (List PackageArtifact) → List PackageArtifact
  candidates_of none = []
  candidates_of (some plist) = plist

  -- The first of the list in front of `rest`, or `otherwise` if it is empty.
  abbrev first_of : List PackageArtifact → (otherwise rest : ArtifactsPack) → ArtifactsPack
  first_of [] otherwise rest = otherwise
  first_of (a ∷ plist) otherwise rest = a ∷ rest

  -- The packages to install with the option NoDeps: the first candidate of each package asked for.
  unfoldable pub asked_candidates : List DefaultPackage → Solving ArtifactsPack
  asked_candidates [] = give []
  asked_candidates (p ∷ pkgs) = do
    s ← get
    n ← next_tick
    rest ← asked_candidates pkgs
    let provided = get_provides_of rt n s.candidates_map (name_of p)
    give (
        first_of (candidates_of (lookup (name_of p) s.candidates_map)) (first_of provided rest rest)
          rest)

  -- Without it, the first candidate of each key.
  unfoldable pub first_candidates : ArtifactsMap → Result ArtifactsPack
  first_candidates [] = ok []
  first_candidates ((k, plist) ∷ m) =
      luet.Result.◌>>=◌ (first plist)
        (λ a. luet.Result.◌>>=◌ (first_candidates m) (λ rest. ok (a ∷ rest)))

  -- The cleanup of the maps.
  unfoldable pub cleanup : Solver → Solver
  cleanup s = record s { system_map = []; conflicts_map = []; provides_map = []; map_repos = none }

  -- `world` is the installed packages, `none` a nil database; `repos` the priorities of the enabled
  -- repositories, `none` an error on reading one; `depth` bounds the depth of the calls.
  unfoldable pub install :
      (depth : ℕ)
      → (world : Option (List DefaultPackage)) → (repos : Result (Map ℤ))
      → (pkgs : List DefaultPackage) → Solving (ArtifactsPack × ArtifactsPack)
  unfolding providers choose_providers resolve_all asked_candidates first_candidates cleanup
  install depth none repos pkgs = lift (err no_database)
  install depth (some world) repos pkgs = do
    s ← get
    repos_artifacts ← elim (searcher (search_opts s.opts pkgs)) [
      | none ↦ lift (err search_error)
      | some arts ↦ give arts
    ]
    modify (λ s. record s { available_arts_map = to_map repos_artifacts })
    modify (prepare_conflicts_and_system_map world false)
    map_repos ← lift repos
    modify (λ s. record s { map_repos = some map_repos })
    s ← get
    n ← next_tick
    prov_maps ← providers (rt.range n s.available_arts_map) []
    n ← next_tick
    choose_providers (rt.range n prov_maps)
    s ← get
    n ← next_tick
    resolve_all depth (keys (rt.range n s.available_arts_map))
    modify cleanup
    s ← get
    n ← next_tick
    ans2_install ←
        if s.opts.no_deps
        then asked_candidates pkgs
        else lift (first_candidates (rt.range n s.candidates_map))
    give (ans2_install, [])
