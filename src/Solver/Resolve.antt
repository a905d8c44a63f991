-- ===== src/Solver/Resolve.antt =====
-- resolvePackage and processArtefactDeps of pkg/v2/solver/solver.go. They call each other: the model
-- hands the one to the other, on fuel for the depth of the calls.
use luet.Prelude.{
  ℕ, zero, suc, String, Bool, true, false, Option, none, some, List, [], ◌∷◌, ◌++◌, ◌==◌, not, any,
  keep, if◌then◌else◌, contains_elem, is_empty,
}
use luet.GoMap.{lookup, has, put}
use luet.Runtime.{GoRuntime}
use luet.Result.{
  Result, Error, ok, err, panic, out_of_fuel, no_valid_dependency, no_valid_candidate, search_error,
}
use luet.Gentoo.{Gentoo}
use luet.Package.Default.{
  DefaultPackage, fields, name_of, get_version, get_provides, get_requires,
  new_package_with_cat_thin,
}
use luet.Package.Admit.{admit}
use luet.Artifact.{PackageArtifact, get_package, artifact_name, add_all, get_artifacts_by_key}
use luet.Operations.{first}
use luet.Solver.{
  Solver, Searcher, search_opts, Solving, give, ◌>>=◌, ◌>>◌, get, modify, lift, next_tick,
  PkgsMapList,
}
use luet.Solver.Sorting.{sort_artifact_list_4_version_and_repos, get_sorted_artifacts_by_key}
use luet.Solver.Conflicts.{add_named, valid, artefact_is_in_conflict, artefact_admit_by_queue}

-- What an iteration over the selected artefacts comes to.
pub data Verdict : Type 0 where
  banned : Verdict
  skipped : Verdict
  matched : Verdict

-- strings.HasPrefix(err.Error(), "No valid")
abbrev pub is_no_valid : Error → Bool
is_no_valid (no_valid_dependency p) = true
is_no_valid (no_valid_candidate p) = true
is_no_valid _ = false

-- The call of resolvePackage in processArtefactDeps: `false` where no valid version was found.
abbrev pub resolved : Solver × Result (Unit {0}) → Solver × Result Bool
resolved (s, ok u) = (s, ok true)
resolved (s, err e) = (s, if is_no_valid e then ok false else err e)
resolved (s, panic) = (s, panic)
resolved (s, out_of_fuel) = (s, out_of_fuel)

abbrev pub version_of : PackageArtifact → String
version_of a = get_version (get_package a)

-- The name that the search of a dependency found it under: `provStr`, if set.
abbrev pub provided_name : String → List PackageArtifact → String
provided_name name [] = name
provided_name name (a ∷ arts) =
    let rest = provided_name name arts in if artifact_name a == name then rest else artifact_name a

module _ (g : Gentoo) (rt : GoRuntime) (searcher : Searcher) where
  -- One of the packages of the provides map provides a package that the candidate admits.
  unfoldable pub provides_matched : DefaultPackage → List DefaultPackage → Bool
  provides_matched candidate provides =
      any (λ prov. any (λ p. valid (admit g candidate p)) (get_provides prov)) provides

  abbrev pub is_provided : Solver → DefaultPackage → DefaultPackage → Bool
  is_provided s candidate p = elim (lookup (name_of p) s.provides_map) [
    | none ↦ false
    | some provides ↦ provides_matched candidate provides
  ]

  -- The versions of a dependency that is among the packages at hand get sorted in place.
  unfoldable pub sort_at_hand : DefaultPackage → Solving String
  sort_at_hand p = do
    s ← get
    elim s.map_repos [
      | none ↦ (do
        selected_arts ← lift (get_sorted_artifacts_by_key g s.available_arts_map (name_of p))
        give (name_of p))
      | some map_repos ↦ (do
        selected_arts ← lift (get_artifacts_by_key s.available_arts_map (name_of p))
        sorted ← lift (sort_artifact_list_4_version_and_repos g rt true map_repos selected_arts)
        modify (λ s. record s { available_arts_map = put (name_of p) sorted s.available_arts_map })
        give (name_of p))
    ]

  abbrev pub found : Option (List PackageArtifact) → Result (List PackageArtifact)
  found none = err search_error
  found (some arts) = ok arts

  -- The others are searched for, sorted, and added to those at hand.
  unfoldable pub search_dependency : DefaultPackage → Solving String
  search_dependency p = do
    s ← get
    repos_artifacts ← lift (
        found (
          searcher (
            search_opts s.opts (
              new_package_with_cat_thin (fields p).category (fields p).name (fields p).version
              ∷ []))))
    arts ← elim s.map_repos [
      | none ↦ give repos_artifacts
      | some map_repos ↦
          lift (sort_artifact_list_4_version_and_repos g rt true map_repos repos_artifacts)
    ]
    modify (λ s. record s { available_arts_map = add_all arts s.available_arts_map })
    give (provided_name (name_of p) arts)

  -- The loop of processArtefactDeps over the requires. `resolve` is resolvePackage.
  unfoldable pub process_requires :
      (String → List String → Solving (Unit {0}))
      → DefaultPackage
      → List String
      → List DefaultPackage
      → Solving Bool
  unfolding provides_matched sort_at_hand search_dependency
  process_requires resolve candidate stack [] = give true
  process_requires resolve candidate stack (p ∷ ps) =
      let rest = process_requires resolve candidate stack ps in
      do
        s ← get
        elim (lookup (name_of p) s.system_map) [
          | some val ↦ (do
            v ← lift (first val)
            admitted ← lift (admit g candidate v)
            if admitted then rest else give false)
          | none ↦
              if is_provided s candidate p
              then rest
              else if has (name_of p) s.candidates_map
              then rest
              else if contains_elem stack (name_of p)
              then rest
              else do
                key ←
                    if has (name_of p) s.available_arts_map
                    then sort_at_hand p
                    else search_dependency p
                ready ← λ s'. resolved (resolve key stack s')
                if ready then rest else give false
        ]

  unfoldable pub process_artefact_deps :
      (String → List String → Solving (Unit {0})) → PackageArtifact → List String → Solving Bool
  unfolding process_requires
  process_artefact_deps resolve art stack =
      process_requires resolve (get_package art) stack (get_requires (get_package art))

  -- An artefact whose version is not banned: checked against the system, the queue, and its requires.
  unfoldable pub judge :
      (String → List String → Solving (Unit {0})) → List String → PackageArtifact → Solving Verdict
  unfolding process_artefact_deps
  judge resolve stack art = do
    s ← get
    in_conflict ←
        if s.opts.ignore_conflicts then give false else lift (artefact_is_in_conflict g s art)
    if in_conflict then give banned else do
      admitted ← lift (artefact_admit_by_queue g rt s art)
      n ← next_tick
      if not admitted then give skipped else do
        admitted_deps ← process_artefact_deps resolve art (stack ++ artifact_name art ∷ [])
        give (if admitted_deps then matched else skipped)

  -- The loop over selectedArts: whether it found a match, and the banned versions.
  unfoldable pub select :
      (String → List String → Solving (Unit {0}))
      → List String
      → List PackageArtifact
      → (banned_version : List String) → Solving (Bool × List String)
  unfolding judge
  select resolve stack [] banned_version = give (false, banned_version)
  select resolve stack (art ∷ arts) banned_version =
      let skip = select resolve stack arts banned_version in
      let ban = select resolve stack arts (version_of art ∷ banned_version) in
      if contains_elem banned_version (version_of art) then skip else do
        verdict ← judge resolve stack art
        elim verdict [ banned ↦ ban | skipped ↦ skip | matched ↦ give (true, banned_version) ]

  -- The versions that are not banned, which become the candidates. The provides of the first are
  -- registered.
  unfoldable pub valid_arts : List String → List PackageArtifact → List PackageArtifact
  valid_arts banned_version = keep (λ art. not (contains_elem banned_version (version_of art)))

  unfoldable pub register_provides : List PackageArtifact → PkgsMapList → PkgsMapList
  register_provides [] m = m
  register_provides (art ∷ arts) m = add_named (get_provides (get_package art)) (get_package art) m

  unfoldable pub accept : String → List PackageArtifact → Solver → Solver
  unfolding register_provides
  accept pkgstr arts s = record s {
    provides_map = register_provides arts s.provides_map;
    candidates_map = put pkgstr arts s.candidates_map;
  }

  -- The body of resolvePackage, with the function for the calls below it.
  unfoldable pub resolve_with :
      (String → List String → Solving (Unit {0})) → String → List String → Solving (Unit {0})
  unfolding select valid_arts accept
  resolve_with resolve pkgstr stack = do
    s ← get
    if contains_elem stack pkgstr
        then give tt
        else if has pkgstr s.candidates_map
        then give tt
        else do
          selected_arts ← lift (get_sorted_artifacts_by_key g s.available_arts_map pkgstr)
          (found_matched, banned_version) ← select resolve stack selected_arts []
          if found_matched
              then modify (accept pkgstr (valid_arts banned_version selected_arts))
              else lift (
                  err (
                    if is_empty stack
                    then no_valid_candidate pkgstr
                    else no_valid_dependency pkgstr))

  unfoldable pub resolve_package : ℕ → String → List String → Solving (Unit {0})
  unfolding resolve_with
  resolve_package zero pkgstr stack = lift out_of_fuel
  resolve_package (suc fuel) pkgstr stack = resolve_with (resolve_package fuel) pkgstr stack
