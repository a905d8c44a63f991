-- ===== src/Solver/Depth/Install.antt =====
-- Install (pkg/v2/solver/solver.go) as a whole: its packages at hand are grouped by their names, so
-- each call of resolvePackage ends.
use luet.Prelude.{
  ℕ, ◌<◌, ◌≡◌, ◌≢◌, refl, sym, subst, String, Bool, true, false, Option, none, some, List, [], ◌∷◌,
  arith, ◌==◌, all, is_empty, ltb, length, Bool-cases, Option-cases, inl, inr, ℤ,
}
use luet.GoMap.{Map, keys, delete, delete_all}
use luet.Runtime.{GoRuntime}
use luet.Result.{Result, Error, ok, err, panic, out_of_fuel, Ends, Ends-bind, Ends-ne}
use luet.Gentoo.{Gentoo}
use luet.Package.Default.{DefaultPackage}
use luet.Artifact.{PackageArtifact, ArtifactsMap, to_map}
use luet.Operations.{first}
use luet.Solver.{
  Solver, Searcher, SearchOpts, search_opts, Solving, ◌>>=◌, get, modify, lift, next_tick,
}
use luet.Solver.Conflicts.{register_all, prepare_conflicts_and_system_map}
use luet.Solver.Calls.{get-bind, ok-bind, modify-bind}
use luet.Solver.Named.{is_named, is_known, IsNamed, IsNamed-add_all}
use luet.Solver.Install.{
  provided_by, providers, gather, choose_provider, choose_providers, forced, resolve_all,
  asked_candidates, first_candidates, cleanup, install,
}
use luet.Solver.Depth.{
  Any, first-Ends, Inv, Good, Good-bind, Good-if, Good-lift, Good-give, Good-get, Good-tick,
}
use luet.Solver.Depth.Descent.{resolve_package-deep_enough}

module _ (names : List String) where
  abbrev named_entry : String × List PackageArtifact → Bool
  named_entry e = all (is_named names e.0) e.1

  IsNamed-delete : (k : String) (am : ArtifactsMap) → IsNamed names am → IsNamed names (delete k am)
  unfolding delete
  IsNamed-delete k [] i = refl
  IsNamed-delete k ((j, v) ∷ am) i =
      let here : named_entry (j, v) ≡ true = ground arith in
      let rest = IsNamed-delete k am (ground arith) in
      elim (Bool-cases (j == k)) [ inl e ↦ rw e rest | inr e ↦ rw (e, here) rest ]

  IsNamed-delete_all :
      (ks : List String) (am : ArtifactsMap) → IsNamed names am → IsNamed names (delete_all ks am)
  unfolding delete_all
  IsNamed-delete_all [] am i = i
  IsNamed-delete_all (k ∷ ks) am i = IsNamed-delete_all ks (delete k am) (IsNamed-delete k am i)

  register_all-Inv :
      (b : Bool) (ps : List DefaultPackage) (s : Solver)
      → Inv names s
      → Inv names (register_all b ps s)
  unfolding register_all
  register_all-Inv b [] s i = i
  register_all-Inv b (p ∷ ps) s i = register_all-Inv b ps _ i

  Good-modify :
      (f : Solver → Solver)
      → ((s : Solver) → Inv names s → Inv names (f s))
      → Good names Any (modify f)
  Good-modify f h = record { good = λ s i. (h s i, tt) }

  lift-Good : {A : Type 0} (r : Result A) → r ≢ out_of_fuel → Good names Any (lift r)
  lift-Good (ok a) h = Good-give names a
  lift-Good (err e) h = record { good = λ s i. (i, tt) }
  lift-Good panic h = record { good = λ s i. (i, tt) }
  lift-Good out_of_fuel h = absurd (h refl)

  forced-Good :
      (g : Gentoo) (rt : GoRuntime) (searcher : Searcher) (force : Bool)
      (x : Solver × Result (Unit {0}))
      → Inv names x.0 × Ends Any x.1
      → Inv names (forced g rt searcher force x).0 × Ends Any (forced g rt searcher force x).1
  forced-Good g rt searcher true (s, err e) h = h
  forced-Good g rt searcher false (s, err e) h = h
  forced-Good g rt searcher force (s, ok u) h = h
  forced-Good g rt searcher force (s, panic) h = h
  forced-Good g rt searcher force (s, out_of_fuel) h = h

  first_candidates-Ends :
      (g : Gentoo) (rt : GoRuntime) (searcher : Searcher) (m : ArtifactsMap)
      → Ends Any (first_candidates g rt searcher m)
  unfolding first_candidates
  first_candidates-Ends g rt searcher [] = tt
  first_candidates-Ends g rt searcher ((k, plist) ∷ m) =
      Ends-bind Any Any (first plist) _ (first-Ends plist) (λ a u.
        Ends-bind Any Any (first_candidates g rt searcher m) _
          (first_candidates-Ends g rt searcher m) (λ rest v. tt))

  module _ (g : Gentoo) (rt : GoRuntime) (searcher : Searcher) where
    providers-Good :
        (am : ArtifactsMap) (prov_maps : Map ArtifactsMap)
        → Good names Any (providers g rt searcher am prov_maps)
    unfolding providers
    providers-Good [] prov_maps = Good-give names _
    providers-Good ((key, arts) ∷ am) prov_maps =
        Good-if names Any (is_empty (provided_by arts [])) _ _ (providers-Good am prov_maps) (
          Good-bind names Any Any _ _ (Good-tick names) (λ n u.
            Good-bind names Any Any _ _ (Good-lift names Any _ (first-Ends arts))
              (λ art v. providers-Good am _)))

    choose_provider-Good : (m : ArtifactsMap) → Good names Any (choose_provider g rt searcher m)
    unfolding choose_provider
    choose_provider-Good m = Good-bind names (Inv names) Any _ _ (Good-get names) (λ s i.
        Good-bind names Any Any _ _ (Good-tick names) (λ n u.
          elim (Option-cases ((gather s.system_map (rt.range n m) []).0)) [
            | inr (k, e) ↦
                rw e (Good-modify _ (λ t j. IsNamed-delete_all (keys m) t.available_arts_map j))
            | inl e ↦ rw e (
                Good-bind names Any Any _ _ (Good-lift names Any _ (first-Ends _))
                  (λ winner v. Good-modify _ (λ t j. IsNamed-delete_all _ t.available_arts_map j)))
          ]))

    choose_providers-Good :
        (pm : Map ArtifactsMap) → Good names Any (choose_providers g rt searcher pm)
    unfolding choose_providers
    choose_providers-Good [] = Good-give names _
    choose_providers-Good ((k, m) ∷ pm) =
        Good-if names Any (ltb 1 (length m)) _ _
          (Good-bind names Any Any _ _ (choose_provider-Good m) (λ u v. choose_providers-Good pm))
          (choose_providers-Good pm)

    asked_candidates-Good :
        (pkgs : List DefaultPackage) → Good names Any (asked_candidates g rt searcher pkgs)
    unfolding asked_candidates
    asked_candidates-Good [] = Good-give names _
    asked_candidates-Good (p ∷ pkgs) = Good-bind names (Inv names) Any _ _ (Good-get names) (λ s i.
        Good-bind names Any Any _ _ (Good-tick names) (λ n u.
          Good-bind names Any Any _ _ (asked_candidates-Good pkgs) (λ rest v. Good-give names _)))

known_all :
    (names : List String) (arts : List PackageArtifact)
    → all (is_known names) arts ≡ true
    → IsNamed names (to_map arts)
unfolding to_map
known_all names arts h = IsNamed-add_all names arts [] h refl

-- The rest of a method after the packages at hand are set.
set-Ends :
    {A : Type 0} (names : List String) (f : Solver → Solver) (k : Unit {0} → Solving A) (s : Solver)
    → Inv names (f s)
    → Good names Any (k tt)
    → Ends Any ((modify f >>= k) s).1
set-Ends names f k s i h = subst (λ x. Ends Any x.1) (sym (modify-bind f k s)) ((h.good (f s) i).1)

err-bind-Ends :
    {A B : Type 0} (e : Error) (k : A → Solving B) (s : Solver)
    → Ends Any ((lift (err e) >>= k) s).1
unfolding ◌>>=◌
err-bind-Ends e k s = tt

module _ (g : Gentoo) (rt : GoRuntime) (searcher : Searcher) (names : List String)
    (known : (opts : SearchOpts) (arts : List PackageArtifact)
      → searcher opts ≡ some arts
      → all (is_known names) arts ≡ true)
    (depth : ℕ) (enough : length names < depth) where
  resolve_all-Good :
      (p_list : List String) → Good names Any (resolve_all g rt searcher depth p_list)
  unfolding resolve_all
  resolve_all-Good [] = Good-give names _
  resolve_all-Good (pname ∷ p_list) = Good-bind names (Inv names) Any _ _ (Good-get names) (λ s i.
      Good-bind names Any Any _ _
        (record {
          good = λ t j. forced-Good names g rt searcher s.opts.force _ (
              (resolve_package-deep_enough g rt searcher names known depth pname [] enough).good t
                j);
        })
        (λ u v. resolve_all-Good p_list))

  -- A call of the rest of Install, which keeps the packages at hand named and ends.
  calls :
      {A B : Type 0} (m : Solving A) (f : A → Solving B)
      → Good names Any m
      → ((a : A) → Good names Any (f a))
      → Good names Any (m >>= f)
  calls m f h k = Good-bind names Any Any m f h (λ a u. k a)

  reads :
      {B : Type 0} (f : Solver → Solving B)
      → ((s : Solver) → Good names Any (f s))
      → Good names Any (get >>= f)
  reads f k = Good-bind names (Inv names) Any get f (Good-get names) (λ s i. k s)

  ranges :
      {B : Type 0} (f : ℕ → Solving B)
      → ((n : ℕ) → Good names Any (f n))
      → Good names Any (next_tick >>= f)
  ranges f k = calls next_tick f (Good-tick names) k

  install-Ends :
      (world : List DefaultPackage) (repos : Result (Map ℤ)) (pkgs : List DefaultPackage)
      (s : Solver)
      → repos ≢ out_of_fuel
      → Ends Any (install g rt searcher depth (some world) repos pkgs s).1
  unfolding install prepare_conflicts_and_system_map cleanup
  install-Ends world repos pkgs s h =
      subst (λ x. Ends Any x.1) (sym (get-bind _ s))
        (elim (Option-cases (searcher (search_opts s.opts pkgs))) [
          | inl e ↦ rw e (err-bind-Ends _ _ s)
          | inr (arts, e) ↦ rw e (
              subst (λ x. Ends Any x.1) (sym (ok-bind arts _ s))
                (set-Ends names _ _ s (known_all names arts (known _ arts e)) (
                  calls _ _ (Good-modify names _ (λ t i. register_all-Inv names false world _ i))
                    (λ u. calls _ _ (lift-Good names repos h) (λ map_repos.
                      calls _ _ (Good-modify names _ (λ t i. i)) (λ u. reads _ (λ t. ranges _ (λ n.
                        calls _ _
                          (providers-Good names g rt searcher (rt.range n t.available_arts_map) [])
                          (λ prov_maps. ranges _ (λ n.
                            calls _ _
                              (choose_providers-Good names g rt searcher (rt.range n prov_maps))
                              (λ u. reads _ (λ t. ranges _ (λ n.
                                calls _ _ (resolve_all-Good _) (λ u.
                                  calls _ _ (Good-modify names _ (λ t i. i)) (λ u. reads _ (λ t.
                                    ranges _ (λ n.
                                      calls _ _
                                        (Good-if names Any t.opts.no_deps _ _
                                          (asked_candidates-Good names g rt searcher pkgs)
                                          (Good-lift names Any _ (
                                            first_candidates-Ends names g rt searcher
                                              (rt.range n t.candidates_map))))
                                        (λ ans2_install. Good-give names _))))))))))))))))))
        ])

  no_database-ne :
      (repos : Result (Map ℤ)) (pkgs : List DefaultPackage) (s : Solver)
      → (install g rt searcher depth none repos pkgs s).1 ≢ out_of_fuel
  unfolding install
  no_database-ne repos pkgs s e = cc

  -- If every search answers with artefacts of the names of a finite list, the reading of the
  -- repositories' priorities ends, and the depth of calls of the model is larger than the number of
  -- those names, then Install ends on every database, every list of packages and every state of the
  -- solver before it: the depth is not used up.
  pub install-ne-out_of_fuel :
      (world : Option (List DefaultPackage)) (repos : Result (Map ℤ)) (pkgs : List DefaultPackage)
      (s : Solver)
      → repos ≢ out_of_fuel
      → (install g rt searcher depth world repos pkgs s).1 ≢ out_of_fuel
  install-ne-out_of_fuel none repos pkgs s h = no_database-ne repos pkgs s
  install-ne-out_of_fuel (some world) repos pkgs s h =
      Ends-ne Any _ (install-Ends world repos pkgs s h)
