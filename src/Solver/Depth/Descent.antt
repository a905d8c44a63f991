-- ===== src/Solver/Depth/Descent.antt =====
-- resolvePackage (pkg/v2/solver/solver.go) call by call: the stack grows by the name that is resolved.
use luet.Prelude.{
  ℕ, zero, suc, ◌≤◌, ◌<◌, ◌≡◌, ◌≢◌, String, true, false, some, List, [], ◌∷◌, ◌++◌, arith, ◌==◌,
  not, ◌||◌, all, contains_elem, Bool-cases, Option-cases, inl, inr, count, length, ==→eq, ==_refl,
  count_le_length,
}
use luet.GoMap.{lookup, has}
use luet.Runtime.{GoRuntime}
use luet.Result.{out_of_fuel, Ends, Ends-ne}
use luet.Gentoo.{Gentoo}
use luet.Package.Default.{DefaultPackage, name_of}
use luet.Artifact.{PackageArtifact, ArtifactsMap, artifact_name, get_artifacts_by_key}
use luet.Solver.{Solver, Searcher, SearchOpts, Solving}
use luet.Solver.Named.{
  is_named, is_known, IsNamed, IsNamed-lookup, IsNamed-add_all, IsNamed-put_sorted,
  sort_artifact_list_4_version_and_repos-Ends, get_sorted_artifacts_by_key-Ends,
}
use luet.Solver.Depth.{
  Any, first-Ends, admit-Ends, artefact_is_in_conflict-Ends, artefact_admit_by_queue-Ends, Good,
  Good-bind, Good-if, Good-lift, Good-give, Good-get, Good-tick, Good-verdict, resolved-Good,
}
use luet.Solver.Resolve.{
  is_provided, sort_at_hand, search_dependency, found, process_requires, process_artefact_deps,
  judge, select, accept, resolve_with, resolve_package, version_of,
}

module _ (g : Gentoo) (rt : GoRuntime) (searcher : Searcher) (names : List String)
    (known : (opts : SearchOpts) (arts : List PackageArtifact)
      → searcher opts ≡ some arts
      → all (is_known names) arts ≡ true) where
  get_artifacts_by_key-Ends :
      (am : ArtifactsMap) (k : String)
      → IsNamed names am
      → Ends (λ l. all (is_named names k) l ≡ true) (get_artifacts_by_key am k)
  unfolding get_artifacts_by_key
  get_artifacts_by_key-Ends am k i = elim (Option-cases (lookup k am)) [
    | inl e ↦ rw (get_artifacts_by_key, e) tt
    | inr (val, e) ↦ rw (get_artifacts_by_key, e) (IsNamed-lookup names k am val i e)
  ]

  sort_at_hand-Good : (p : DefaultPackage) → Good names Any (sort_at_hand g rt searcher p)
  unfolding sort_at_hand
  sort_at_hand-Good p = Good-bind names _ _ _ _ (Good-get names) (λ s i.
      elim (Option-cases s.map_repos) [
        | inl e ↦ rw e (
            Good-bind names _ _ _ _
              (Good-lift names _ _ (
                get_sorted_artifacts_by_key-Ends g (is_named names (name_of p)) s.available_arts_map
                  (name_of p)
                  (λ val f. IsNamed-lookup names (name_of p) s.available_arts_map val i f)))
              (λ arts h. Good-give names _))
        | inr (m, e) ↦ rw e (
            Good-bind names _ _ _ _
              (Good-lift names _ _ (get_artifacts_by_key-Ends s.available_arts_map (name_of p) i))
              (λ arts h.
                Good-bind names _ _ _ _
                  (Good-lift names _ _ (
                    sort_artifact_list_4_version_and_repos-Ends g (is_named names (name_of p)) rt
                      true m arts h))
                  (λ sorted h'.
                    Good-bind names Any _ _ _
                      (record {
                        good = λ t j. (
                          IsNamed-put_sorted names (name_of p) sorted t.available_arts_map h' j,
                          tt,
                        );
                      })
                      (λ u v. Good-give names _))))
      ])

  found-Ends :
      (opts : SearchOpts)
      → Ends (λ l. all (is_known names) l ≡ true) (found g rt searcher (searcher opts))
  found-Ends opts = elim (Option-cases (searcher opts)) [
    | inl e ↦ rw e tt
    | inr (arts, e) ↦ rw e (known opts arts e)
  ]

  search_dependency-Good : (p : DefaultPackage) → Good names Any (search_dependency g rt searcher p)
  unfolding search_dependency
  search_dependency-Good p = Good-bind names _ _ _ _ (Good-get names) (λ s i.
      Good-bind names _ _ _ _ (Good-lift names _ _ (found-Ends _)) (λ found h.
        Good-bind names (λ l. all (is_known names) l ≡ true) _ _ _
          (elim (Option-cases s.map_repos) [
            | inl e ↦ rw e (record { good = λ t j. (j, h) })
            | inr (m, e) ↦ rw e (
                Good-lift names _ _ (
                  sort_artifact_list_4_version_and_repos-Ends g (is_known names) rt true m found h))
          ])
          (λ arts h'.
            Good-bind names Any _ _ _
              (record { good = λ t j. (IsNamed-add_all names arts t.available_arts_map h' j, tt) })
              (λ u v. Good-give names _))))

  module _ (resolve : String → List String → Solving (Unit {0})) where
    process_requires-Good :
        (candidate : DefaultPackage) (stack : List String) (ps : List DefaultPackage)
        → ((k : String) → Good names Any (resolve k stack))
        → Good names Any (process_requires g rt searcher resolve candidate stack ps)
    unfolding process_requires
    process_requires-Good candidate stack [] ends = Good-give names _
    process_requires-Good candidate stack (p ∷ ps) ends =
        let rest = process_requires-Good candidate stack ps ends in
        Good-bind names _ _ _ _ (Good-get names) (λ s i.
          elim (Option-cases (lookup (name_of p) s.system_map)) [
            | inr (val, e) ↦ rw e (
                Good-bind names _ _ _ _ (Good-lift names _ _ (first-Ends val)) (λ v u.
                  Good-bind names _ _ _ _ (Good-lift names _ _ (admit-Ends g candidate v))
                    (λ admitted w. Good-if names Any admitted _ _ rest (Good-give names _))))
            | inl e ↦ rw e (
                Good-if names Any (is_provided g rt searcher s candidate p) _ _ rest (
                  Good-if names Any (has (name_of p) s.candidates_map) _ _ rest (
                    Good-if names Any (contains_elem stack (name_of p)) _ _ rest (
                      Good-bind names _ _ _ _
                        (Good-if names Any (has (name_of p) s.available_arts_map) _ _
                          (sort_at_hand-Good p) (search_dependency-Good p))
                        (λ key u.
                          Good-bind names Any _ _ _
                            (record {
                              good = λ t j.
                                  resolved-Good names (resolve key stack t) ((ends key).good t j);
                            })
                            (λ ready v. Good-if names Any ready _ _ rest (Good-give names _)))))))
          ])

    judge-Good :
        (stack : List String) (art : PackageArtifact)
        → ((k : String) → Good names Any (resolve k (stack ++ artifact_name art ∷ [])))
        → Good names Any (judge g rt searcher resolve stack art)
    unfolding judge process_artefact_deps
    judge-Good stack art ends = Good-bind names _ _ _ _ (Good-get names) (λ s i.
        Good-bind names _ _ _ _
          (Good-if names Any _ _ _ (Good-give names _)
            (Good-lift names _ _ (artefact_is_in_conflict-Ends g s art)))
          (λ in_conflict u. Good-if names Any in_conflict _ _ (Good-give names _) (
            Good-bind names _ _ _ _ (Good-lift names _ _ (artefact_admit_by_queue-Ends g rt s art))
              (λ admitted v. Good-bind names _ _ _ _ (Good-tick names) (λ n w.
                Good-if names Any _ _ _ (Good-give names _) (
                  Good-bind names _ _ _ _ (process_requires-Good _ _ _ ends)
                    (λ admitted_deps x. Good-give names _)))))))

    select-Good :
        (pkgstr : String) (stack : List String) (arts : List PackageArtifact)
        (banned_version : List String)
        → all (is_named names pkgstr) arts ≡ true
        → (contains_elem names pkgstr ≡ true
            → (k : String) → Good names Any (resolve k (stack ++ pkgstr ∷ [])))
        → Good names Any (select g rt searcher resolve stack arts banned_version)
    unfolding select
    select-Good pkgstr stack [] banned_version h ends = Good-give names _
    select-Good pkgstr stack (art ∷ arts) banned_version h ends =
        let called : artifact_name art ≡ pkgstr = ==→eq (artifact_name art) pkgstr (ground arith) in
        let calls : (k : String) → Good names Any (resolve k (stack ++ artifact_name art ∷ [])) =
          rw called (ends (ground arith)) in
        let skip = select-Good pkgstr stack arts banned_version (ground arith) ends in
        let ban =
          select-Good pkgstr stack arts (version_of art ∷ banned_version) (ground arith) ends in
        Good-if names Any _ _ _ skip (
          Good-bind names _ _ _ _ (judge-Good stack art calls)
            (λ verdict u. Good-verdict names Any verdict _ _ _ ban skip (Good-give names _)))

    resolve_with-Good :
        (pkgstr : String) (stack : List String)
        → (contains_elem stack pkgstr ≡ false
            → contains_elem names pkgstr ≡ true
            → (k : String) → Good names Any (resolve k (stack ++ pkgstr ∷ [])))
        → Good names Any (resolve_with g rt searcher resolve pkgstr stack)
    unfolding resolve_with accept
    resolve_with-Good pkgstr stack ends = Good-bind names _ _ _ _ (Good-get names) (λ s i.
        elim (Bool-cases (contains_elem stack pkgstr)) [
          | inl y ↦ rw y (Good-give names _)
          | inr n ↦ rw n (
              Good-if names Any (has pkgstr s.candidates_map) _ _ (Good-give names _) (
                Good-bind names _ _ _ _
                  (Good-lift names _ _ (
                    get_sorted_artifacts_by_key-Ends g (is_named names pkgstr) s.available_arts_map
                      pkgstr (λ val f. IsNamed-lookup names pkgstr s.available_arts_map val i f)))
                  (λ selected_arts h.
                    Good-bind names _ _ _ _ (select-Good pkgstr stack selected_arts [] h (ends n))
                      (λ found u.
                        Good-if names Any found.0 _ _ (record { good = λ t j. (j, tt) })
                          (Good-lift names _ _ tt)))))
        ])

-- The names that are not on the stack.
abbrev room : List String → List String → ℕ
room names stack = count (λ u. not (contains_elem stack u)) names

contains_elem-append :
    (stack : List String) (p u : String)
    → contains_elem (stack ++ p ∷ []) u ≡ (contains_elem stack u || p == u)
unfolding contains_elem
contains_elem-append [] p u = ground arith
contains_elem-append (a ∷ stack) p u = ground (arith, contains_elem-append stack p u)

room-append-le :
    (names stack : List String) (p : String) → room names (stack ++ p ∷ []) ≤ room names stack
room-append-le [] stack p = omega arith
room-append-le (u ∷ names) stack p =
    rw (contains_elem-append stack p u) (ground (arith, room-append-le names stack p))

room-append-lt :
    (names stack : List String) (p : String)
    → contains_elem stack p ≡ false
    → contains_elem names p ≡ true
    → room names (stack ++ p ∷ []) < room names stack
unfolding contains_elem
room-append-lt [] stack p n y = cc
room-append-lt (u ∷ names) stack p n y = elim (Bool-cases (u == p)) [
  | inl e ↦
      rw (contains_elem-append stack p u, ==→eq u p e, ==_refl p, n)
        (ground (arith, room-append-le names stack p))
  | inr e ↦
      rw (contains_elem-append stack p u)
        (ground (arith, room-append-lt names stack p n (rw e at y)))
]

module _ (g : Gentoo) (rt : GoRuntime) (searcher : Searcher) (names : List String)
    (known : (opts : SearchOpts) (arts : List PackageArtifact)
      → searcher opts ≡ some arts
      → all (is_known names) arts ≡ true) where
  resolve_package-Good :
      (fuel : ℕ) (pkgstr : String) (stack : List String)
      → room names stack < fuel
      → Good names Any (resolve_package g rt searcher fuel pkgstr stack)
  unfolding resolve_package
  resolve_package-Good zero pkgstr stack h = absurd (omega arith)
  resolve_package-Good (suc fuel) pkgstr stack h =
      resolve_with-Good g rt searcher names known (resolve_package g rt searcher fuel) pkgstr stack
        (λ n y k.
          resolve_package-Good fuel k (stack ++ pkgstr ∷ [])
            (omega (arith, room-append-lt names stack pkgstr n y)))

  pub resolve_package-deep_enough :
      (fuel : ℕ) (pkgstr : String) (stack : List String)
      → length names < fuel
      → Good names Any (resolve_package g rt searcher fuel pkgstr stack)
  resolve_package-deep_enough fuel pkgstr stack h =
      resolve_package-Good fuel pkgstr stack
        (omega (arith, count_le_length (λ u. not (contains_elem stack u)) names))

  -- If every search answers with artefacts of the names of a finite list, and each key at hand has
  -- artefacts of its own name, from that list, then resolvePackage ends: the depth of calls of the model
  -- is not used up if it is larger than the number of those names. Each key at hand has such artefacts
  -- again afterwards.
  pub resolve_package-ne-out_of_fuel :
      (fuel : ℕ) (pkgstr : String) (stack : List String) (s : Solver)
      → length names < fuel
      → IsNamed names s.available_arts_map
      → ((resolve_package g rt searcher fuel pkgstr stack s).1 ≢ out_of_fuel)
        × IsNamed names (resolve_package g rt searcher fuel pkgstr stack s).0.available_arts_map
  resolve_package-ne-out_of_fuel fuel pkgstr stack s h i =
      let ran = (resolve_package-deep_enough fuel pkgstr stack h).good s i in
      (Ends-ne Any _ ran.1, ran.0)
