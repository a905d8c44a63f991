-- ===== src/Solver/Frame.antt =====
-- Relations between the solver's maps before and after resolvePackage of pkg/v2/solver/solver.go, from
-- the changes that it is made of.
use luet.Prelude.{
  ℕ, zero, suc, ◌≡◌, refl, String, Bool, true, false, List, [], ◌∷◌, if◌then◌else◌, contains_elem,
  is_empty, Option-cases, inl, inr,
}
use luet.GoMap.{has, lookup, put}
use luet.Runtime.{GoRuntime}
use luet.Result.{Result, Error, ok, err, panic, out_of_fuel}
use luet.Gentoo.{Gentoo}
use luet.Artifact.{PackageArtifact, ArtifactsMap}
use luet.Package.Default.{DefaultPackage, name_of}
use luet.Solver.{
  Solver, Searcher, Solving, PkgsMapList, continue, give, ◌>>=◌, get, modify, lift, next_tick,
}
use luet.Solver.Selected.{valid_arts-select}
use luet.Solver.Resolve.{
  Verdict, banned, skipped, matched, resolved, is_provided, sort_at_hand, search_dependency,
  process_requires, process_artefact_deps, judge, select, accept, resolve_with, resolve_package,
  version_of,
}

-- The relation holds across each change that resolvePackage makes. A key of the candidates gets a
-- list with elements only.
pub record IsFrame (R : Solver → Solver → Type 0) : Type 0 where
  pub stays : (s : Solver) → R s s
  pub joins : (s t u : Solver) → R s t → R t u → R s u
  pub counts : (s : Solver) (n : ℕ) → R s (record s { ticks = n })
  pub finds : (s : Solver) (am : ArtifactsMap) → R s (record s { available_arts_map = am })
  pub accepts :
      (s : Solver) (provided : PkgsMapList) (k : String) (arts : List PackageArtifact)
      → is_empty arts ≡ false
      → R s (record s { provides_map = provided; candidates_map = put k arts s.candidates_map })

-- The method's maps before and after are in the relation.
pub record Respects (R : Solver → Solver → Type 0) {A : Type 0} (m : Solving A) : Type 0 where
  pub relates : (s : Solver) → R s (m s).0

module _ {R : Solver → Solver → Type 0} (frame : IsFrame R) where
  open frame use {stays, joins, counts, finds, accepts}

  continue-relates :
      {A B : Type 0} (f : A → Solving B) (s : Solver) (x : Solver × Result A)
      → R s x.0
      → ((t : Solver) (a : A) → x ≡ (t, ok a) → R t (f a t).0)
      → R s (continue f x).0
  continue-relates f s (t, ok a) h k = joins s t (f a t).0 h (k t a refl)
  continue-relates f s (t, err e') h k = h
  continue-relates f s (t, panic) h k = h
  continue-relates f s (t, out_of_fuel) h k = h

  -- For the rest of a method, the value that the call returned is at hand.
  pub Respects-bind_returns :
      {A B : Type 0} (m : Solving A) (f : A → Solving B)
      → Respects R m
      → ((s t : Solver) (a : A) → m s ≡ (t, ok a) → R t (f a t).0)
      → Respects R (m >>= f)
  unfolding ◌>>=◌
  Respects-bind_returns m f h k = record {
    relates = λ s. continue-relates f s (m s) (h.relates s) (λ t a e. k s t a e);
  }

  pub Respects-bind :
      {A B : Type 0} (m : Solving A) (f : A → Solving B)
      → Respects R m
      → ((a : A) → Respects R (f a))
      → Respects R (m >>= f)
  Respects-bind m f h k = Respects-bind_returns m f h (λ s t a e. (k a).relates t)

  pub Respects-if :
      {A : Type 0} (b : Bool) (m n : Solving A)
      → Respects R m
      → Respects R n
      → Respects R (if b then m else n)
  Respects-if true m n h k = h
  Respects-if false m n h k = k

  pub Respects-lift : {A : Type 0} (r : Result A) → Respects R (lift r)
  Respects-lift r = record { relates = stays }

  pub Respects-give : {A : Type 0} (a : A) → Respects R (give a)
  Respects-give a = record { relates = stays }

  pub Respects-get : Respects R get
  Respects-get = record { relates = stays }

  pub Respects-tick : Respects R next_tick
  Respects-tick = record { relates = λ s. counts s _ }

  Respects-verdict :
      {A : Type 0} (v : Verdict) (a b c : Solving A)
      → Respects R a
      → Respects R b
      → Respects R c
      → Respects R (elim v [ banned ↦ a | skipped ↦ b | matched ↦ c ])
  Respects-verdict banned a b c h k l = h
  Respects-verdict skipped a b c h k l = k
  Respects-verdict matched a b c h k l = l

  accepted-relates :
      (b : Bool) (s : Solver) (f : Solver → Solver) (e : Error)
      → (b ≡ true → R s (f s))
      → R s ((if b then modify f else lift (err e)) s).0
  accepted-relates true s f e h = h refl
  accepted-relates false s f e h = stays s

  resolved-relates : (s : Solver) (x : Solver × Result (Unit {0})) → R s x.0 → R s (resolved x).0
  resolved-relates s (t, ok u) h = h
  resolved-relates s (t, err e) h = h
  resolved-relates s (t, panic) h = h
  resolved-relates s (t, out_of_fuel) h = h

  module _ (g : Gentoo) (rt : GoRuntime) (searcher : Searcher) where
    sort_at_hand-Respects : (p : DefaultPackage) → Respects R (sort_at_hand g rt searcher p)
    unfolding sort_at_hand
    sort_at_hand-Respects p = Respects-bind _ _ Respects-get (λ s. elim (Option-cases s.map_repos) [
      | inl e ↦ rw e (Respects-bind _ _ (Respects-lift _) (λ arts. Respects-give _))
      | inr (m, e) ↦ rw e (
          Respects-bind _ _ (Respects-lift _) (λ arts.
            Respects-bind _ _ (Respects-lift _) (λ sorted.
              Respects-bind _ _ (record { relates = λ t. finds t _ }) (λ u. Respects-give _))))
    ])

    search_dependency-Respects :
        (p : DefaultPackage) → Respects R (search_dependency g rt searcher p)
    unfolding search_dependency
    search_dependency-Respects p = Respects-bind _ _ Respects-get (λ s.
        Respects-bind _ _ (Respects-lift _) (λ found.
          Respects-bind _ _
            (elim (Option-cases s.map_repos) [
              | inl e ↦ rw e (Respects-give _)
              | inr (m, e) ↦ rw e (Respects-lift _)
            ])
            (λ arts.
              Respects-bind _ _ (record { relates = λ t. finds t _ }) (λ u. Respects-give _))))

    module _ (resolve : String → List String → Solving (Unit {0}))
        (kept : (k : String) (stack : List String) → Respects R (resolve k stack)) where
      process_requires-Respects :
          (candidate : DefaultPackage) (stack : List String) (ps : List DefaultPackage)
          → Respects R (process_requires g rt searcher resolve candidate stack ps)
      unfolding process_requires
      process_requires-Respects candidate stack [] = Respects-give _
      process_requires-Respects candidate stack (p ∷ ps) =
          let rest = process_requires-Respects candidate stack ps in
          Respects-bind _ _ Respects-get (λ s.
            elim (Option-cases (lookup (name_of p) s.system_map)) [
              | inr (val, e) ↦ rw e (
                  Respects-bind _ _ (Respects-lift _) (λ v.
                    Respects-bind _ _ (Respects-lift _)
                      (λ admitted. Respects-if admitted _ _ rest (Respects-give _))))
              | inl e ↦ rw e (
                  Respects-if (is_provided g rt searcher s candidate p) _ _ rest (
                    Respects-if (has (name_of p) s.candidates_map) _ _ rest (
                      Respects-if (contains_elem stack (name_of p)) _ _ rest (
                        Respects-bind _ _
                          (Respects-if (has (name_of p) s.available_arts_map) _ _
                            (sort_at_hand-Respects p) (search_dependency-Respects p))
                          (λ key.
                            Respects-bind _ _
                              (record {
                                relates = λ t.
                                    resolved-relates t (resolve key stack t)
                                      ((kept key stack).relates t);
                              })
                              (λ ready. Respects-if ready _ _ rest (Respects-give _)))))))
            ])

      judge-Respects :
          (stack : List String) (art : PackageArtifact)
          → Respects R (judge g rt searcher resolve stack art)
      unfolding judge process_artefact_deps
      judge-Respects stack art = Respects-bind _ _ Respects-get (λ s.
          Respects-bind _ _ (Respects-if _ _ _ (Respects-give _) (Respects-lift _)) (λ in_conflict.
            Respects-if in_conflict _ _ (Respects-give _) (
              Respects-bind _ _ (Respects-lift _) (λ admitted. Respects-bind _ _ Respects-tick (λ n.
                Respects-if _ _ _ (Respects-give _) (
                  Respects-bind _ _ (process_requires-Respects _ _ _)
                    (λ admitted_deps. Respects-give _)))))))

      select-Respects :
          (stack : List String) (arts : List PackageArtifact) (banned_version : List String)
          → Respects R (select g rt searcher resolve stack arts banned_version)
      unfolding select
      select-Respects stack [] banned_version = Respects-give _
      select-Respects stack (art ∷ arts) banned_version =
          let skip = select-Respects stack arts banned_version in
          let ban = select-Respects stack arts (version_of art ∷ banned_version) in
          Respects-if _ _ _ skip (
            Respects-bind _ _ (judge-Respects stack art)
              (λ verdict. Respects-verdict verdict _ _ _ ban skip (Respects-give _)))

      accept-Respects :
          (k : String) (arts : List PackageArtifact)
          → is_empty arts ≡ false
          → (s : Solver) → R s (modify (accept g rt searcher k arts) s).0
      unfolding accept
      accept-Respects k arts e s = accepts s _ k arts e

      resolve_with-Respects :
          (k : String) (stack : List String)
          → Respects R (resolve_with g rt searcher resolve k stack)
      unfolding resolve_with
      resolve_with-Respects k stack = Respects-bind _ _ Respects-get (λ s.
          Respects-if _ _ _ (Respects-give _) (
            Respects-if _ _ _ (Respects-give _) (
              Respects-bind _ _ (Respects-lift _) (λ selected_arts.
                Respects-bind_returns _ _ (select-Respects stack selected_arts []) (λ s t found e.
                  accepted-relates found.0 t (accept g rt searcher k _) _ (λ y.
                    accept-Respects k _
                      (valid_arts-select g rt searcher resolve stack selected_arts [] s t found y e)
                      t))))))

    -- The relation holds across resolvePackage, whatever it returns.
    pub resolve_package-Respects :
        (fuel : ℕ) (pkgstr : String) (stack : List String)
        → Respects R (resolve_package g rt searcher fuel pkgstr stack)
    unfolding resolve_package
    resolve_package-Respects zero pkgstr stack = Respects-lift _
    resolve_package-Respects (suc fuel) pkgstr stack =
        resolve_with-Respects (resolve_package g rt searcher fuel) (resolve_package-Respects fuel)
          pkgstr stack
