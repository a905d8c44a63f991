-- ===== src/Solver/Selected.antt =====
-- The loop of resolvePackage (pkg/v2/solver/solver.go) over the artefacts at hand, and the artefacts
-- that it leaves as candidates.
use luet.Prelude.{
  ◌≡◌, refl, ap, subst, String, Bool, true, false, List, [], ◌∷◌, arith, not, any, is_empty, keep,
  contains_elem, Bool-cases, inl, inr,
}
use luet.Runtime.{GoRuntime}
use luet.Result.{Result, ok}
use luet.Gentoo.{Gentoo}
use luet.Artifact.{PackageArtifact}
use luet.Solver.{Solver, Searcher, Solving, give}
use luet.Solver.Calls.{bind-returns}
use luet.Solver.Resolve.{Verdict, banned, skipped, matched, select, valid_arts, version_of}

abbrev free : List String → PackageArtifact → Bool
free banned_version a = not (contains_elem banned_version (version_of a))

abbrev follow : {A : Type 0} → Verdict → (ban skip match : Solving A) → Solving A
follow v a b c = elim v [ banned ↦ a | skipped ↦ b | matched ↦ c ]

abbrev found_in : Result (Bool × List String) → List String
found_in (ok found) = found.1
found_in _ = []

module _ (g : Gentoo) (rt : GoRuntime) (searcher : Searcher)
    (resolve : String → List String → Solving (Unit {0})) where
  -- A loop that found a match leaves an artefact whose version is not banned.
  select-any :
      (stack : List String) (arts : List PackageArtifact) (banned_version : List String)
      (s t : Solver) (found : Bool × List String)
      → found.0 ≡ true
      → select g rt searcher resolve stack arts banned_version s ≡ (t, ok found)
      → any (free found.1) arts ≡ true
  unfolding select
  select-any stack [] banned_version s t found y e = cc (ap (λ x. x.1) e)
  select-any stack (art ∷ arts) banned_version s t found y e =
      elim (Bool-cases (contains_elem banned_version (version_of art))) [
        | inl c ↦
            let ih = select-any stack arts banned_version s t found y (rw c at e) in
            ground (arith, ih)
        | inr c ↦
            let (s1, verdict, judged, e1) = bind-returns _ _ s (rw c at e) in
            after verdict s1 c
              (select-any stack arts (version_of art ∷ banned_version) s1 t found y)
              (select-any stack arts banned_version s1 t found y) e1
      ]
    where
      after :
          (verdict : Verdict) (s1 : Solver)
          → contains_elem banned_version (version_of art) ≡ false
          → (select g rt searcher resolve stack arts (version_of art ∷ banned_version) s1
                ≡ (t, ok found)
              → any (free found.1) arts ≡ true)
          → (select g rt searcher resolve stack arts banned_version s1 ≡ (t, ok found)
              → any (free found.1) arts ≡ true)
          → follow verdict
              (select g rt searcher resolve stack arts (version_of art ∷ banned_version))
              (select g rt searcher resolve stack arts banned_version)
              (give (true, banned_version))
              s1
            ≡ (t, ok found)
          → any (free found.1) (art ∷ arts) ≡ true
      after banned s1 c ban skip e1 = let ih = ban e1 in ground (arith, ih)
      after skipped s1 c ban skip e1 = let ih = skip e1 in ground (arith, ih)
      after matched s1 c ban skip e1 =
          let same : banned_version ≡ found.1 = ap (λ x. found_in x.1) e1 in
          ground (arith, subst (λ b. contains_elem b (version_of art) ≡ false) same c)

keep-any :
    {A : Type 0} (p : A → Bool) (xs : List A) → any p xs ≡ true → is_empty (keep p xs) ≡ false
keep-any p [] h = cc
keep-any p (x ∷ xs) h = elim (Bool-cases (p x)) [
  | inl e ↦ rw e refl
  | inr e ↦ rw e (keep-any p xs (rw e at h))
]

module _ (g : Gentoo) (rt : GoRuntime) (searcher : Searcher)
    (resolve : String → List String → Solving (Unit {0})) where
  -- The candidates that a loop with a match leaves are not empty.
  pub valid_arts-select :
      (stack : List String) (arts : List PackageArtifact) (banned_version : List String)
      (s t : Solver) (found : Bool × List String)
      → found.0 ≡ true
      → select g rt searcher resolve stack arts banned_version s ≡ (t, ok found)
      → is_empty (valid_arts g rt searcher found.1 arts) ≡ false
  unfolding valid_arts
  valid_arts-select stack arts banned_version s t found y e =
      keep-any (free found.1) arts
        (select-any g rt searcher resolve stack arts banned_version s t found y e)
