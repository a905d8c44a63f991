-- ===== src/Solver/Depth.antt =====
-- The depth of the calls of resolvePackage (pkg/v2/solver/solver.go): each call has one more name on
-- its stack, from the names that the repositories have.
pub mod Descent
pub mod Install
use mathlib.Core.List.{Perm}
use luet.Prelude.{
  ℕ, zero, suc, ◌+◌, ◌≤◌, ◌<◌, ◌≡◌, ◌≢◌, refl, ◌∙◌, sym, ap, String, Bool, true, false, Option,
  none, some, List, [], ◌∷◌, ◌++◌, arith, ◌&&◌, ◌==◌, not, ◌||◌, all, any, contains_elem,
  if◌then◌else◌, Bool-cases, Option-cases, inl, inr, is_empty, count,
}
use luet.GoMap.{lookup, has, put}
use luet.Runtime.{GoRuntime}
use luet.Result.{
  Result, Error, ok, err, panic, out_of_fuel, Ends, Ends-bind, Ends-ne, Ends-Answered,
}
use luet.Gentoo.{Gentoo}
use luet.Package.Default.{DefaultPackage, name_of, get_conflicts}
use luet.Package.Admit.{admit}
use luet.Artifact.{PackageArtifact, ArtifactsMap, artifact_name, get_artifacts_by_key, add_all}
use luet.Operations.{first}
use luet.Solver.{
  Solver, Searcher, SearchOpts, Solving, continue, give, ◌>>=◌, get, modify, lift, next_tick,
}
use luet.Solver.Conflicts.{
  conflicts_with_system, refused_by, artefact_is_in_conflict, admitted_by, artefact_admit_by_queue,
  valid,
}
use luet.Solver.Queue.{admit-Answered}
use luet.Solver.Named.{
  is_named, is_known, IsNamed, IsNamed-lookup, IsNamed-add_all, IsNamed-put_sorted,
  sort_artifact_list_4_version_and_repos-Ends, get_sorted_artifacts_by_key-Ends,
}
use luet.Solver.Resolve.{
  Verdict, banned, skipped, matched, resolved, is_provided, sort_at_hand, search_dependency,
  process_requires, process_artefact_deps, judge, select, accept, valid_arts, resolve_with,
  resolve_package, version_of, found,
}

abbrev pub Any : {A : Type 0} → A → Type 0
Any a = Unit

pub first-Ends : {A : Type 0} (l : List A) → Ends Any (first l)
first-Ends [] = tt
first-Ends (x ∷ l) = tt

pub Ends-if :
    {A : Type 0} (b : Bool) (m n : Result A)
    → Ends Any m
    → Ends Any n
    → Ends Any (if b then m else n)
Ends-if true m n h k = h
Ends-if false m n h k = k

module _ (g : Gentoo) where
  pub admit-Ends : (p q : DefaultPackage) → Ends Any (admit g p q)
  admit-Ends p q = Ends-Answered (admit g p q) (admit-Answered g p q)

  conflicts_with_system-Ends :
      (s : Solver) (p : DefaultPackage) (cs : List DefaultPackage)
      → Ends Any (conflicts_with_system g s p cs)
  unfolding conflicts_with_system
  conflicts_with_system-Ends s p [] = tt
  conflicts_with_system-Ends s p (c ∷ cs) =
      let rest = conflicts_with_system-Ends s p cs in
      elim (Option-cases (lookup (name_of c) s.system_map)) [
        | inl e ↦ rw (conflicts_with_system, e) rest
        | inr (val, e) ↦
            rw (conflicts_with_system, e)
              (Ends-bind _ _ (first val) _ (first-Ends val) (λ v u.
                Ends-if (valid (admit g p v)) _ _ rest
                  (elim (Option-cases (luet.Package.Default.get_provide_package p (name_of v))) [
                    | inl n ↦ rw n tt
                    | inr (q, f) ↦ rw f rest
                  ])))
      ]

  pub artefact_is_in_conflict-Ends :
      (s : Solver) (art : PackageArtifact) → Ends Any (artefact_is_in_conflict g s art)
  unfolding artefact_is_in_conflict
  artefact_is_in_conflict-Ends s art =
      Ends-if (refused_by g s (luet.Artifact.get_package art)) (ok true) _ tt
        (conflicts_with_system-Ends s _ _)

  admitted_by-Ends : (p : DefaultPackage) (m : ArtifactsMap) → Ends Any (admitted_by g p m)
  unfolding admitted_by
  admitted_by-Ends p [] = tt
  admitted_by-Ends p ((k, arts) ∷ m) = Ends-bind _ _ (first arts) _ (first-Ends arts) (λ a u.
      Ends-bind _ _ (admit g (luet.Artifact.get_package a) p) _ (admit-Ends _ p)
        (λ admitted v. Ends-if admitted _ (ok false) (admitted_by-Ends p m) tt))

  pub artefact_admit_by_queue-Ends :
      (rt : GoRuntime) (s : Solver) (art : PackageArtifact)
      → Ends Any (artefact_admit_by_queue g rt s art)
  unfolding artefact_admit_by_queue
  artefact_admit_by_queue-Ends rt s art = admitted_by-Ends _ _

module _ (names : List String) where
  abbrev pub Inv : Solver → Type 0
  Inv s = IsNamed names s.available_arts_map

  -- The method keeps the packages at hand named, does not run out of fuel, and what it returns has the
  -- property.
  pub record Good {A : Type 0} (P : A → Type 0) (m : Solving A) : Type 0 where
    pub good : (s : Solver) → Inv s → Inv (m s).0 × Ends P (m s).1

  continue-Good :
      {A B : Type 0} (P : A → Type 0) (Q : B → Type 0) (f : A → Solving B) (x : Solver × Result A)
      → Inv x.0 × Ends P x.1
      → ((a : A) → P a → Good Q (f a))
      → Inv (continue f x).0 × Ends Q (continue f x).1
  continue-Good P Q f (s, ok a) h k = (k a h.1).good s h.0
  continue-Good P Q f (s, err e) h k = h
  continue-Good P Q f (s, panic) h k = h
  continue-Good P Q f (s, out_of_fuel) h k = h

  pub Good-bind :
      {A B : Type 0} (P : A → Type 0) (Q : B → Type 0) (m : Solving A) (f : A → Solving B)
      → Good P m
      → ((a : A) → P a → Good Q (f a))
      → Good Q (m >>= f)
  unfolding ◌>>=◌
  Good-bind P Q m f h k = record { good = λ s i. continue-Good P Q f (m s) (h.good s i) k }

  pub Good-if :
      {A : Type 0} (P : A → Type 0) (b : Bool) (m n : Solving A)
      → Good P m
      → Good P n
      → Good P (if b then m else n)
  Good-if P true m n h k = h
  Good-if P false m n h k = k

  pub Good-lift : {A : Type 0} (P : A → Type 0) (r : Result A) → Ends P r → Good P (lift r)
  Good-lift P r h = record { good = λ s i. (i, h) }

  pub Good-give : {A : Type 0} (a : A) → Good Any (give a)
  Good-give a = record { good = λ s i. (i, tt) }

  pub Good-get : Good Inv get
  Good-get = record { good = λ s i. (i, i) }

  pub Good-tick : Good Any next_tick
  Good-tick = record { good = λ s i. (i, tt) }

  pub Good-verdict :
      {A : Type 0} (P : A → Type 0) (v : Verdict) (a b c : Solving A)
      → Good P a
      → Good P b
      → Good P c
      → Good P (elim v [ banned ↦ a | skipped ↦ b | matched ↦ c ])
  Good-verdict P banned a b c h k l = h
  Good-verdict P skipped a b c h k l = k
  Good-verdict P matched a b c h k l = l

  pub resolved-Good :
      (x : Solver × Result (Unit {0}))
      → Inv x.0 × Ends Any x.1
      → Inv (resolved x).0 × Ends Any (resolved x).1
  resolved-Good (s, ok u) h = h
  resolved-Good (s, err e) h =
      (h.0, Ends-if (luet.Solver.Resolve.is_no_valid e) (ok false) (err e) tt tt)
  resolved-Good (s, panic) h = h
  resolved-Good (s, out_of_fuel) h = h
