-- ===== src/Solver/Refusal.antt =====
-- The conflicts map of prepareConflictsAndSystemMap (pkg/v2/solver/solver.go), and a search through
-- all installed packages.
use luet.Prelude.{
  ◌≡◌, refl, ◌∙◌, String, Bool, false, Option, none, some, List, [], ◌∷◌, arith, ◌&&◌, ◌||◌, not,
  any, any-append, ◌==◌, Bool-cases, Option-cases, inl, inr,
}
use luet.GoMap.{lookup, append_at, with_last, lookup-append_at}
use luet.Gentoo.{Gentoo}
use luet.Package.Default.{DefaultPackage, name_of, get_conflicts}
use luet.Package.Admit.{admit}
use luet.Solver.{Solver, PkgsMapList}
use luet.Solver.Conflicts.{
  add_named, register, register_all, prepare_conflicts_and_system_map, valid, refused_by,
}

-- Some package under the key passes the test.
abbrev any_under : (DefaultPackage → Bool) → Option (List DefaultPackage) → Bool
any_under test none = false
any_under test (some l) = any test l

abbrev names : String → List DefaultPackage → Bool
names k = any (λ c. name_of c == k)

module _ (test : DefaultPackage → Bool) (k : String) where
  any_under-with_last :
      (o : Option (List DefaultPackage)) (p : DefaultPackage)
      → any_under test (some (with_last p o)) ≡ (any_under test o || test p)
  any_under-with_last none p = ground arith
  any_under-with_last (some l) p = rw (any-append test l (p ∷ [])) (ground arith)

  any_under-append_at :
      (j : String) (p : DefaultPackage) (m : PkgsMapList)
      → any_under test (lookup k (append_at j p m))
        ≡ (any_under test (lookup k m) || (j == k && test p))
  any_under-append_at j p m = elim (Bool-cases (j == k)) [
    | inl e ↦ rw (lookup-append_at j k p m, e) (any_under-with_last (lookup k m) p)
    | inr e ↦ rw (lookup-append_at j k p m, e) (ground arith)
  ]

  any_under-add_named :
      (cs : List DefaultPackage) (p : DefaultPackage) (m : PkgsMapList)
      → any_under test (lookup k (add_named cs p m))
        ≡ (any_under test (lookup k m) || (names k cs && test p))
  unfolding add_named
  any_under-add_named [] p m = ground arith
  any_under-add_named (c ∷ cs) p m =
      any_under-add_named cs p (append_at (name_of c) p m)
      ∙ rw (any_under-append_at (name_of c) p m) (ground arith)

  any_under-register_all :
      (b : Bool) (world : List DefaultPackage) (s : Solver)
      → s.opts.ignore_conflicts ≡ false
      → any_under test (lookup k (register_all b world s).conflicts_map) ≡ (
          any_under test (lookup k s.conflicts_map)
          || any (λ c. names k (get_conflicts c) && test c) world)
  unfolding register_all register
  any_under-register_all b [] s e = ground arith
  any_under-register_all b (p ∷ ps) s e =
      any_under-register_all b ps (register b p s) e
      ∙ rw (register, e)
          (rw (any_under-add_named (get_conflicts p) p s.conflicts_map) (ground arith))

refused_by-any_under :
    (g : Gentoo) (s : Solver) (p : DefaultPackage)
    → refused_by g s p
      ≡ any_under (λ c. not (valid (admit g c p))) (lookup (name_of p) s.conflicts_map)
unfolding refused_by
refused_by-any_under g s p = elim (Option-cases (lookup (name_of p) s.conflicts_map)) [
  | inl e ↦ rw (refused_by, e) refl
  | inr (l, e) ↦ rw (refused_by, e) refl
]

-- With the maps made from the installed packages, and conflicts not ignored, the lookup of a
-- package's name says that it is refused exactly when one of the installed packages has a conflict
-- of that name and does not admit the package (or fails to tell).
pub refused_by-prepare :
    (g : Gentoo) (world : List DefaultPackage) (b : Bool) (s : Solver) (p : DefaultPackage)
    → s.opts.ignore_conflicts ≡ false
    → refused_by g (prepare_conflicts_and_system_map world b s) p
      ≡ any
          (λ c. any (λ q. name_of q == name_of p) (get_conflicts c) && not (valid (admit g c p)))
          world
unfolding prepare_conflicts_and_system_map lookup
refused_by-prepare g world b s p e =
    refused_by-any_under g (prepare_conflicts_and_system_map world b s) p
    ∙ any_under-register_all (λ c. not (valid (admit g c p))) (name_of p) b world _ e
