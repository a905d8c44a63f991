-- ===== src/Sort/Distinct.antt =====
-- Two tests on the packages to sort, which its theorems assume: no name stands twice, and a require
-- that has the name of one of the packages has its category and name.
use luet.Prelude.{
  ◌≤◌, ◌≡◌, refl, String, Bool, true, false, List, [], ◌∷◌, ◌&&◌, not, arith, all, any, count, ◌==◌,
  ==_join,
}
use luet.GoMap.{occurs}
use luet.Package.Thin.{Thin}
use luet.Package.Atoms.{atom_matches_refl}
use luet.Sort.Conserve.{thin_names}
use luet.Sort.Detector.Queue.{known, well_required}

abbrev pub distinct : List String → Bool
distinct [] = true
distinct (n ∷ ns) = not (any (λ j. j == n) ns) && distinct ns

-- No two of the packages have one name.
abbrev pub distinct_names : List Thin → Bool
distinct_names l = distinct (thin_names l)

-- The requires of each package agree with the packages that they name.
abbrev pub well_named : List Thin → Bool
well_named l = all (well_required l) l

occurs_absent :
    (k n : String) (ns : List String)
    → any (λ j. j == n) ns ≡ false
    → (n == k) ≡ true
    → occurs k ns ≡ 0
occurs_absent k n [] h e = refl
occurs_absent k n (j ∷ ns) h e = ground (arith, occurs_absent k n ns, ==_join j n k)

pub occurs-distinct : (k : String) (ns : List String) → distinct ns ≡ true → occurs k ns ≤ 1
occurs-distinct k [] h = omega arith
occurs-distinct k (n ∷ ns) h = ground (arith, occurs-distinct k ns, occurs_absent k n ns)

pub occurs-distinct_names :
    (l : List Thin) → distinct_names l ≡ true → (k : String) → occurs k (thin_names l) ≤ 1
occurs-distinct_names l h k = occurs-distinct k (thin_names l) h

-- A package of the base is known there.
pub own_known :
    (l base : List Thin)
    → ((t : Thin) → known l t ≡ true → known base t ≡ true)
    → count (λ t. not (known base t)) l ≡ 0
own_known [] base sub = refl
own_known (t ∷ l) base sub =
    let here : known base t ≡ true = sub t (rw (atom_matches_refl t) refl) in
    ground (arith, here, own_known l base (λ u h. sub u (ground arith)))

pub count-all-true :
    (p : Thin → Bool) (l : List Thin) → all p l ≡ true → count (λ t. not (p t)) l ≡ 0
count-all-true p [] h = refl
count-all-true p (t ∷ l) h = ground (arith, count-all-true p l)
