-- ===== src/Sort/Progress.antt =====
-- The tests of both loops of sortPkgsThinArr on packages whose requires form no cycle.
use luet.Prelude.{
  ℕ, ◌<◌, ◌≡◌, refl, ap, String, Bool, and_right, true, false, some, List, [], ◌∷◌, arith, ◌&&◌,
  ◌==◌, ltb, all, any, Bool-cases, Option-cases, inl, inr,
}
use luet.GoMap.{lookup, has}
use luet.Package.Thin.{Thin, thin_name, get_requires, atom_matches, require_package}
use luet.Package.Atoms.{thin_name-eq}
use luet.Sort.{all_injected, all_injected_or_cycle}
use luet.Sort.Detector.{Queue, Names}
use luet.Sort.Detector.Queue.{IsKeyed, lookup-keyed}
use luet.Sort.Conserve.{thin_names}
use luet.Sort.Order.{ranked, IsStrict}

module _ (rank : String → ℕ) (allowed : Thin → Bool) (base : List Thin) where
  pub all_injected-IsStrict :
      IsStrict rank allowed base (λ pinject pr. all_injected pinject (get_requires pr))
  all_injected-IsStrict pinject p r t = t

  -- A package of lower rank does not require one of higher rank.
  no_cycle :
      (rr p : Thin) (rs : List Thin)
      → rank (thin_name rr) < rank (thin_name p)
      → all
          (λ r.
            ltb (rank (thin_name r)) (rank (thin_name rr))
            && any (λ n. n == thin_name r) (thin_names base))
          rs
        ≡ true
      → any (λ r. atom_matches r p) rs ≡ false
  no_cycle rr p [] low h = refl
  no_cycle rr p (r ∷ rs) low h = elim (Bool-cases (atom_matches r p)) [
    | inr n ↦ rw n (no_cycle rr p rs low (ground arith))
    | inl y ↦ absurd (ground (arith, ap rank (thin_name-eq r p y)))
  ]

  pub or_cycle-strict :
      (q : Queue) (pinject : Names) (p : Thin) (rs : List Thin)
      → IsKeyed q
      → ((n : String) (t : Thin) → lookup n q ≡ some t → ranked rank allowed base t ≡ true)
      → all
          (λ r.
            ltb (rank (thin_name r)) (rank (thin_name p))
            && any (λ n. n == thin_name r) (thin_names base))
          rs
        ≡ true
      → all_injected_or_cycle q pinject p rs ≡ true
      → all_injected pinject rs ≡ true
  unfolding all_injected_or_cycle all_injected
  or_cycle-strict q pinject p [] keyed all_ranked h t = refl
  or_cycle-strict q pinject p (r ∷ rs) keyed all_ranked h t =
      elim (Bool-cases (has (thin_name r) pinject)) [
        | inl y ↦ rw y (
            or_cycle-strict q pinject p rs keyed all_ranked (ground arith)
              (rw (y, all_injected_or_cycle) at t))
        | inr n ↦ elim (Option-cases (lookup (thin_name r) q)) [
          | inl e ↦ absurd (false_true (rw (n, e, all_injected_or_cycle) at t))
          | inr (rr, e) ↦
              let named = ap rank (lookup-keyed q (thin_name r) rr keyed e) in
              let none_back =
                no_cycle rr p (get_requires rr) (ground arith)
                  (and_right (allowed rr) _ (all_ranked (thin_name r) rr e)) in
              absurd (
                unfold require_package in
                (false_true (rw (n, e, none_back, all_injected_or_cycle) at t)))
        ]
      ]
    where
      false_true : false ≡ true → ⊥
      false_true e = cc
