-- ===== src/Sort/Acyclic.antt =====
-- The second loop on a queue without dependency cycles.
use luet.Prelude.{
  and_right, ℕ, zero, suc, ◌≤◌, ◌<◌, ◌≡◌, refl, ap, String, Bool, true, false, some, List, [], ◌∷◌,
  ◌++◌, arith, ◌&&◌, ◌==◌, ltb, count, all, any, length, length-append, Bool-cases, inl, inr,
}
use luet.GoMap.{lookup, has, occurs, has_of_occurs, lookup_of_has}
use luet.Package.Thin.{Thin, thin_name, get_requires}
use luet.Sort.{Sorting, inject, sweep, all_injected, all_injected_or_cycle}
use luet.Sort.Detector.{Queue, Names}
use luet.Sort.Detector.Queue.{lookup-keyed}
use luet.Sort.Conserve.{thin_names}
use luet.Sort.Order.{Ordered, lookup-ranked}
use luet.Sort.Rounds.{Inv}

any-occurs : (k : String) (l : List String) → any (λ n. n == k) l ≡ true → 0 < occurs k l
any-occurs k [] h = cc
any-occurs k (n ∷ l) h = ground (arith, any-occurs k l)

module _ (test : Names → Thin → Bool) where
  length-sweep :
      (entries : List (String × Thin)) (s : Sorting) (removed : List String)
      → length removed ≤ length (sweep test entries s removed).1
  unfolding sweep
  length-sweep [] s removed = omega arith
  length-sweep ((k, p) ∷ entries) s removed = elim (Bool-cases (test s.pinject p)) [
    | inl t ↦
        rw (t, sweep)
          (omega (
            arith,
            length-sweep entries (inject p s) (removed ++ k ∷ []),
            length-append removed (k ∷ []),
          ))
    | inr t ↦ rw (t, sweep) (length-sweep entries s removed)
  ]

  -- A pass that removes nothing found no package that passes the test.
  pub sweep_nothing :
      (entries : List (String × Thin)) (s : Sorting)
      → (sweep test entries s []).1 ≡ []
      → count (λ e. test s.pinject e.1) entries ≡ 0
  unfolding sweep
  sweep_nothing [] s h = refl
  sweep_nothing ((k, p) ∷ entries) s h = elim (Bool-cases (test s.pinject p)) [
    | inl t ↦
        absurd (
          omega (arith, length-sweep entries (inject p s) (k ∷ []), ap length (rw (t, sweep) at h)))
    | inr t ↦ rw t (omega (arith, sweep_nothing entries s (rw (t, sweep) at h)))
  ]

pub lookup-fails :
    (test : Thin → Bool) (q : Queue) (n : String) (t : Thin)
    → count (λ e. test e.1) q ≡ 0
    → lookup n q ≡ some t
    → test t ≡ false
unfolding lookup
lookup-fails test [] n t h e = cc
lookup-fails test ((j, v) ∷ q) n t h e = elim (Bool-cases (j == n)) [
  | inl y ↦ ground arith
  | inr y ↦ lookup-fails test q n t (ground arith) (rw (y, lookup) at e)
]

pub injected-or_cycle :
    (q : Queue) (pinject : Names) (p : Thin) (rs : List Thin)
    → all_injected pinject rs ≡ true
    → all_injected_or_cycle q pinject p rs ≡ true
unfolding all_injected all_injected_or_cycle
injected-or_cycle q pinject p [] h = refl
injected-or_cycle q pinject p (r ∷ rs) h = ground (arith, injected-or_cycle q pinject p rs)

module _ (rank : String → ℕ) (allowed : Thin → Bool) (base : List Thin) where
  missing :
      (pinject : Names) (p : Thin) (rs : List Thin)
      → all_injected pinject rs ≡ false
      → all
          (λ r.
            ltb (rank (thin_name r)) (rank (thin_name p))
            && any (λ n. n == thin_name r) (thin_names base))
          rs
        ≡ true
      → (r : Thin) × (has (thin_name r) pinject ≡ false)
        × (rank (thin_name r) < rank (thin_name p))
        × (any (λ n. n == thin_name r) (thin_names base) ≡ true)
  unfolding all_injected
  missing pinject p [] h k = absurd (ground arith)
  missing pinject p (r ∷ rs) h k = elim (Bool-cases (has (thin_name r) pinject)) [
    | inr n ↦ (r, n, ground arith, ground arith)
    | inl y ↦ missing pinject p rs (rw y at h) (ground arith)
  ]

  module _ (done : List Thin)
      (whole : (k : String) → occurs k (thin_names done) ≡ occurs k (thin_names base)) where
    -- With everything handled, a queue of which nothing passes the test is empty: below each
    -- package there is one of lower rank.
    pub descent :
        (s : Sorting)
        → Inv base done s
        → Ordered rank allowed base s
        → ((n : String) (t : Thin)
            → lookup n s.queue ≡ some t
            → all_injected s.pinject (get_requires t) ≡ false)
        → (n : ℕ) (k : String) (t : Thin) → lookup k s.queue ≡ some t
        → rank (thin_name t) < n
        → ⊥
    descent s h o fails zero k t e low = absurd (omega arith)
    descent s h o fails (suc n) k t e low =
        let (r, out, less, there) = missing s.pinject t (get_requires t) (fails k t e) (
          and_right (allowed t) _ (lookup-ranked rank allowed base s.queue k t o.ranked_queue e)) in
        let somewhere = any-occurs (thin_name r) (thin_names base) there in
        elim (Bool-cases (has (thin_name r) s.queue)) [
          | inl y ↦
              let (t', e') = lookup_of_has (thin_name r) s.queue y in
              let named = lookup-keyed s.queue (thin_name r) t' h.sound.keyed e' in
              descent s h o fails n (thin_name r) t' e' (omega (arith, ap rank named))
          | inr z ↦ ground (
            arith,
            somewhere,
            whole (thin_name r),
            h.conserved (thin_name r),
            o.injected_if (thin_name r),
            has_of_occurs (thin_name r) s.queue,
          )
        ]
