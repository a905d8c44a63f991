-- ===== src/Sort/Order.antt =====
-- The order of the answer of sortPkgsThinArr. That there are no cycles is said by a rank that falls
-- from each package to its requires.
use mathlib.Core.List.{append-nil, append_assoc}
use luet.Prelude.{
  ℕ, ◌<◌, ◌≡◌, ◌∙◌, String, Bool, true, some, List, [], ◌∷◌, ◌++◌, arith, not, ◌&&◌, ◌==◌, ltb,
  count, count-append, count-perm, all, any, Bool-cases, inl, inr, All,
}
use luet.GoMap.{lookup, has, occurs, has-put, count-delete_all-le}
use luet.Runtime.{GoRuntime}
use luet.Package.Thin.{Thin, thin_name, get_requires}
use luet.Sort.{Sorting, inject, sweep, sweep_queue, all_injected}
use luet.Sort.Detector.{Queue, Names}
use luet.Sort.Conserve.{thin_names, placed, placed-inject}

-- Each package's requires stand before it, or in `seen`.
abbrev pub IsOrdered : List String → List Thin → Type 0
IsOrdered seen [] = Unit
IsOrdered seen (t ∷ ts) =
    All (λ r. 0 < occurs (thin_name r) seen) (get_requires t)
    × IsOrdered (seen ++ thin_name t ∷ []) ts

pub IsOrdered-concat :
    (seen : List String) (l : List Thin) (p : Thin)
    → IsOrdered seen l
    → All (λ r. 0 < occurs (thin_name r) (seen ++ thin_names l)) (get_requires p)
    → IsOrdered seen (l ++ p ∷ [])
IsOrdered-concat seen [] p h k = (rw append-nil at k, tt)
IsOrdered-concat seen (t ∷ l) p h k =
    (h.0, IsOrdered-concat (seen ++ thin_name t ∷ []) l p h.1 (rw append_assoc k))

module _ (rank : String → ℕ) (allowed : Thin → Bool) (base : List Thin) where
  -- The test `allowed` holds of `t`, and its requires stand in the list to sort and have lower ranks.
  abbrev pub ranked : Thin → Bool
  ranked t =
      allowed t
      && all
          (λ r.
            ltb (rank (thin_name r)) (rank (thin_name t))
            && any (λ n. n == thin_name r) (thin_names base))
          (get_requires t)

  abbrev unranked : String × Thin → Bool
  unranked e = not (ranked e.1)

  pub record Ordered (s : Sorting) : Type 0 where
    pub placed_if : (k : String) → has k s.pinject ≡ true → 0 < placed k s
    pub injected_if : (k : String) → 0 < placed k s → has k s.pinject ≡ true
    pub in_order : IsOrdered [] s.ans
    pub ranked_queue : count unranked s.queue ≡ 0
    pub allowed_ans : count (λ t. not (allowed t)) s.ans ≡ 0

  All-placed :
      (s : Sorting) (rs : List Thin)
      → ((k : String) → has k s.pinject ≡ true → 0 < placed k s)
      → all_injected s.pinject rs ≡ true
      → All (λ r. 0 < occurs (thin_name r) (thin_names s.ans)) rs
  unfolding all_injected
  All-placed s [] h k = tt
  All-placed s (r ∷ rs) h k = (h (thin_name r) (ground arith), All-placed s rs h (ground arith))

  pub inject-Ordered :
      (s : Sorting) (p : Thin)
      → ranked p ≡ true
      → Ordered s
      → all_injected s.pinject (get_requires p) ≡ true
      → Ordered (inject p s)
  unfolding inject
  inject-Ordered s p ok_p h ready = record {
    placed_if = λ k e.
        ground (arith, has-put (thin_name p) k true s.pinject, h.placed_if k, placed-inject k p s);
    injected_if = λ k e.
        ground
          (arith, has-put (thin_name p) k true s.pinject, h.injected_if k, placed-inject k p s);
    in_order =
        IsOrdered-concat [] s.ans p h.in_order (All-placed s (get_requires p) h.placed_if ready);
    ranked_queue = h.ranked_queue;
    allowed_ans = ground (arith, h.allowed_ans, count-append (λ t. not (allowed t)) s.ans (p ∷ []));
  }

  -- A test that lets a ranked package pass only when all its requires are injected.
  abbrev pub IsStrict : (Names → Thin → Bool) → Type 0
  IsStrict test =
      (pinject : Names) (p : Thin)
      → ranked p ≡ true
      → test pinject p ≡ true
      → all_injected pinject (get_requires p) ≡ true

  sweep-Ordered :
      (test : Names → Thin → Bool) (entries : List (String × Thin)) (s : Sorting)
      (removed : List String)
      → IsStrict test
      → count unranked entries ≡ 0
      → Ordered s
      → Ordered (sweep test entries s removed).0
  unfolding sweep
  sweep-Ordered test [] s removed strict r h = h
  sweep-Ordered test ((k, p) ∷ entries) s removed strict r h =
      elim (Bool-cases (test s.pinject p)) [
        | inl t ↦
            rw (t, sweep)
              (sweep-Ordered test entries (inject p s) (removed ++ k ∷ []) strict (ground arith)
                (inject-Ordered s p (ground arith) h (strict s.pinject p (ground arith) t)))
        | inr t ↦ rw (t, sweep) (sweep-Ordered test entries s removed strict (ground arith) h)
      ]

  pub sweep_queue-Ordered :
      (rt : GoRuntime) (test : Names → Thin → Bool) (s : Sorting)
      → IsStrict test
      → Ordered s
      → Ordered (sweep_queue rt test s)
  unfolding sweep_queue
  sweep_queue-Ordered rt test s strict h =
      let entries = rt.range s.ticks s.queue in
      let moved = count-perm unranked _ _ (rt.range_perm s.ticks s.queue) ∙ h.ranked_queue in
      let swept = sweep-Ordered test entries s [] strict moved h in
      let removed = (sweep test entries s []).1 in
      record {
        placed_if = swept.placed_if;
        injected_if = swept.injected_if;
        in_order = swept.in_order;
        ranked_queue = omega (
          arith,
          count-delete_all-le unranked removed (sweep test entries s []).0.queue,
          swept.ranked_queue,
        );
        allowed_ans = swept.allowed_ans;
      }

  pub lookup-ranked :
      (q : Queue) (n : String) (t : Thin)
      → count unranked q ≡ 0
      → lookup n q ≡ some t
      → ranked t ≡ true
  unfolding lookup
  lookup-ranked [] n t h e = cc
  lookup-ranked ((j, v) ∷ q) n t h e = elim (Bool-cases (j == n)) [
    | inl y ↦ ground arith
    | inr y ↦ lookup-ranked q n t (ground arith) (rw (y, lookup) at e)
  ]
