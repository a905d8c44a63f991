-- ===== src/Sort/Conserve.antt =====
-- Counts of the names in the queue and in the answer of sortPkgsThinArr.
use mathlib.Core.List.{map-append}
use luet.Prelude.{
  ℕ, ◌+◌, ◌≤◌, ◌≡◌, ◌∙◌, sym, refl, ap, String, Bool, List, [], ◌∷◌, ◌++◌, map, arith, ◌==◌, count,
  count-append, count-perm, ==→eq, Bool-cases, some, length, inl, inr, if◌then◌else◌,
}
use luet.GoMap.{
  keys, lookup, occurs, lookup_of_delete_all, length-delete_all-le, occurs-keys, occurs-delete_all,
  count-delete_all-le,
}
use luet.Runtime.{GoRuntime}
use luet.Package.Thin.{Thin, thin_name}
use luet.Sort.Detector.{Queue, Names}
use luet.Sort.Detector.Queue.{misplaced, IsKeyed}
use luet.Sort.{Sorting, inject, sweep, sweep_queue}

abbrev pub thin_names : List Thin → List String
thin_names = map thin_name

-- How often a name stands in the answer, and in the queue.
abbrev pub placed : String → Sorting → ℕ
placed k s = occurs k (thin_names s.ans)

abbrev pub queued : String → Queue → ℕ
queued k q = occurs k (keys q)

pub placed-inject :
    (k : String) (p : Thin) (s : Sorting)
    → placed k (inject p s) ≡ placed k s + (if thin_name p == k then 1 else 0)
unfolding inject
placed-inject k p s =
    rw map-append
      (rw (count-append (λ n. n == k) (map thin_name s.ans) (thin_name p ∷ [])) (omega arith))

module _ (test : Names → Thin → Bool) where
  pub sweep_counts :
      (k : String) (entries : List (String × Thin)) (s : Sorting) (removed : List String)
      → count misplaced entries ≡ 0
      → (placed k (sweep test entries s removed).0 + occurs k removed
          ≡ placed k s + occurs k (sweep test entries s removed).1)
        × (occurs k (sweep test entries s removed).1 ≤ occurs k removed + occurs k (keys entries))
  unfolding sweep
  sweep_counts k [] s removed h = (refl, omega arith)
  sweep_counts k ((j, p) ∷ entries) s removed h = elim (Bool-cases (test s.pinject p)) [
    | inl t ↦
        let named : j ≡ thin_name p = ==→eq j (thin_name p) (ground arith) in
        let ih = sweep_counts k entries (inject p s) (removed ++ j ∷ []) (ground arith) in
        let more = count-append (λ n. n == k) removed (j ∷ []) in
        let one = placed-inject k p s in
        rw (t, sweep) (ground (arith, ih, more, one, ap (λ n. n == k) named))
    | inr t ↦ rw (t, sweep) (ground (arith, sweep_counts k entries s removed))
  ]

  pub queue-sweep :
      (entries : List (String × Thin)) (s : Sorting) (removed : List String)
      → (sweep test entries s removed).0.queue ≡ s.queue
  unfolding sweep inject
  queue-sweep [] s removed = refl
  queue-sweep ((j, p) ∷ entries) s removed = elim (Bool-cases (test s.pinject p)) [
    | inl t ↦ rw (t, sweep) (queue-sweep entries (inject p s) (removed ++ j ∷ []))
    | inr t ↦ rw (t, sweep) (queue-sweep entries s removed)
  ]

module _ (rt : GoRuntime) (test : Names → Thin → Bool) (s : Sorting) where
  pub range_keyed : IsKeyed s.queue → count misplaced (rt.range s.ticks s.queue) ≡ 0
  range_keyed h = count-perm misplaced _ _ (rt.range_perm s.ticks s.queue) ∙ h

  pub range_queued : (k : String) → occurs k (keys (rt.range s.ticks s.queue)) ≡ queued k s.queue
  range_queued k =
      occurs-keys k (rt.range s.ticks s.queue)
      ∙ count-perm (λ e. e.0 == k) _ _ (rt.range_perm s.ticks s.queue)
      ∙ sym (occurs-keys k s.queue)

  -- A pass over the queue only moves packages, if the queue holds each once under its own name.
  pub sweep_queue-conserves :
      (k : String)
      → IsKeyed s.queue
      → queued k s.queue ≤ 1
      → placed k (sweep_queue rt test s) + queued k (sweep_queue rt test s).queue
        ≡ placed k s + queued k s.queue
  unfolding sweep_queue
  sweep_queue-conserves k keyed once =
      let entries = rt.range s.ticks s.queue in
      let removed = (sweep test entries s []).1 in
      rw (queue-sweep test entries s []) (
        ground (
          arith,
          sweep_counts test k entries s [] (range_keyed keyed),
          range_queued k,
          occurs-delete_all removed k s.queue,
        ))

  pub sweep_queue-IsKeyed : IsKeyed s.queue → IsKeyed (sweep_queue rt test s).queue
  unfolding sweep_queue
  sweep_queue-IsKeyed keyed =
      let entries = rt.range s.ticks s.queue in
      rw (queue-sweep test entries s [])
        (omega (arith, count-delete_all-le misplaced (sweep test entries s []).1 s.queue))

  pub lookup-sweep_queue :
      (n : String) (t : Thin)
      → lookup n (sweep_queue rt test s).queue ≡ some t
      → lookup n s.queue ≡ some t
  unfolding sweep_queue
  lookup-sweep_queue n t e =
      let entries = rt.range s.ticks s.queue in
      lookup_of_delete_all (sweep test entries s []).1 n s.queue t
        (rw (queue-sweep test entries s []) at e)

  pub length-sweep_queue : length (sweep_queue rt test s).queue ≤ length s.queue
  unfolding sweep_queue
  length-sweep_queue =
      let entries = rt.range s.ticks s.queue in
      rw (queue-sweep test entries s []) (length-delete_all-le (sweep test entries s []).1 s.queue)
