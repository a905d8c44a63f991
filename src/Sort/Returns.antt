-- ===== src/Sort/Returns.antt =====
-- The rounds of sortPkgsThinArr on packages whose requires form no cycle.
use luet.Prelude.{
  and_right, ℕ, zero, suc, ◌≤◌, ◌<◌, ◌≡◌, ◌∙◌, sym, refl, ap, String, Bool, true, false, some, List,
  [], ◌∷◌, arith, not, ◌⊎◌, nat_eq, count, count-perm, length, Bool-cases, List-cases, inl, inr,
  ==_refl,
}
use luet.GoMap.{
  put, lookup, has, occurs, delete, delete_all, has_of_occurs, length-delete-has,
  length-delete_all-le,
}
use luet.Runtime.{GoRuntime}
use luet.Result.{ok}
use luet.Package.Thin.{Thin, thin_name, get_requires, has_requires}
use luet.Sort.{
  Sorting, Looping, inject, sweep, sweep_queue, all_injected, all_injected_or_cycle, visit,
  visit_all, watch, round, drain,
}
use luet.Sort.Detector.{Queue, Names}
use luet.Sort.Conserve.{thin_names, queue-sweep, sweep_counts, range_keyed, range_queued}
use luet.Sort.Order.{Ordered, ranked, IsStrict, inject-Ordered, lookup-ranked, sweep_queue-Ordered}
use luet.Sort.Progress.{or_cycle-strict, all_injected-IsStrict}
use luet.Sort.Acyclic.{sweep_nothing, lookup-fails, injected-or_cycle, descent}
use luet.Sort.Rounds.{Inv, Distinct, sweep_queue-Inv}

module _ (rt : GoRuntime) (rank : String → ℕ) (allowed : Thin → Bool) (base done : List Thin)
    (whole : (k : String) → occurs k (thin_names done) ≡ occurs k (thin_names base)) where
  abbrev passes : Sorting → Names → Thin → Bool
  passes s pinject p = all_injected_or_cycle s.queue pinject p (get_requires p)

  abbrev entries : Sorting → List (String × Thin)
  entries s = rt.range s.ticks s.queue

  -- If a pass removed nothing, no queued package had its requires injected.
  all_wait :
      (s : Sorting)
      → (sweep (passes s) (entries s) s []).1 ≡ []
      → (n : String) (t : Thin) → lookup n s.queue ≡ some t
      → all_injected s.pinject (get_requires t) ≡ false
  all_wait s e n t found =
      let never = sweep_nothing (passes s) (entries s) s e in
      let test = λ (p : Thin). passes s s.pinject p in
      let moved =
        count-perm (λ (x : String × Thin). test x.1) _ _ (rt.range_perm s.ticks s.queue) in
      let fails = lookup-fails test s.queue n t (sym moved ∙ never) found in
      elim (Bool-cases (all_injected s.pinject (get_requires t))) [
        | inr h ↦ h
        | inl h ↦
            absurd (true_false (injected-or_cycle s.queue s.pinject t (get_requires t) h) fails)
      ]
    where
      true_false : {b : Bool} → b ≡ true → b ≡ false → ⊥
      true_false p q = cc

  sweep_shrinks :
      (s : Sorting) (k : String) (t : Thin) (rest : Queue)
      → Inv base done s
      → Ordered rank allowed base s
      → s.queue ≡ (k, t) ∷ rest
      → length (sweep_queue rt (passes s) s).queue < length s.queue
  unfolding sweep_queue lookup delete_all
  sweep_shrinks s k t rest h o e =
      let removed = (sweep (passes s) (entries s) s []).1 in
      elim (List-cases removed) [
        | inl none_removed ↦ absurd (
            descent rank allowed base done whole s h o (all_wait s none_removed)
              (suc (rank (thin_name t))) k t (simp (e, lookup) (rw (==_refl k) refl)) (omega arith))
        | inr (j, js, some_removed) ↦
            let counted =
              sweep_counts (passes s) j (entries s) s []
                (range_keyed rt (passes s) s h.sound.keyed) in
            let found : has j s.queue ≡ true = has_of_occurs j s.queue (
              ground (
                arith,
                counted,
                range_queued rt (passes s) s j,
                ap (occurs j) some_removed,
                ==_refl j,
              )) in
            rw (queue-sweep (passes s) (entries s) s [], some_removed, delete_all)
              (omega (
                arith,
                length-delete_all-le js (delete j s.queue),
                length-delete-has j s.queue found,
              ))
      ]

  -- What the second loop finds at the head of each round: the size has changed since the last one.
  pub record Falling (l : Looping) : Type 0 where
    pub inv : Inv base done l.sorting
    pub order : Ordered rank allowed base l.sorting
    pub changed : (l.last_queue_size ≡ 0) ⊎ (length l.queue < l.last_queue_size)

  unstalled :
      (l : Looping)
      → Falling l
      → 0 < length l.queue
      → nat_eq (length l.queue) l.last_queue_size ≡ false
  unstalled l f n = ground (arith, f.changed)

  passes-IsStrict :
      (s : Sorting)
      → Inv base done s
      → Ordered rank allowed base s
      → IsStrict rank allowed base (passes s)
  passes-IsStrict s h o pinject p r t =
      or_cycle-strict rank allowed base s.queue pinject p (get_requires p) h.sound.keyed
        (λ n u. lookup-ranked rank allowed base s.queue n u o.ranked_queue)
        (and_right (allowed p) _ r) t

  -- One round: the detector is not reached, and the queue gets shorter.
  abbrev next : Looping → Looping
  next l = record {
    sorting = sweep_queue rt (passes l.sorting) l.sorting;
    loop_cycles_detector_counter = 0;
    last_queue_size = length l.queue;
    detector_executed = l.detector_executed;
  }

  round-next :
      (depth : ℕ) (l : Looping)
      → nat_eq (length l.queue) l.last_queue_size ≡ false
      → round rt depth l ≡ ok (next l)
  unfolding round watch
  round-next depth l h = rw (h, watch)

  drain-step :
      (depth fuel : ℕ) (l l' : Looping) (x : String × Thin) (rest : Queue)
      → l.queue ≡ x ∷ rest
      → round rt depth l ≡ ok l'
      → drain rt depth (suc fuel) l ≡ drain rt depth fuel l'
  unfolding drain
  drain-step depth fuel l l' x rest e step = simp (e, drain) (rw step)

  module _ (distinct : Distinct done) where
    next-Falling :
        (l : Looping) (k : String) (t : Thin) (rest : Queue)
        → Falling l
        → l.queue ≡ (k, t) ∷ rest
        → Falling (next l)
    next-Falling l k t rest f e = record {
      inv = sweep_queue-Inv rt base done distinct (passes l.sorting) l.sorting f.inv;
      order =
          sweep_queue-Ordered rank allowed base rt (passes l.sorting) l.sorting
            (passes-IsStrict l.sorting f.inv f.order) f.order;
      changed = inr (sweep_shrinks l.sorting k t rest f.inv f.order e);
    }

    pub drain-returns :
        (depth fuel : ℕ) (l : Looping)
        → Falling l
        → length l.queue ≤ fuel
        → (t : Sorting) × (drain rt depth fuel l ≡ ok t) × Ordered rank allowed base t
    unfolding drain
    drain-returns depth zero l f n = elim (List-cases l.queue) [
      | inl e ↦ (l.sorting, simp (e, drain), f.order)
      | inr (x, rest, e) ↦ absurd (omega (arith, ap length e))
    ]
    drain-returns depth (suc fuel) l f n = elim (List-cases l.queue) [
      | inl e ↦ (l.sorting, simp (e, drain), f.order)
      | inr ((k, t), rest, e) ↦
          let g = next-Falling l k t rest f e in
          let step = round-next depth l (unstalled l f (omega (arith, ap length e))) in
          let (s, ends, order) =
            drain-returns depth fuel (next l) g
              (omega (arith, sweep_shrinks l.sorting k t rest f.inv f.order e)) in
          (s, drain-step depth fuel l (next l) (k, t) rest e step ∙ ends, order)
    ]

  -- The first loop.
  count-put-ranked :
      (n : String) (p : Thin) (q : Queue)
      → ranked rank allowed base p ≡ true
      → count (λ e. not (ranked rank allowed base e.1)) (put n p q)
        ≤ count (λ e. not (ranked rank allowed base e.1)) q
  unfolding put
  count-put-ranked n p [] r = ground arith
  count-put-ranked n p ((j, v) ∷ q) r = ground (arith, count-put-ranked n p q r)

  visit-Ordered :
      (p : Thin) (s : Sorting)
      → ranked rank allowed base p ≡ true
      → Ordered rank allowed base s
      → Ordered rank allowed base (visit rt p s)
  unfolding visit
  visit-Ordered p s r h =
      let sweep_after = λ (ready : all_injected s.pinject (get_requires p) ≡ true).
        sweep_queue-Ordered rank allowed base rt
          (λ pinject pr. all_injected pinject (get_requires pr)) (inject p s)
          (all_injected-IsStrict rank allowed base)
          (inject-Ordered rank allowed base s p r h ready) in
      elim (Bool-cases (has_requires p)) [
        | inr n ↦ rw (n, visit) (sweep_after (no_requires s.pinject p n))
        | inl y ↦ elim (Bool-cases (all_injected s.pinject (get_requires p))) [
          | inl a ↦ rw (y, a, visit) (sweep_after a)
          | inr a ↦
              rw (y, a, visit)
                (record {
                  placed_if = h.placed_if;
                  injected_if = h.injected_if;
                  in_order = h.in_order;
                  ranked_queue =
                      omega (arith, count-put-ranked (thin_name p) p s.queue r, h.ranked_queue);
                  allowed_ans = h.allowed_ans;
                })
        ]
      ]
    where
      no_requires :
          (pinject : Names) (q : Thin)
          → has_requires q ≡ false
          → all_injected pinject (get_requires q) ≡ true
      no_requires pinject q e =
          unfold has_requires all_injected in
          (elim (List-cases (get_requires q)) [
            | inl none_there ↦ rw none_there refl
            | inr (x, rest, some_there) ↦ absurd (ground (arith, ap length some_there))
          ])

  pub visit_all-Ordered :
      (ps : List Thin) (s : Sorting)
      → count (λ p. not (ranked rank allowed base p)) ps ≡ 0
      → Ordered rank allowed base s
      → Ordered rank allowed base (visit_all rt ps s)
  unfolding visit_all
  visit_all-Ordered [] s r h = h
  visit_all-Ordered (p ∷ ps) s r h =
      visit_all-Ordered ps (visit rt p s) (ground arith) (visit-Ordered p s (ground arith) h)
