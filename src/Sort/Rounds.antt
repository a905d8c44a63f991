-- ===== src/Sort/Rounds.antt =====
-- The rounds of the second loop of sortPkgsThinArr, with or without cycles.
use luet.Prelude.{
  ℕ, zero, suc, ◌+◌, ◌-◌, ◌*◌, ◌≤◌, ◌<◌, ◌≡◌, ◌∙◌, sym, refl, ap, String, Bool, List, [], ◌∷◌,
  arith, nat_eq, ltb, length, Bool-cases, List-cases, inl, inr, if◌then◌else◌,
}
use luet.GoMap.{Map, keys, occurs}
use luet.Runtime.{GoRuntime}
use luet.Result.{Ends, Ends-bind}
use luet.Package.Thin.{Thin, get_requires}
use luet.Sort.{
  Sorting, Looping, sweep_queue, watch, round, drain, all_injected_or_cycle, enough_depth,
}
use luet.Sort.Detector.{Queue, Names}
use luet.Sort.Detector.Queue.{Sound}
use luet.Sort.Detector.Run.{dep_cycle_detector-Ends}
use luet.Sort.Conserve.{
  placed, queued, thin_names, sweep_queue-conserves, sweep_queue-IsKeyed, lookup-sweep_queue,
  length-sweep_queue,
}

-- The queue is sound, and each name of the packages handled so far stands in the answer or in the
-- queue, as often as among them.
pub record Inv (base done : List Thin) (s : Sorting) : Type 0 where
  pub sound : Sound base (keys s.queue) s.queue
  pub conserved : (k : String) → placed k s + queued k s.queue ≡ occurs k (thin_names done)

abbrev pub Distinct : List Thin → Type 0
Distinct done = (k : String) → occurs k (thin_names done) ≤ 1

module _ (rt : GoRuntime) (base done : List Thin) (distinct : Distinct done) where
  pub sweep_queue-Inv :
      (test : Names → Thin → Bool) (s : Sorting)
      → Inv base done s
      → Inv base done (sweep_queue rt test s)
  sweep_queue-Inv test s h = record {
    sound = record {
      same_keys = refl;
      keyed = sweep_queue-IsKeyed rt test s h.sound.keyed;
      is_known = λ n t e. h.sound.is_known n t (lookup-sweep_queue rt test s n t e);
      required = λ n t e. h.sound.required n t (lookup-sweep_queue rt test s n t e);
    };
    conserved = λ k.
        sweep_queue-conserves rt test s k h.sound.keyed (omega (arith, h.conserved k, distinct k))
        ∙ h.conserved k;
  }

-- What is left of the rounds with `n` packages in the queue: fewer packages, or one more stalled
-- round counted.
abbrev pub rounds_left : ℕ → Looping → ℕ
rounds_left n l =
    6 * n
    + (if nat_eq n l.last_queue_size
        then 4 - l.loop_cycles_detector_counter + (if l.detector_executed then 0 else 1)
        else 6)

abbrev pub fuel_left : Looping → ℕ
fuel_left l = rounds_left (length l.queue) l

length-keys {ℓ} : {V : Type ℓ} (m : Map V) → length (keys m) ≡ length m
length-keys [] = refl
length-keys ((k, v) ∷ m) = ap suc (length-keys m)

-- `watch` leaves the queue as long as it is, and uses one round.
record Watched (base done : List Thin) (l w : Looping) : Type 0 where
  inv : Inv base done w.sorting
  size : length w.queue ≡ length l.queue
  paid : (n : ℕ) → n ≤ length l.queue → rounds_left n w < fuel_left l

-- The detector hands back the same names.
Inv-requeue :
    (base done : List Thin) (s : Sorting) (q : Queue) (n : ℕ)
    → Inv base done s
    → Sound base (keys s.queue) q
    → Inv base done (record s { queue = q; ticks = n })
Inv-requeue base done s q n h k = record {
  sound = record {
    same_keys = refl;
    keyed = k.keyed;
    is_known = k.is_known;
    required = k.required;
  };
  conserved = λ j. rw k.same_keys (h.conserved j);
}

module _ (rt : GoRuntime) (base done : List Thin) (distinct : Distinct done) where
  abbrev depth : ℕ
  depth = enough_depth (length base)

  watch-Ends :
      (l : Looping) → Inv base done l.sorting → Ends (Watched base done l) (watch rt depth l)
  unfolding watch
  watch-Ends l h = elim (Bool-cases (nat_eq (length l.queue) l.last_queue_size)) [
    | inr moved ↦ rw (moved, watch) (record { inv = h; size = refl; paid = λ n le. ground arith })
    | inl stalled ↦ elim (Bool-cases (ltb 3 l.loop_cycles_detector_counter)) [
      | inr few ↦
          rw (stalled, few, watch) (record { inv = h; size = refl; paid = λ n le. ground arith })
      | inl many ↦ elim (Bool-cases l.detector_executed) [
        | inl again ↦ rw (stalled, many, again, watch) tt
        | inr first ↦
            rw (stalled, many, watch)
              (simp first (
                Ends-bind (Sound base (keys l.queue)) (Watched base done l) _ _
                  (dep_cycle_detector-Ends rt base (keys l.queue) l.ticks l.queue l.pinject h.sound)
                  (λ q k. record {
                    inv = Inv-requeue base done l.sorting q (l.ticks + 1) h k;
                    size = sym (length-keys q) ∙ ap length k.same_keys ∙ length-keys l.queue;
                    paid = λ n le. ground arith;
                  })))
      ]
    ]
  ]

  -- One round keeps the invariant, and leaves fewer rounds.
  round-Ends :
      (l : Looping)
      → Inv base done l.sorting
      → Ends (λ w. Inv base done w.sorting × (fuel_left w < fuel_left l)) (round rt depth l)
  unfolding round
  round-Ends l h = Ends-bind (Watched base done l) _ (watch rt depth l) _ (watch-Ends l h) (λ w k.
      let test =
        λ (pinject : Names) (p : Thin). all_injected_or_cycle w.queue pinject p (get_requires p) in
      (
        sweep_queue-Inv rt base done distinct test w.sorting k.inv,
        k.paid (length (sweep_queue rt test w.sorting).queue)
            (omega (arith, length-sweep_queue rt test w.sorting, k.size)),
      ))

  pub drain-Ends :
      (fuel : ℕ) (l : Looping)
      → Inv base done l.sorting
      → fuel_left l ≤ fuel
      → Ends (λ t. Inv base done t × (t.queue ≡ [])) (drain rt depth fuel l)
  unfolding drain
  drain-Ends zero l h n = elim (List-cases l.queue) [
    | inl e ↦ simp (e, drain) (h, refl)
    | inr (x, rest, e) ↦ absurd (omega (arith, ap length e))
  ]
  drain-Ends (suc fuel) l h n = elim (List-cases l.queue) [
    | inl e ↦ simp (e, drain) (h, refl)
    | inr (x, rest, e) ↦
        simp (e, drain)
          (Ends-bind (λ w. Inv base done w.sorting × (fuel_left w < fuel_left l)) _
            (round rt depth l) _ (round-Ends l h) (λ w k. drain-Ends fuel w k.0 (omega arith)))
  ]
