-- ===== src/Sort.antt =====
-- sortPkgsThinArr of pkg/v2/solver/solver.go, which orders the packages of one run by their
-- requires. The cycle detector is in Sort/Detector.antt; the proofs are in the other children.
pub mod Detector
pub mod Less
pub mod Rounds
pub mod Conserve
pub mod Distinct
pub mod Total
pub mod Order
pub mod Progress
pub mod Acyclic
pub mod Returns
pub mod Topological
mod Tests
use luet.Prelude.{
  ℕ, zero, suc, ◌+◌, ◌*◌, String, Bool, true, false, Option, none, some, List, [], ◌∷◌, ◌++◌, all,
  nat_eq, ltb, if◌then◌else◌, length,
}
use luet.GoMap.{Map, lookup, has, put, delete_all}
use luet.Runtime.{GoRuntime}
use luet.Result.{Result, ok, err, out_of_fuel, sort_stuck, ◌>>=◌}
use luet.Package.Thin.{Thin, get_requires, thin_name, has_requires, require_package}
use luet.Sort.Less.{sort_package_thin_list_4_requires}
use luet.Sort.Detector.{Queue, Names, dep_cycle_detector, enough_depth}

-- The local variables of sortPkgsThinArr. `ticks` counts the `range` loops over the queue.
pub record Sorting : Type 0 where
  pub ans : List Thin
  pub pinject : Names
  pub queue : Queue
  pub ticks : ℕ

abbrev pub start : Sorting
start = record { ans = []; pinject = []; queue = []; ticks = 0 }

-- ans = append(ans, p); pinject[p.PackageName()] = true
unfoldable pub inject : Thin → Sorting → Sorting
inject p s = record s { ans = s.ans ++ p ∷ []; pinject = put (thin_name p) true s.pinject }

-- The loops over the requires that compute `allReqok`.
unfoldable pub all_injected : Names → List Thin → Bool
all_injected pinject = all (λ r. has (thin_name r) pinject)

-- The same loop of the second phase: a require that is queued and requires `p` back is a cycle, and
-- ends the loop with `allReqok = true`.
unfoldable pub all_injected_or_cycle : Queue → Names → Thin → List Thin → Bool
all_injected_or_cycle queue pinject p [] = true
all_injected_or_cycle queue pinject p (r ∷ rs) =
    let rest = all_injected_or_cycle queue pinject p rs in
    if has (thin_name r) pinject
    then rest
    else elim (lookup (thin_name r) queue) [ none ↦ false | some rr ↦ require_package rr p ]

-- The loop `for k, p := range queue` over the entries in the order of the range, for either test.
-- The removed keys are the list pkgs2remove.
unfoldable pub sweep :
    (Names → Thin → Bool) → List (String × Thin) → Sorting → List String → Sorting × List String
unfolding inject
sweep test [] s removed = (s, removed)
sweep test ((k, p) ∷ entries) s removed =
    let ready = test s.pinject p in
    sweep test entries (if ready then inject p s else s)
      (if ready then removed ++ k ∷ [] else removed)

module _ (rt : GoRuntime) where
  open rt use {range}

  -- One pass over the queue, with the deletions after it.
  unfoldable pub sweep_queue : (Names → Thin → Bool) → Sorting → Sorting
  unfolding sweep
  sweep_queue test s =
      let (t, removed) = sweep test (range s.ticks s.queue) s [] in
      record t { queue = delete_all removed t.queue; ticks = t.ticks + 1 }

  -- The body of the first loop, over *refarr.
  unfoldable pub visit : Thin → Sorting → Sorting
  unfolding all_injected
  visit p s =
      let injected =
        sweep_queue (λ pinject pr. all_injected pinject (get_requires pr)) (inject p s) in
      if has_requires p
      then (if all_injected s.pinject (get_requires p)
          then injected
          else record s { queue = put (thin_name p) p s.queue })
      else injected

  unfoldable pub visit_all : List Thin → Sorting → Sorting
  visit_all [] s = s
  visit_all (p ∷ ps) s = visit_all ps (visit p s)

-- The variables of the second loop.
pub record Looping : Type 0 where
  pub sorting : Sorting
  pub open sorting use *
  pub loop_cycles_detector_counter : ℕ
  pub last_queue_size : ℕ
  pub detector_executed : Bool

-- `depth` bounds the depth of the detector's calls.
module _ (rt : GoRuntime) (depth : ℕ) where
  -- The head of the second loop: counts the rounds that leave the queue as it is, and calls the
  -- detector once.
  unfoldable pub watch : Looping → Result Looping
  watch l =
      if nat_eq (length l.queue) l.last_queue_size
      then (if ltb 3 l.loop_cycles_detector_counter
          then (if l.detector_executed then err (sort_stuck (length l.queue)) else do
            queue ← dep_cycle_detector rt depth l.ticks l.queue l.pinject
            ok (record l {
              sorting = record l.sorting { queue = queue; ticks = l.ticks + 1 };
              detector_executed = true;
            }))
          else ok (record l { loop_cycles_detector_counter = l.loop_cycles_detector_counter + 1 }))
      else ok (record l { last_queue_size = length l.queue; loop_cycles_detector_counter = 0 })

  -- One round of `for len(queue) > 0`.
  unfoldable pub round : Looping → Result Looping
  unfolding all_injected_or_cycle
  round l = do
    w ← watch l
    ok (record w {
      sorting =
          sweep_queue rt (λ pinject p. all_injected_or_cycle w.queue pinject p (get_requires p))
            w.sorting;
    })

  unfoldable pub drain : ℕ → Looping → Result Sorting
  drain zero l = elim l.queue [ [] ↦ ok l.sorting | _ ∷ _ ↦ out_of_fuel ]
  drain (suc fuel) l = elim l.queue [ [] ↦ ok l.sorting | _ ∷ _ ↦ (do l' ← round l; drain fuel l') ]

-- The rounds that the second loop can take for a queue of n packages: see Sort/Rounds.antt.
abbrev pub enough_rounds : ℕ → ℕ
enough_rounds n = 6 * n + 6

-- The second loop starts from what the first one leaves.
abbrev pub looping : Sorting → Looping
looping s = record {
  sorting = s;
  loop_cycles_detector_counter = 0;
  last_queue_size = 0;
  detector_executed = false;
}

module _ (rt : GoRuntime) where
  unfoldable pub first_phase : List Thin → Sorting
  unfolding visit_all
  first_phase refarr = visit_all rt (sort_package_thin_list_4_requires rt refarr) start

  unfoldable pub sort_pkgs_thin_arr : List Thin → Result (List Thin)
  unfolding first_phase
  sort_pkgs_thin_arr refarr = do
    let s = first_phase refarr
    t ← drain rt (enough_depth (length refarr)) (enough_rounds (length s.queue)) (looping s)
    ok t.ans
