-- ===== src/Sort/Detector.antt =====
-- recursiveCheckDeps and depCycleDetector of pkg/v2/solver/solver.go. The queue maps the name of a
-- package to a pointer to it, and the detector writes through these pointers: the model passes the
-- queue on, and reads a package again (`deref`) where the code follows its pointer.
pub mod Queue
pub mod Depth
pub mod Run
use luet.Prelude.{
  ℕ, zero, suc, ◌+◌, ◌*◌, String, Bool, none, some, List, [], ◌∷◌, ◌++◌, ◌&&◌, not, if◌then◌else◌,
  length,
}
use luet.GoMap.{Map, lookup, has, put, values}
use luet.Runtime.{GoRuntime}
use luet.Result.{
  Result, ok, err, out_of_fuel, ◌>>=◌, ◌>>◌, require_not_queued, require_not_resolvable,
}
use luet.Package.Thin.{
  Thin, get_requires, thin_name, break_cycles_on_requires, package_thin_is_in_list,
}
use luet.Sort.Less.{sort_package_thin_list_4_requires}

abbrev pub Queue : Type 0
Queue = Map Thin

-- map[string]bool, used as a set
abbrev pub Names : Type 0
Names = Map Bool

-- What the pointer `p` shows now.
unfoldable pub deref : Queue → Thin → Thin
deref queue p = elim (lookup (thin_name p) queue) [ none ↦ p | some t ↦ t ]

-- The stack and the queue, which all calls share by reference.
pub record Checking : Type 0 where
  pub stack : List Thin
  pub queue : Queue

-- The start of a call: breaks the cycle if the package is on the stack, and pushes it. The second
-- part is the package as the loop over its requires sees it.
unfoldable pub enter : Thin → Checking → Checking × Thin
enter p c =
    let p' = if package_thin_is_in_list p c.stack then break_cycles_on_requires c.stack p else p in
    let queue' =
      if package_thin_is_in_list p c.stack then put (thin_name p) p' c.queue else c.queue in
    (record { stack = c.stack ++ p' ∷ []; queue = queue' }, p')

-- The loop over the requires, for a given recursive call.
unfoldable pub check_requires :
    (Thin → Checking → Result Checking) → Names → String → List Thin → Checking → Result Checking
check_requires rec pinject name [] c = ok c
check_requires rec pinject name (r ∷ rs) c = elim (lookup (thin_name r) c.queue) [
  | none ↦
      if has (thin_name r) pinject
      then check_requires rec pinject name rs c
      else err (require_not_queued name (thin_name r))
  | some rq ↦ (do c' ← rec rq c; check_requires rec pinject name rs c')
]

unfoldable pub recursive_check_deps : Names → ℕ → Thin → Checking → Result Checking
unfolding check_requires enter
recursive_check_deps pinject zero p c = out_of_fuel
recursive_check_deps pinject (suc fuel) p c =
    let (c', p') = enter p c in
    check_requires (recursive_check_deps pinject fuel) pinject (thin_name p') (get_requires p') c'

-- "Check that all dependencies are availables."
unfoldable pub check_available : Names → Queue → String → List Thin → Result (Unit {0})
check_available pinject queue name [] = ok tt
check_available pinject queue name (r ∷ rs) =
    if not (has (thin_name r) pinject) && not (has (thin_name r) queue)
    then err (require_not_resolvable name (thin_name r))
    else check_available pinject queue name rs

-- The depth of calls that the model allows for, for n packages to sort.
abbrev pub enough_depth : ℕ → ℕ
enough_depth n = 2 * n + 1

unfoldable pub check_elems : ℕ → Names → List Thin → Queue → Result Queue
unfolding recursive_check_deps check_available deref
check_elems depth pinject [] queue = ok queue
check_elems depth pinject (p ∷ elems) queue = do
  c ← recursive_check_deps pinject depth (deref queue p) (record { stack = []; queue = queue })
  check_available pinject c.queue (thin_name p) (get_requires (deref c.queue p))
  check_elems depth pinject elems c.queue

unfoldable pub dep_cycle_detector : GoRuntime → ℕ → ℕ → Queue → Names → Result Queue
unfolding check_elems sort_package_thin_list_4_requires
dep_cycle_detector rt depth tick queue pinject =
    check_elems depth pinject (sort_package_thin_list_4_requires rt (values (rt.range tick queue)))
      queue
