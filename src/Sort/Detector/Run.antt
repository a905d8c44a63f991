-- ===== src/Sort/Detector/Run.antt =====
-- depCycleDetector on a whole queue.
use luet.Prelude.{
  ℕ, ◌≤◌, ◌≡◌, ◌∙◌, refl, ap, String, true, some, List, [], ◌∷◌, ◌&&◌, arith, not, count,
  count-perm, length, count_le_length, Bool-cases, inl, inr, ◌==◌, any, ==_refl, ==→eq,
}
use luet.GoMap.{Map, lookup, has, keys, values, lookup_of_has}
use luet.Runtime.{GoRuntime}
use luet.Result.{Ends, Ends-bind}
use luet.Package.Thin.{Thin, thin_name, package_thin_is_in_list}
use luet.Sort.Less.{sort_package_thin_list_4_requires, sort_pkg_thin}
use luet.Sort.Detector.{
  Queue, Names, check_available, check_elems, dep_cycle_detector, deref, enough_depth,
}
use luet.Sort.Detector.Queue.{Sound, IsKeyed, misplaced, lookup-keyed}
use luet.Sort.Detector.Depth.{unvisited, recursive_check_deps-ends, After}

has-keys {ℓ} : {V : Type ℓ} (k : String) (m : Map V) → has k m ≡ any (λ j. j == k) (keys m)
unfolding has
has-keys k [] = refl
has-keys k ((j, v) ∷ m) = ground (arith, has-keys k m)

check_available-Ends :
    (pinject : Names) (q : Queue) (name : String) (rs : List Thin)
    → Ends (λ _. Unit {0}) (check_available pinject q name rs)
unfolding check_available
check_available-Ends pinject q name [] = tt
check_available-Ends pinject q name (r ∷ rs) =
    elim (Bool-cases (not (has (thin_name r) pinject) && not (has (thin_name r) q))) [
      | inl y ↦ rw y tt
      | inr n ↦ rw n (check_available-Ends pinject q name rs)
    ]

module _ (base : List Thin) (ks : List String) (pinject : Names) where
  deref-queued :
      (q : Queue) (p : Thin)
      → Sound base ks q
      → any (λ j. j == thin_name p) ks ≡ true
      → lookup (thin_name (deref q p)) q ≡ some (deref q p)
  unfolding deref
  deref-queued q p h there =
      let (t, e) =
        lookup_of_has (thin_name p) q
          (has-keys (thin_name p) q ∙ ap (any (λ j. j == thin_name p)) h.same_keys ∙ there) in
      rw (e, deref) (rw (lookup-keyed q (thin_name p) t h.keyed e) e)

  unstacked : unvisited base [] ≤ length base
  unstacked = count_le_length _ base

  check_elems-Ends :
      (elems : List Thin) (q : Queue)
      → Sound base ks q
      → count (λ p. not (any (λ j. j == thin_name p) ks)) elems ≡ 0
      → Ends (Sound base ks) (check_elems (enough_depth (length base)) pinject elems q)
  unfolding check_elems
  check_elems-Ends [] q h there = h
  check_elems-Ends (p ∷ elems) q h there =
      Ends-bind (After base ks pinject []) (Sound base ks) _ _
        (recursive_check_deps-ends base ks pinject (enough_depth (length base)) (deref q p)
          (record { stack = []; queue = q }) h (deref-queued q p h (ground arith))
          (unfold package_thin_is_in_list in omega (arith, unstacked)))
        (λ c after.
          Ends-bind (λ _. Unit {0}) (Sound base ks) _ _
            (check_available-Ends pinject c.queue (thin_name p) _)
            (λ _ _. check_elems-Ends elems c.queue after.0 (ground arith)))

queued_names :
    (q : Queue) (ks : List String)
    → IsKeyed q
    → count (λ e. not (any (λ j. j == e.0) ks)) q ≡ 0
    → count (λ p. not (any (λ j. j == thin_name p) ks)) (values q) ≡ 0
queued_names [] ks h k = refl
queued_names ((j, p) ∷ q) ks h k =
    let named : j ≡ thin_name p = ==→eq j (thin_name p) (ground arith) in
    ground (arith, queued_names q ks, ap (λ n. any (λ i. i == n) ks) named)

own_keys {ℓ} :
    {V : Type ℓ} (q : Map V) (ks : List String)
    → ((n : String) → any (λ j. j == n) (keys q) ≡ true → any (λ j. j == n) ks ≡ true)
    → count (λ e. not (any (λ j. j == e.0) ks)) q ≡ 0
own_keys [] ks sub = refl
own_keys ((j, v) ∷ q) ks sub =
    let here : any (λ i. i == j) ks ≡ true = sub j (rw (==_refl j) refl) in
    ground (arith, here, own_keys q ks (λ n h. sub n (ground arith)))

-- The detector ends on a sound queue, and the queue stays sound: no call nests deeper than the
-- model allows for, and the same names stay queued.
pub dep_cycle_detector-Ends :
    (rt : GoRuntime) (base : List Thin) (ks : List String) (tick : ℕ) (q : Queue) (pinject : Names)
    → Sound base ks q
    → Ends (Sound base ks) (dep_cycle_detector rt (enough_depth (length base)) tick q pinject)
unfolding dep_cycle_detector sort_package_thin_list_4_requires
dep_cycle_detector-Ends rt base ks tick q pinject h =
    let ranged = rt.range tick q in
    let moved = rt.range_perm tick q in
    let absent = λ (e : String × Thin). not (any (λ j. j == e.0) ks) in
    check_elems-Ends base ks pinject (rt.sort_slice sort_pkg_thin (values ranged)) q h (
      count-perm _ _ _ (rt.sort_slice_perm sort_pkg_thin (values ranged))
      ∙ queued_names ranged ks (count-perm misplaced _ _ moved ∙ h.keyed)
          (count-perm absent _ _ moved ∙ own_keys q ks (λ n e. rw h.same_keys at e)))
