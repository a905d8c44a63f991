-- ===== src/Sort/Total.antt =====
-- sortPkgsThinArr as a whole, with or without cycles.
use mathlib.Core.List.{map-append, append-nil, append_assoc}
use luet.Prelude.{
  ◌+◌, ◌≤◌, ◌≡◌, ◌≢◌, ◌∙◌, sym, refl, ap, String, true, false, List, [], ◌∷◌, ◌++◌, map, arith, not,
  ◌==◌, count, count-append, count-perm, count-map, if◌then◌else◌, Bool-cases, inl, inr, ==_refl,
}
use luet.GoMap.{lookup, has, put, occurs, lookup-put, occurs-put_new, occurs-pos_of_has}
use luet.Prelude.{Bool}
use luet.Sort.{first_phase}
use luet.Runtime.{GoRuntime}
use luet.Result.{ok, out_of_fuel, Ends, Ends-bind, Ends-ok, Ends-ne}
use luet.Package.Thin.{Thin, thin_name, has_requires, get_requires}
use luet.Sort.Less.{sort_package_thin_list_4_requires, sort_pkg_thin}
use luet.Sort.{Sorting, start, inject, all_injected, visit, visit_all, looping, sort_pkgs_thin_arr}
use luet.Sort.Detector.Queue.{IsKeyed-put, known, well_required}
use luet.Sort.Conserve.{thin_names, queued, placed-inject}
use luet.Sort.Rounds.{Inv, Distinct, sweep_queue-Inv, drain-Ends}
use luet.Sort.Distinct.{
  distinct_names, well_named, occurs-distinct_names, own_known, count-all-true,
}

occurs-concat :
    (k : String) (l : List Thin) (p : Thin)
    → occurs k (thin_names (l ++ p ∷ []))
      ≡ occurs k (thin_names l) + (if thin_name p == k then 1 else 0)
occurs-concat k l p =
    rw map-append
      (rw (count-append (λ n. n == k) (map thin_name l) (thin_name p ∷ [])) (omega arith))

occurs_prefix :
    (k : String) (l m : List Thin) → occurs k (thin_names l) ≤ occurs k (thin_names (l ++ m))
occurs_prefix k l m =
    rw map-append
      (rw (count-append (λ n. n == k) (map thin_name l) (map thin_name m)) (omega arith))

module _ (rt : GoRuntime) (base : List Thin) where
  inject-Inv :
      (done : List Thin) (s : Sorting) (p : Thin)
      → Inv base done s
      → Inv base (done ++ p ∷ []) (inject p s)
  unfolding inject
  inject-Inv done s p h = record {
    sound = h.sound;
    conserved = λ k. omega (arith, placed-inject k p s, occurs-concat k done p, h.conserved k);
  }

  not_queued :
      (done : List Thin) (s : Sorting) (p : Thin)
      → Inv base done s
      → Distinct (done ++ p ∷ [])
      → has (thin_name p) s.queue ≡ false
  not_queued done s p h distinct = elim (Bool-cases (has (thin_name p) s.queue)) [
    | inr n ↦ n
    | inl y ↦ absurd (
        ground (
          arith,
          ==_refl (thin_name p),
          occurs-pos_of_has (thin_name p) s.queue y,
          h.conserved (thin_name p),
          distinct (thin_name p),
          occurs-concat (thin_name p) done p,
        ))
  ]

  enqueue-Inv :
      (done : List Thin) (s : Sorting) (p : Thin)
      → Inv base done s
      → Distinct (done ++ p ∷ [])
      → known base p ≡ true
      → well_required base p ≡ true
      → Inv base (done ++ p ∷ []) (record s { queue = put (thin_name p) p s.queue })
  enqueue-Inv done s p h distinct k w = record {
    sound = record {
      same_keys = refl;
      keyed = IsKeyed-put (thin_name p) p s.queue refl h.sound.keyed;
      is_known =
          λ n t e. ground (arith, lookup-put (thin_name p) n p s.queue, h.sound.is_known n t);
      required =
          λ n t e. ground (arith, lookup-put (thin_name p) n p s.queue, h.sound.required n t);
    };
    conserved = λ k'. omega (
      arith,
      occurs-put_new (thin_name p) k' p s.queue (not_queued done s p h distinct),
      occurs-concat k' done p,
      h.conserved k',
    );
  }

  visit-Inv :
      (done : List Thin) (p : Thin) (s : Sorting)
      → Inv base done s
      → Distinct (done ++ p ∷ [])
      → known base p ≡ true
      → well_required base p ≡ true
      → Inv base (done ++ p ∷ []) (visit rt p s)
  unfolding visit
  visit-Inv done p s h distinct k w =
      let injected =
        sweep_queue-Inv rt base (done ++ p ∷ []) distinct
          (λ pinject pr. all_injected pinject (get_requires pr)) (inject p s)
          (inject-Inv done s p h) in
      elim (Bool-cases (has_requires p)) [
        | inr n ↦ rw (n, visit) injected
        | inl y ↦ elim (Bool-cases (all_injected s.pinject (get_requires p))) [
          | inl a ↦ rw (y, a, visit) injected
          | inr a ↦ rw (y, a, visit) (enqueue-Inv done s p h distinct k w)
        ]
      ]

  visit_all-Inv :
      (ps done : List Thin) (s : Sorting)
      → Inv base done s
      → Distinct (done ++ ps)
      → count (λ t. not (known base t)) ps ≡ 0
      → count (λ t. not (well_required base t)) ps ≡ 0
      → Inv base (done ++ ps) (visit_all rt ps s)
  unfolding visit_all
  visit_all-Inv [] done s h distinct k w = rw append-nil h
  visit_all-Inv (p ∷ ps) done s h distinct k w =
      let regroup = append_assoc done (p ∷ []) ps in
      let fits : Distinct ((done ++ p ∷ []) ++ ps) = rw regroup distinct in
      rw (← regroup) (
        visit_all-Inv ps (done ++ p ∷ []) (visit rt p s)
          (visit-Inv done p s h (λ j. omega (arith, fits j, occurs_prefix j (done ++ p ∷ []) ps))
            (ground arith) (ground arith))
          fits (ground arith) (ground arith))

Inv-start : (base : List Thin) → Inv base [] start
unfolding lookup
Inv-start base = record {
  sound = record { same_keys = refl; keyed = refl; is_known = λ n t e. cc; required = λ n t e. cc };
  conserved = λ k. refl;
}

module _ (rt : GoRuntime) (refarr : List Thin) (d : distinct_names refarr ≡ true) where
  abbrev pub sorted : List Thin
  sorted = sort_package_thin_list_4_requires rt refarr

  pub sorted_whole : (k : String) → occurs k (thin_names sorted) ≡ occurs k (thin_names refarr)
  unfolding sort_package_thin_list_4_requires
  sorted_whole k =
      count-map thin_name (λ n. n == k) _
      ∙ count-perm _ _ _ (rt.sort_slice_perm sort_pkg_thin refarr)
      ∙ sym (count-map thin_name (λ n. n == k) refarr)

  pub sorted-Distinct : Distinct sorted
  sorted-Distinct k = omega (arith, sorted_whole k, occurs-distinct_names refarr d k)

  pub count-sorted : (p : Thin → Bool) → count p sorted ≡ count p refarr
  unfolding sort_package_thin_list_4_requires
  count-sorted p = count-perm p _ _ (rt.sort_slice_perm sort_pkg_thin refarr)

  pub first_phase-Inv : well_named refarr ≡ true → Inv refarr sorted (first_phase rt refarr)
  unfolding first_phase
  first_phase-Inv w =
      visit_all-Inv rt refarr sorted [] start (Inv-start refarr) sorted-Distinct
        (count-sorted (λ t. not (known refarr t)) ∙ own_known refarr refarr (λ t h. h))
        (count-sorted (λ t. not (well_required refarr t))
          ∙ count-all-true (well_required refarr) refarr w)

  pub sort_pkgs_thin_arr-Ends :
      well_named refarr ≡ true
      → Ends
          (λ ans. (k : String) → occurs k (thin_names ans) ≡ occurs k (thin_names refarr))
          (sort_pkgs_thin_arr rt refarr)
  unfolding sort_pkgs_thin_arr
  sort_pkgs_thin_arr-Ends w =
      Ends-bind (λ t. Inv refarr sorted t × (t.queue ≡ [])) _ _ _
        (drain-Ends rt refarr sorted sorted-Distinct _ (looping (first_phase rt refarr))
          (first_phase-Inv w) (ground arith))
        (λ t h k. omega (arith, h.0.conserved k, sorted_whole k, ap (queued k) h.1))

-- On a list of packages with distinct names, whose requires agree in category and name with the
-- packages of the list that they name, the sort never runs out of the rounds and the depth of calls
-- that the model allows for, with cycles among these packages or without.
pub sort_pkgs_thin_arr-ne-out_of_fuel :
    (rt : GoRuntime) (refarr : List Thin)
    → distinct_names refarr ≡ true
    → well_named refarr ≡ true
    → sort_pkgs_thin_arr rt refarr ≢ out_of_fuel
sort_pkgs_thin_arr-ne-out_of_fuel rt refarr d w =
    Ends-ne _ _ (sort_pkgs_thin_arr-Ends rt refarr d w)

-- On a list of packages with distinct names, whose requires agree in category and name with the
-- packages of the list that they name, if the sort returns an answer then every name stands in the
-- answer as often as in the input, cycles broken or not.
pub sort_pkgs_thin_arr-same_names :
    (rt : GoRuntime) (refarr ans : List Thin)
    → distinct_names refarr ≡ true
    → well_named refarr ≡ true
    → sort_pkgs_thin_arr rt refarr ≡ ok ans
    → (k : String) → occurs k (thin_names ans) ≡ occurs k (thin_names refarr)
sort_pkgs_thin_arr-same_names rt refarr ans d w e =
    Ends-ok (λ l. (k : String) → occurs k (thin_names l) ≡ occurs k (thin_names refarr)) _
      (sort_pkgs_thin_arr-Ends rt refarr d w) e
