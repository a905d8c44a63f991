-- ===== src/Sort/Topological.antt =====
-- sortPkgsThinArr on packages whose requires form no cycle.
use luet.Prelude.{ℕ, ◌≡◌, ◌∙◌, refl, String, Bool, true, List, [], arith, not, all, count, ◌∷◌, inl}
use luet.GoMap.{has, occurs}
use luet.Prelude.{length}
use luet.Sort.{enough_depth, enough_rounds}
use luet.Runtime.{GoRuntime}
use luet.Result.{ok, Ends-ok}
use luet.Package.Thin.{Thin}
use luet.Sort.{start, looping, first_phase, sort_pkgs_thin_arr}
use luet.Sort.Conserve.{thin_names}
use luet.Sort.Distinct.{distinct_names, well_named, count-all-true}
use luet.Sort.Order.{Ordered, IsOrdered, ranked}
use luet.Sort.Returns.{drain-returns, visit_all-Ordered}
use luet.Sort.Total.{
  sorted, sorted_whole, sorted-Distinct, count-sorted, first_phase-Inv, sort_pkgs_thin_arr-Ends,
}

all-true : (p : Thin → Bool) (l : List Thin) → count (λ t. not (p t)) l ≡ 0 → all p l ≡ true
all-true p [] h = refl
all-true p (t ∷ l) h = ground (arith, all-true p l)

-- The test `allowed` holds of each package, and each require names a package of the list, of a lower
-- rank.
abbrev pub all_ranked : (String → ℕ) → (Thin → Bool) → List Thin → Bool
all_ranked rank allowed l = all (ranked rank allowed l) l

Ordered-start :
    (rank : String → ℕ) (allowed : Thin → Bool) (base : List Thin) → Ordered rank allowed base start
unfolding has
Ordered-start rank allowed base = record {
  placed_if = λ k h. cc;
  injected_if = λ k h. absurd (omega arith);
  in_order = tt;
  ranked_queue = refl;
  allowed_ans = refl;
}

-- On a list of packages with distinct names, whose requires agree in category and name with the
-- packages of the list that they name, and where each require names a package of the list and some
-- rank of names falls from every package to its requires (no dependency cycle), the sort returns an
-- answer, for every order in which Go may visit the maps: each name of the list stands in it as
-- often as in the list, each package stands behind all its requires, and a test `allowed` that holds
-- of all packages of the list holds of all of the answer.
pub sort_pkgs_thin_arr-IsOrdered :
    (rt : GoRuntime) (rank : String → ℕ) (allowed : Thin → Bool) (refarr : List Thin)
    → distinct_names refarr ≡ true
    → well_named refarr ≡ true
    → all_ranked rank allowed refarr ≡ true
    → (ans : List Thin) × (sort_pkgs_thin_arr rt refarr ≡ ok ans)
      × ((k : String) → occurs k (thin_names ans) ≡ occurs k (thin_names refarr))
      × IsOrdered [] ans
      × (all allowed ans ≡ true)
unfolding sort_pkgs_thin_arr first_phase
sort_pkgs_thin_arr-IsOrdered rt rank allowed refarr d w r =
    let done = sorted rt refarr d in
    let whole = sorted_whole rt refarr d in
    let order =
      visit_all-Ordered rt rank allowed refarr done whole done start
        (count-sorted rt refarr d (λ p. not (ranked rank allowed refarr p))
          ∙ count-all-true (ranked rank allowed refarr) refarr r)
        (Ordered-start rank allowed refarr) in
    let begin = looping (first_phase rt refarr) in
    let (t, e, o) =
      drain-returns rt rank allowed refarr done whole (sorted-Distinct rt refarr d)
        (enough_depth (length refarr)) (enough_rounds (length (first_phase rt refarr).queue)) begin
        (record { inv = first_phase-Inv rt refarr d w; order = order; changed = inl refl })
        (omega arith) in
    let returned : sort_pkgs_thin_arr rt refarr ≡ ok t.ans = rw e in
    (
      t.ans,
      returned,
      Ends-ok (λ ans. (k : String) → occurs k (thin_names ans) ≡ occurs k (thin_names refarr)) _
          (sort_pkgs_thin_arr-Ends rt refarr d w) returned,
      o.in_order,
      all-true allowed t.ans o.allowed_ans,
    )
