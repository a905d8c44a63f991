-- ===== src/Operations/Placing.antt =====
-- The loop of OrderOperations that places the Removes.
use mathlib.Core.List.{append_assoc, append-nil}
use luet.Prelude.{
  ℕ, zero, suc, ◌+◌, ◌≤◌, ◌≡◌, refl, ◌∙◌, ap, String, Bool, true, false, Option, none, some, List,
  [], ◌∷◌, ◌++◌, take, drop, take-append-drop, arith, all, ◌==◌, ==→eq, if◌then◌else◌, Bool-cases,
  Option-cases, inl, inr, length, length-append, count, count_all, keep-append, count-append,
  get_elem?_lt, ltb,
}
use luet.GoMap.{has, lookup, lookup-eq-some-has, has-lookup-none}
use luet.Result.{ok}
use luet.Gentoo.{Gentoo}
use luet.Package.Default.{DefaultPackage}
use luet.Package.Admit.{admit}
use luet.Artifact.{PackageArtifact, ArtifactsPack, ArtifactsMap, artifact_name, to_map, get_package}
use luet.Artifact.Grouping.{lookup-to_map-first}
use luet.Operations.{
  remove_package, Operation, new_operation, insert_remove, operation_name, conflicts_with,
  last_conflict, place_operations,
}
use luet.Operations.Changes.{is_change, changes, changes-insert_remove}
use luet.Operations.Removals.{
  removes_name, removed_first, removed_first-insert_remove, removed_first-concat,
}

-- The search for a conflict stays inside the list.
last_conflict-returns :
    (g : Gentoo) (rm_ops : ℕ) (ans : List Operation) (p : DefaultPackage) (m : ℕ) (i : Option ℕ)
    → m ≤ length ans
    → (c : Option ℕ) × (last_conflict g rm_ops ans p m i ≡ ok c)
unfolding last_conflict
last_conflict-returns g rm_ops ans p zero i h = (i, refl)
last_conflict-returns g rm_ops ans p (suc idx) i h = elim (Bool-cases (ltb rm_ops idx)) [
  | inr e ↦ (i, rw e refl)
  | inl e ↦
      let (o, found) = get_elem?_lt ans idx (omega arith) in
      let (c, rest) =
        last_conflict-returns g rm_ops ans p idx
          (if conflicts_with (admit g (get_package o.artifact) p) then some idx else i)
          (omega arith) in
      (c, rw (e, found) rest)
]

count-insert_remove :
    (test : Operation → Bool) (c : Option ℕ) (r op : Operation) (ans : List Operation)
    → count test (insert_remove c r op ans) ≡ count test ans + count test (r ∷ op ∷ [])
unfolding insert_remove
count-insert_remove test none r op ans = count-append test ans (r ∷ op ∷ [])
count-insert_remove test (some zero) r op ans = omega (arith, count-append test ans (op ∷ []))
count-insert_remove test (some (suc n)) r op ans = omega (
  arith,
  count-append test (take (suc n) ans ++ r ∷ drop (suc n) ans) (op ∷ []),
  count-append test (take (suc n) ans) (r ∷ drop (suc n) ans),
  count-append test (take (suc n) ans) (drop (suc n) ans),
  ap (count test) (take-append-drop (suc n) ans),
)

length-insert_remove :
    (c : Option ℕ) (r op : Operation) (ans : List Operation)
    → length (insert_remove c r op ans) ≡ length ans + 2
length-insert_remove c r op ans = omega (
  arith,
  count-insert_remove (λ _. true) c r op ans,
  count_all ans,
  count_all (insert_remove c r op ans),
)

-- What the loop makes of the operations `ans` and of the changes `tmp`.
pub record Placed (p2rmap : ArtifactsMap) (ans tmp out : List Operation) : Type 0 where
  pub in_order : changes out ≡ changes ans ++ tmp
  pub removed : removed_first (λ k. has k p2rmap) (λ _. false) out ≡ true
  pub counted :
      (k : String)
      → count (removes_name k) out
        ≡ count (removes_name k) ans
          + (if has k p2rmap then count (λ o. operation_name o == k) tmp else 0)

abbrev remove_of : PackageArtifact → Operation
remove_of = new_operation remove_package

module _ (p2rmap : ArtifactsMap) where
  Placed-kept :
      (ans tmp out : List Operation) (op : Operation)
      → is_change op ≡ true
      → has (operation_name op) p2rmap ≡ false
      → Placed p2rmap (ans ++ op ∷ []) tmp out
      → Placed p2rmap ans (op ∷ tmp) out
  Placed-kept ans tmp out op c n h = record {
    in_order = h.in_order ∙ rw (keep-append is_change ans (op ∷ []), c, append_assoc) refl;
    removed = h.removed;
    counted = λ k. elim (Bool-cases (operation_name op == k)) [
      | inl e ↦
          let absent = ap (λ j. has j p2rmap) (==→eq (operation_name op) k e) in
          ground (arith, h.counted k, count-append (removes_name k) ans (op ∷ []))
      | inr e ↦ ground (arith, h.counted k, count-append (removes_name k) ans (op ∷ []))
    ];
  }

  Placed-removed :
      (ans tmp out : List Operation) (i : Option ℕ) (r : PackageArtifact) (op : Operation)
      → is_change op ≡ true
      → has (operation_name op) p2rmap ≡ true
      → artifact_name r ≡ operation_name op
      → Placed p2rmap (insert_remove i (remove_of r) op ans) tmp out
      → Placed p2rmap ans (op ∷ tmp) out
  Placed-removed ans tmp out i r op c y e h = record {
    in_order = h.in_order ∙ rw (changes-insert_remove i r op ans c, append_assoc) refl;
    removed = h.removed;
    counted = λ k. elim (Bool-cases (operation_name op == k)) [
      | inl q ↦
          let present = ap (λ j. has j p2rmap) (==→eq (operation_name op) k q) in
          let same = ap (λ j. j == k) e in
          ground (arith, h.counted k, count-insert_remove (removes_name k) i (remove_of r) op ans)
      | inr q ↦
          let same = ap (λ j. j == k) e in
          ground (arith, h.counted k, count-insert_remove (removes_name k) i (remove_of r) op ans)
    ];
  }

module _ (g : Gentoo) (p2r : ArtifactsPack) where
  pub place_operations-returns :
      (rm_ops idx_ops : ℕ) (ans tmp : List Operation)
      → idx_ops ≡ length ans
      → all is_change tmp ≡ true
      → removed_first (λ k. has k (to_map p2r)) (λ _. false) ans ≡ true
      → (out : List Operation) × (place_operations g (to_map p2r) rm_ops idx_ops ans tmp ≡ ok out)
        × Placed (to_map p2r) ans tmp out
  unfolding place_operations
  place_operations-returns rm_ops idx_ops ans [] e a h = (
    ans,
    refl,
    record { in_order = rw append-nil refl; removed = h; counted = λ k. ground arith },
  )
  place_operations-returns rm_ops idx_ops ans (op ∷ tmp) e a h =
      elim (Option-cases (lookup (operation_name op) (to_map p2r))) [
        | inl n ↦
            let absent = has-lookup-none (operation_name op) (to_map p2r) n in
            let (out, returned, placed) =
              place_operations-returns rm_ops (idx_ops + 1) (ans ++ op ∷ []) tmp
                (omega (arith, length-append ans (op ∷ []))) (ground arith)
                (removed_first-concat (λ k. has k (to_map p2r)) (λ _. false) ans op h (λ y. cc)) in
            (
              out,
              rw (place_operations, n) returned,
              Placed-kept (to_map p2r) ans tmp out op (ground arith) absent placed,
            )
        | inr (pr, y) ↦
            let present = lookup-eq-some-has (operation_name op) (to_map p2r) pr y in
            let (r, rest, pr_is, named) = lookup-to_map-first (operation_name op) p2r pr y in
            let (i, searched) =
              last_conflict-returns g rm_ops ans (get_package op.artifact) idx_ops none
                (omega arith) in
            let (out, returned, placed) =
              place_operations-returns rm_ops (idx_ops + 1 + 1)
                (insert_remove i (remove_of r) op ans) tmp
                (omega (arith, length-insert_remove i (remove_of r) op ans)) (ground arith)
                (removed_first-insert_remove (λ k. has k (to_map p2r)) i r op ans named h) in
            (
              out,
              rw (place_operations, y, searched, pr_is) returned,
              Placed-removed (to_map p2r) ans tmp out i r op (ground arith) present named placed,
            )
      ]
