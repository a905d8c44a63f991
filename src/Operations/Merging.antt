-- ===== src/Operations/Merging.antt =====
-- The installs and updates of OrderOperations, from the sorted packages.
use mathlib.Core.List.{map-append}
use luet.Prelude.{
  ◌+◌, ◌<◌, ◌≡◌, refl, sym, ◌∙◌, ap, String, Bool, true, false, List, [], ◌∷◌, ◌++◌, arith, not,
  ◌&&◌, all, ◌==◌, ==_refl, ==→eq, if◌then◌else◌, Bool-cases, Option-cases, inl, inr, count-append,
}
use luet.GoMap.{has, lookup, occurs, lookup_of_has, lookup-eq-some-has, has-lookup-none}
use luet.Result.{ok}
use luet.Runtime.{GoRuntime}
use luet.Package.Thin.{Thin, thin_name}
use luet.Artifact.{PackageArtifact, ArtifactsPack, artifact_name, to_map}
use luet.Artifact.Grouping.{artifact_names, has-to_map, lookup-to_map-first}
use luet.Operations.{
  Operation, Action, new_operation, add_package, update_package, remove_package, downgrade_package,
  operation_name, sorted_operation, sorted_operations, create_thin_pkgs_plist, change_operations,
}
use luet.Operations.Changes.{is_change}
use luet.Operations.Plan.{operation_names}
use luet.Sort.{sort_pkgs_thin_arr}
use luet.Sort.Conserve.{thin_names}

abbrev pub is_add : Action → Bool
is_add add_package = true
is_add update_package = false
is_add remove_package = false
is_add downgrade_package = false

-- The operation is an install if its package is one to install, and an update otherwise.
abbrev pub well_chosen : ArtifactsPack → Operation → Bool
well_chosen p2i o =
    is_change o
    && (if has (operation_name o) (to_map p2i) then is_add o.action else not (is_add o.action))

pub occurs-append :
    (k : String) (xs ys : ArtifactsPack)
    → occurs k (artifact_names (xs ++ ys))
      ≡ occurs k (artifact_names xs) + occurs k (artifact_names ys)
occurs-append k xs ys =
    rw map-append (count-append (λ n. n == k) (artifact_names xs) (artifact_names ys))

module _ (p2i p2u : ArtifactsPack) where
  sorted_operation-returns :
      (p : Thin)
      → 0 < occurs (thin_name p) (artifact_names (p2i ++ p2u))
      → (op : Operation) × (sorted_operation (to_map p2i) (to_map p2u) p ≡ ok op)
        × (operation_name op ≡ thin_name p)
        × (well_chosen p2i op ≡ true)
  unfolding sorted_operation
  sorted_operation-returns p h = elim (Option-cases (lookup (thin_name p) (to_map p2i))) [
    | inr (val, found) ↦
        let (a, rest, val_is, named) = lookup-to_map-first (thin_name p) p2i val found in
        let present =
          ap (λ k. has k (to_map p2i)) named
          ∙ lookup-eq-some-has (thin_name p) (to_map p2i) val found in
        (
          new_operation add_package a,
          rw (sorted_operation, found, val_is) refl,
          named,
          rw present refl,
        )
    | inl absent ↦
        let missing = has-lookup-none (thin_name p) (to_map p2i) absent in
        let here : has (thin_name p) (to_map p2u) ≡ true =
          has-to_map (thin_name p) p2u
          ∙ ground (
            arith,
            sym (has-to_map (thin_name p) p2i) ∙ missing,
            occurs-append (thin_name p) p2i p2u,
          ) in
        let (val, found) = lookup_of_has (thin_name p) (to_map p2u) here in
        let (a, rest, val_is, named) = lookup-to_map-first (thin_name p) p2u val found in
        let unknown = ap (λ k. has k (to_map p2i)) named ∙ missing in
        (
          new_operation update_package a,
          rw (sorted_operation, absent, found, val_is) refl,
          named,
          rw unknown refl,
        )
  ]

  pub sorted_operations-returns :
      (ps : List Thin)
      → ((k : String) → 0 < occurs k (thin_names ps) → 0 < occurs k (artifact_names (p2i ++ p2u)))
      → (ops : List Operation) × (sorted_operations (to_map p2i) (to_map p2u) ps ≡ ok ops)
        × (operation_names ops ≡ thin_names ps)
        × (all (well_chosen p2i) ops ≡ true)
  unfolding sorted_operations
  sorted_operations-returns [] f = ([], refl, refl, refl)
  sorted_operations-returns (p ∷ ps) f =
      let (op, one, named, chosen) =
        sorted_operation-returns p (f (thin_name p) (ground (arith, ==_refl (thin_name p)))) in
      let (ops, rest, names, all_chosen) =
        sorted_operations-returns ps (λ k h. f k (ground arith)) in
      (op ∷ ops, rw (one, rest) refl, cc (named, names), ground (arith, chosen, all_chosen))

-- Lists of at most one name are known by their counts.
no_names : (l : List String) → ((k : String) → occurs k l ≡ 0) → l ≡ []
no_names [] h = refl
no_names (n ∷ l) h = absurd (ground (arith, h n, ==_refl n))

one_name :
    (n : String) (l : List String) → ((k : String) → occurs k l ≡ occurs k (n ∷ [])) → l ≡ n ∷ []
one_name n [] h = absurd (ground (arith, h n, ==_refl n))
one_name n (m ∷ l) h = elim (Bool-cases (n == m)) [
  | inr e ↦ absurd (ground (arith, h m, ==_refl m))
  | inl e ↦
      let same = ==→eq n m e in
      let rest = no_names l (λ k. omega (arith, h k, ap (λ j. occurs k (j ∷ [])) same)) in
      cc (same, rest)
]

-- What the theorem below says of the packs.
abbrev GivesChanges : GoRuntime → (p2i p2u : ArtifactsPack) → List Thin → Type 0
GivesChanges rt p2i p2u order =
    (tmp : List Operation) × (change_operations rt p2i p2u ≡ ok tmp)
    × (operation_names tmp ≡ thin_names order)
    × (all (well_chosen p2i) tmp ≡ true)

module _ (rt : GoRuntime) (order : List Thin) where
  many-returns :
      (p2i p2u : ArtifactsPack) (a b : PackageArtifact) (arts : ArtifactsPack)
      → p2i ++ p2u ≡ a ∷ b ∷ arts
      → sort_pkgs_thin_arr rt (create_thin_pkgs_plist (p2i ++ p2u) (to_map (p2i ++ p2u))) ≡ ok order
      → ((k : String) → occurs k (thin_names order) ≡ occurs k (artifact_names (p2i ++ p2u)))
      → GivesChanges rt p2i p2u order
  unfolding change_operations
  many-returns p2i p2u a b arts many e h =
      let (tmp, returned, names, chosen) =
        sorted_operations-returns p2i p2u order (λ k n. omega (arith, h k)) in
      (tmp, rw (change_operations, many) (rw (rw many at e) returned), names, chosen)

  -- The sorted packages become the operations, in their order.
  pub change_operations-returns :
      (p2i p2u : ArtifactsPack)
      → sort_pkgs_thin_arr rt (create_thin_pkgs_plist (p2i ++ p2u) (to_map (p2i ++ p2u))) ≡ ok order
      → ((k : String) → occurs k (thin_names order) ≡ occurs k (artifact_names (p2i ++ p2u)))
      → GivesChanges rt p2i p2u order
  unfolding change_operations
  change_operations-returns [] [] e h = ([], refl, sym (no_names (thin_names order) h), refl)
  change_operations-returns [] (a ∷ []) e h = (
    new_operation update_package a ∷ [],
    refl,
    sym (one_name (artifact_name a) (thin_names order) h),
    rw (has-to_map (artifact_name a) []) refl,
  )
  change_operations-returns [] (a ∷ b ∷ p2u) e h = many-returns [] (a ∷ b ∷ p2u) a b p2u refl e h
  change_operations-returns (a ∷ []) [] e h = (
    new_operation add_package a ∷ [],
    refl,
    sym (one_name (artifact_name a) (thin_names order) h),
    rw (has-to_map (artifact_name a) (a ∷ []), ==_refl (artifact_name a)) (ground arith),
  )
  change_operations-returns (a ∷ []) (b ∷ p2u) e h =
      many-returns (a ∷ []) (b ∷ p2u) a b p2u refl e h
  change_operations-returns (a ∷ b ∷ p2i) p2u e h =
      many-returns (a ∷ b ∷ p2i) p2u a b (p2i ++ p2u) refl e h
