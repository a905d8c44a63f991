-- ===== src/Operations/Correct.antt =====
-- OrderOperations as a whole.
use luet.Prelude.{
  ℕ, ◌≤◌, ◌≡◌, refl, sym, ◌∙◌, ap, subst, String, true, false, some, List, [], ◌∷◌, ◌++◌, arith,
  all, count,
}
use luet.GoMap.{has, occurs}
use luet.Result.{ok}
use luet.Runtime.{GoRuntime}
use luet.Gentoo.{Gentoo}
use luet.Package.Thin.{Thin}
use luet.Artifact.{ArtifactsPack, to_map}
use luet.Artifact.Grouping.{artifact_names}
use luet.Operations.{Operation, create_thin_pkgs_plist, order_operations}
use luet.Operations.Changes.{is_change, changes}
use luet.Operations.Removals.{removes_name, removed_first}
use luet.Operations.Plan.{operation_names, thin_names-plist, order_packs-IsPlan}
use luet.Operations.Merging.{well_chosen, change_operations-returns}
use luet.Operations.Behind.{IsBehind, whole_requires, plist-whole_requires, IsBehind-IsOrdered}
use luet.Sort.{sort_pkgs_thin_arr}
use luet.Sort.Conserve.{thin_names}
use luet.Sort.Distinct.{
  distinct, occurs-distinct, distinct_names, well_named, occurs-distinct_names,
}
use luet.Sort.Order.{ranked}
use luet.Sort.Topological.{all_ranked, sort_pkgs_thin_arr-IsOrdered}
use luet.Sort.Total.{sort_pkgs_thin_arr-same_names}

-- The thin packages that OrderOperations sorts.
abbrev pub merged_plist : (p2i p2u : ArtifactsPack) → List Thin
merged_plist p2i p2u = create_thin_pkgs_plist (p2i ++ p2u) (to_map (p2i ++ p2u))

changes_chosen :
    (p2i : ArtifactsPack) (ops : List Operation)
    → all (well_chosen p2i) ops ≡ true
    → all is_change ops ≡ true
changes_chosen p2i [] h = refl
changes_chosen p2i (o ∷ ops) h = ground (arith, changes_chosen p2i ops)

module _ (g : Gentoo) (rt : GoRuntime) (p2i p2u p2r : ArtifactsPack) where
  counted :
      distinct_names (merged_plist p2i p2u) ≡ true
      → (k : String) → occurs k (artifact_names (p2i ++ p2u)) ≤ 1
  counted d k =
      subst (λ l. occurs k l ≤ 1) (thin_names-plist (to_map (p2i ++ p2u)) (p2i ++ p2u))
        (occurs-distinct_names (merged_plist p2i p2u) d k)

  -- On packs whose names are distinct (those to install or to update, and those to remove), and
  -- whose requires agree in category and name with the packages that they name, if the packages to
  -- install or to update are sorted into `order` then OrderOperations returns operations, whatever
  -- the answers of Admit: the installs and updates are the packages of `order` in that order, each
  -- package of `p2i` is an install and each other one an update, each package to remove has one
  -- Remove, and that stands before an install or update of the same package.
  pub order_operations-returns :
      (order : List Thin)
      → distinct_names (merged_plist p2i p2u) ≡ true
      → well_named (merged_plist p2i p2u) ≡ true
      → distinct (artifact_names p2r) ≡ true
      → sort_pkgs_thin_arr rt (merged_plist p2i p2u) ≡ ok order
      → (ops : List Operation) × (order_operations g rt (some p2i) (some p2u) (some p2r) ≡ ok ops)
        × (operation_names (changes ops) ≡ thin_names order)
        × (all (well_chosen p2i) (changes ops) ≡ true)
        × ((k : String) → count (removes_name k) ops ≡ occurs k (artifact_names p2r))
        × (removed_first (λ k. has k (to_map p2r)) (λ _. false) ops ≡ true)
  unfolding order_operations
  order_operations-returns order d w r e =
      let names : (k : String)
          → occurs k (thin_names order) ≡ occurs k (artifact_names (p2i ++ p2u)) =
        λ k.
          sort_pkgs_thin_arr-same_names rt (merged_plist p2i p2u) order d w e k
          ∙ ap (occurs k) (thin_names-plist (to_map (p2i ++ p2u)) (p2i ++ p2u)) in
      let (tmp, changed, in_order, chosen) = change_operations-returns rt order p2i p2u e names in
      let (ops, returned, plan) =
        order_packs-IsPlan g rt p2i p2u p2r tmp changed (changes_chosen p2i tmp chosen)
          (λ k. ap (occurs k) in_order ∙ names k) (counted d)
          (λ k. occurs-distinct k (artifact_names p2r) r) in
      (
        ops,
        returned,
        ap operation_names plan.in_order ∙ in_order,
        subst (λ l. all (well_chosen p2i) l ≡ true) (sym plan.in_order) chosen,
        plan.one_remove,
        plan.removed,
      )

  all-ranked-whole :
      (rank : String → ℕ) (l base : List Thin)
      → all (ranked rank (λ _. true) base) l ≡ true
      → all (whole_requires (p2i ++ p2u)) l ≡ true
      → all (ranked rank (whole_requires (p2i ++ p2u)) base) l ≡ true
  all-ranked-whole rank [] base h w = refl
  all-ranked-whole rank (t ∷ l) base h w = ground (arith, all-ranked-whole rank l base)

  -- On packs whose names are distinct (those to install or to update, and those to remove), whose
  -- requires agree in category and name with the packages that they name, and where some rank of
  -- names falls from each package to install or to update to those of its requires that are among
  -- them (no dependency cycle), OrderOperations returns operations in which the install or update of
  -- each package stands behind those of its requires that are among them, each package to install or
  -- to update stands as often as in the packs, each package to remove has one Remove, and that stands
  -- before an install or update of the same package.
  pub order_operations-IsBehind :
      (rank : String → ℕ)
      → distinct_names (merged_plist p2i p2u) ≡ true
      → well_named (merged_plist p2i p2u) ≡ true
      → distinct (artifact_names p2r) ≡ true
      → all_ranked rank (λ _. true) (merged_plist p2i p2u) ≡ true
      → (ops : List Operation) × (order_operations g rt (some p2i) (some p2u) (some p2r) ≡ ok ops)
        × IsBehind (p2i ++ p2u) [] (changes ops)
        × ((k : String)
            → occurs k (operation_names (changes ops)) ≡ occurs k (artifact_names (p2i ++ p2u)))
        × ((k : String) → count (removes_name k) ops ≡ occurs k (artifact_names p2r))
        × (removed_first (λ k. has k (to_map p2r)) (λ _. false) ops ≡ true)
  order_operations-IsBehind rank d w r a =
      let whole = plist-whole_requires (p2i ++ p2u) [] (p2i ++ p2u) refl (counted d) in
      let (order, sorted, names, ordered, kept) =
        sort_pkgs_thin_arr-IsOrdered rt rank (whole_requires (p2i ++ p2u)) (merged_plist p2i p2u) d
          w (all-ranked-whole rank (merged_plist p2i p2u) (merged_plist p2i p2u) a whole) in
      let (ops, returned, in_order, chosen, one_remove, removed) =
        order_operations-returns order d w r sorted in
      (
        ops,
        returned,
        IsBehind-IsOrdered (p2i ++ p2u) [] order (changes ops) in_order kept ordered,
        λ k.
            ap (occurs k) in_order
            ∙ names k
            ∙ ap (occurs k) (thin_names-plist (to_map (p2i ++ p2u)) (p2i ++ p2u)),
        one_remove,
        removed,
      )
