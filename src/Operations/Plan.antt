-- ===== src/Operations/Plan.antt =====
-- The operations of OrderOperations, from its sorted installs and updates, in every branch.
use luet.Prelude.{
  ◌+◌, ◌≤◌, ◌<◌, ◌≡◌, refl, ◌∙◌, ap, String, Bool, true, false, List, [], ◌∷◌, ◌++◌, arith, map,
  ◌||◌, all, ◌==◌, ==_refl, ==→eq, if◌then◌else◌, length, count, count-map,
}
use luet.GoMap.{has, occurs, lookup_of_has}
use luet.Result.{ok}
use luet.Runtime.{GoRuntime}
use luet.Gentoo.{Gentoo}
use luet.Package.Thin.{Thin, thin_name, set_requires}
use luet.Package.Default.{DefaultPackage, pkg, name_of, to_package_thin}
use luet.Artifact.{PackageArtifact, ArtifactsPack, ArtifactsMap, artifact_name, to_map, get_package}
use luet.Artifact.Grouping.{artifact_names, has-to_map, lookup-to_map-first}
use luet.Operations.{
  Operation, new_operation, remove_package, operation_name, thin_of, create_thin_pkgs_plist,
  only_removes, new_removes, change_operations, order_packs,
}
use luet.Operations.Changes.{is_change, changes, changes-new_removes}
use luet.Operations.Removals.{removes_name, removed_first, removed_first-new_removes}
use luet.Operations.Placing.{place_operations-returns}
use luet.Sort.Conserve.{thin_names}

abbrev pub operation_names : List Operation → List String
operation_names = map operation_name

-- The operations `ops` are the changes `tmp`, in their order, with one Remove for each package of
-- `p2r`, which stands in front of the package's install or update.
pub record IsPlan (p2r : ArtifactsPack) (tmp ops : List Operation) : Type 0 where
  pub in_order : changes ops ≡ tmp
  pub removed : removed_first (λ k. has k (to_map p2r)) (λ _. false) ops ≡ true
  pub one_remove : (k : String) → count (removes_name k) ops ≡ occurs k (artifact_names p2r)

thin_name-to_package_thin :
    (rs : List Thin) (p : DefaultPackage)
    → thin_name (set_requires rs (to_package_thin p)) ≡ name_of p
unfolding thin_name to_package_thin name_of
thin_name-to_package_thin rs (pkg f requires conflicts provides) = refl

pub thin_name-thin_of :
    (m : ArtifactsMap) (a : PackageArtifact) → thin_name (thin_of m a) ≡ artifact_name a
unfolding thin_of artifact_name get_package
thin_name-thin_of m a = thin_name-to_package_thin _ (get_package a)

pub thin_names-plist :
    (m : ArtifactsMap) (arts : ArtifactsPack)
    → thin_names (create_thin_pkgs_plist arts m) ≡ artifact_names arts
unfolding create_thin_pkgs_plist
thin_names-plist m [] = refl
thin_names-plist m (a ∷ arts) = cc (thin_name-thin_of m a, thin_names-plist m arts)

-- A list without removes.
changes-all : (tmp : List Operation) → all is_change tmp ≡ true → changes tmp ≡ tmp
changes-all [] h = refl
changes-all (o ∷ tmp) h =
    let here : is_change o ≡ true = ground arith in rw here (cc (changes-all tmp (ground arith)))

removed_first_none :
    (due seen : String → Bool) (tmp : List Operation)
    → ((k : String) → due k ≡ false)
    → removed_first due seen tmp ≡ true
removed_first_none due seen [] h = refl
removed_first_none due seen (o ∷ tmp) h =
    ground
      (arith, h (operation_name o), removed_first_none due (λ k. removes_name k o || seen k) tmp h)

count-removes_none :
    (k : String) (tmp : List Operation) → all is_change tmp ≡ true → count (removes_name k) tmp ≡ 0
count-removes_none k [] h = refl
count-removes_none k (o ∷ tmp) h = ground (arith, count-removes_none k tmp)

IsPlan-changes : (tmp : List Operation) → all is_change tmp ≡ true → IsPlan [] tmp tmp
IsPlan-changes tmp h = record {
  in_order = changes-all tmp h;
  removed = removed_first_none _ _ tmp (λ k. has-to_map k []);
  one_remove = λ k. count-removes_none k tmp h;
}

-- Nothing to install or to update.
only_removes-IsPlan :
    (p2r l : ArtifactsPack)
    → ((k : String) → 0 < occurs k (artifact_names l) → 0 < occurs k (artifact_names p2r))
    → (ops : List Operation) × (only_removes (to_map p2r) (create_thin_pkgs_plist l (to_map p2r))
        ≡ ok ops)
      × (changes ops ≡ [])
      × ((seen : String → Bool) → removed_first (λ k. has k (to_map p2r)) seen ops ≡ true)
      × ((k : String) → count (removes_name k) ops ≡ occurs k (artifact_names l))
unfolding only_removes create_thin_pkgs_plist
only_removes-IsPlan p2r [] f = ([], refl, refl, λ s. refl, λ k. refl)
only_removes-IsPlan p2r (a ∷ l) f =
    let here =
      has-to_map (artifact_name a) p2r
      ∙ ground (arith, f (artifact_name a), ==_refl (artifact_name a)) in
    let (val, found) = lookup_of_has (artifact_name a) (to_map p2r) here in
    let (art, rest, val_is, named) = lookup-to_map-first (artifact_name a) p2r val found in
    let (ops, returned, unchanged, behind, counts) =
      only_removes-IsPlan p2r l (λ k h. f k (ground arith)) in
    (
      new_operation remove_package art ∷ ops,
      rw (thin_name-thin_of (to_map p2r) a, found, val_is) (rw returned refl),
      unchanged,
      λ s. behind _,
      λ k. rw named (omega (arith, counts k)),
    )

count-new_removes :
    (k : String) (mm : ArtifactsMap) (p2r : ArtifactsPack)
    → count (removes_name k) (new_removes mm p2r)
      ≡ (if has k mm then 0 else occurs k (artifact_names p2r))
unfolding new_removes
count-new_removes k mm [] = ground arith
count-new_removes k mm (a ∷ p2r) =
    let same : (artifact_name a == k) ≡ true → has (artifact_name a) mm ≡ has k mm =
      λ e. ap (λ j. has j mm) (==→eq (artifact_name a) k e) in
    ground (arith, count-new_removes k mm p2r, same)

module _ (g : Gentoo) (rt : GoRuntime) (p2i p2u : ArtifactsPack) where
  abbrev merged : ArtifactsPack
  merged = p2i ++ p2u

  -- The counts of the Removes that are placed, and of those in front, add up.
  one_remove_each :
      (p2r : ArtifactsPack) (tmp : List Operation) (k : String)
      → occurs k (operation_names tmp) ≡ occurs k (artifact_names merged)
      → occurs k (artifact_names merged) ≤ 1
      → occurs k (artifact_names p2r) ≤ 1
      → (if has k (to_map merged) then 0 else occurs k (artifact_names p2r))
          + (if has k (to_map p2r) then count (λ o. operation_name o == k) tmp else 0)
        ≡ occurs k (artifact_names p2r)
  one_remove_each p2r tmp k e d1 d2 =
      rw (has-to_map k merged, has-to_map k p2r)
        (ground (arith, count-map operation_name (λ n. n == k) tmp))

  pub order_packs-IsPlan :
      (p2r : ArtifactsPack) (tmp : List Operation)
      → change_operations rt p2i p2u ≡ ok tmp
      → all is_change tmp ≡ true
      → ((k : String) → occurs k (operation_names tmp) ≡ occurs k (artifact_names (p2i ++ p2u)))
      → ((k : String) → occurs k (artifact_names (p2i ++ p2u)) ≤ 1)
      → ((k : String) → occurs k (artifact_names p2r) ≤ 1)
      → (ops : List Operation) × (order_packs g rt p2i p2u p2r ≡ ok ops) × IsPlan p2r tmp ops
  unfolding order_packs
  order_packs-IsPlan [] tmp e c names d1 d2 = (tmp, rw e refl, IsPlan-changes tmp c)
  order_packs-IsPlan (r ∷ p2r) [] e c names d1 d2 =
      let (ops, returned, unchanged, behind, counts) =
        only_removes-IsPlan (r ∷ p2r) (r ∷ p2r) (λ k h. h) in
      (ops, rw e returned, record { in_order = unchanged; removed = behind _; one_remove = counts })
  order_packs-IsPlan (r ∷ p2r) (t ∷ tmp) e c names d1 d2 =
      let ans = new_removes (to_map merged) (r ∷ p2r) in
      let (ops, returned, placed) =
        place_operations-returns g (r ∷ p2r) (length ans) (length ans) ans (t ∷ tmp) refl c (
          removed_first-new_removes (λ k. has k (to_map (r ∷ p2r))) (to_map merged) (r ∷ p2r)
            (λ _. false)) in
      (
        ops,
        rw e returned,
        record {
          in_order = placed.in_order ∙ rw (changes-new_removes (to_map merged) (r ∷ p2r)) refl;
          removed = placed.removed;
          one_remove = λ k.
              placed.counted k
              ∙ rw (count-new_removes k (to_map merged) (r ∷ p2r))
                  (one_remove_each (r ∷ p2r) (t ∷ tmp) k (names k) (d1 k) (d2 k));
        },
      )
