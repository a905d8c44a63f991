-- ===== src/Operations.antt =====
-- OrderOperations of pkg/v2/solver/solver.go: the sequence of operations of one transaction, from the
-- packages to install, to update and to remove. The proofs are in the children.
pub mod Changes
pub mod Removals
pub mod Placing
pub mod Plan
pub mod Merging
pub mod Behind
pub mod Correct
mod Tests
use luet.Prelude.{
  ℕ, zero, suc, ◌+◌, not, String, Bool, true, false, Option, none, some, List, [], ◌∷◌, ◌++◌, ltb,
  keep, map, is_empty, if◌then◌else◌, length, take, drop, get_elem?,
}
use luet.GoMap.{lookup, has}
use luet.Runtime.{GoRuntime}
use luet.Result.{Result, ok, err, panic, invalid_parameters, ◌>>=◌}
use luet.Gentoo.{Gentoo}
use luet.Package.Thin.{Thin, get_requires, set_requires, thin_name}
use luet.Package.Default.{DefaultPackage, to_package_thin}
use luet.Package.Admit.{admit}
use luet.Artifact.{PackageArtifact, ArtifactsPack, ArtifactsMap, get_package, artifact_name, to_map}
use luet.Sort.{sort_pkgs_thin_arr}

-- The constants "U", "N", "D" and "u" of pkg/v2/solver/common.go.
pub data Action : Type 0 where
  update_package add_package remove_package downgrade_package : Action

pub record Operation : Type 0 where
  pub action : Action
  pub artifact : PackageArtifact

abbrev pub new_operation : Action → PackageArtifact → Operation
new_operation action art = record { action = action; artifact = art }

abbrev pub operation_name : Operation → String
operation_name o = artifact_name o.artifact

-- val[0]
abbrev pub first : {A : Type 0} → List A → Result A
first [] = panic
first (x ∷ xs) = ok x

-- The body of createThinPkgsPlist: the requires that the map has not are dropped.
unfoldable pub thin_of : ArtifactsMap → PackageArtifact → Thin
thin_of p2imap a =
    let pt = to_package_thin (get_package a) in
    set_requires (keep (λ r. has (thin_name r) p2imap) (get_requires pt)) pt

unfoldable pub create_thin_pkgs_plist : ArtifactsPack → ArtifactsMap → List Thin
unfolding thin_of
create_thin_pkgs_plist p2i p2imap = map (thin_of p2imap) p2i

-- The operations of the sorted packages. A package that neither map has is a read of `a[0]` of a
-- nil slice.
unfoldable pub sorted_operation : (p2imap p2umap : ArtifactsMap) → Thin → Result Operation
sorted_operation p2imap p2umap p = elim (lookup (thin_name p) p2imap) [
  | some a ↦ (do art ← first a; ok (new_operation add_package art))
  | none ↦ elim (lookup (thin_name p) p2umap) [
    | some a ↦ (do art ← first a; ok (new_operation update_package art))
    | none ↦ panic
  ]
]

unfoldable pub sorted_operations :
    (p2imap p2umap : ArtifactsMap) → List Thin → Result (List Operation)
unfolding sorted_operation
sorted_operations p2imap p2umap [] = ok []
sorted_operations p2imap p2umap (p ∷ ps) = do
  op ← sorted_operation p2imap p2umap p
  ops ← sorted_operations p2imap p2umap ps
  ok (op ∷ ops)

-- `tmpOps`: the sorted installs and updates.
unfoldable pub change_operations : GoRuntime → (p2i p2u : ArtifactsPack) → Result (List Operation)
unfolding create_thin_pkgs_plist sorted_operations
change_operations rt p2i p2u = elim (p2i ++ p2u) [
  | [] ↦ ok []
  | a ∷ [] ↦ ok (new_operation (elim p2i [ [] ↦ update_package | _ ∷ _ ↦ add_package ]) a ∷ [])
  | a ∷ b ∷ arts ↦ (do
    let merged = a ∷ b ∷ arts
    pthinarr ← sort_pkgs_thin_arr rt (create_thin_pkgs_plist merged (to_map merged))
    sorted_operations (to_map p2i) (to_map p2u) pthinarr)
]

-- The branch with nothing to install or to update.
unfoldable pub only_removes : ArtifactsMap → List Thin → Result (List Operation)
only_removes p2rmap [] = ok []
only_removes p2rmap (a ∷ pthinarr) = do
  art ← elim (lookup (thin_name a) p2rmap) [ none ↦ panic | some val ↦ first val ]
  ops ← only_removes p2rmap pthinarr
  ok (new_operation remove_package art ∷ ops)

-- The removed packages that are not installed or updated again.
unfoldable pub new_removes : ArtifactsMap → ArtifactsPack → List Operation
new_removes merged_map [] = []
new_removes merged_map (a ∷ p2r) =
    let rest = new_removes merged_map p2r in
    if has (artifact_name a) merged_map then rest else new_operation remove_package a ∷ rest

-- An error of Admit is a warning and counts as admitted.
abbrev pub conflicts_with : Result Bool → Bool
conflicts_with r = elim r [ ok admitted ↦ not admitted | _ ↦ false ]

-- The Remove goes to the front, in front of the new operation, or to the place of the conflict.
unfoldable pub insert_remove :
    Option ℕ → (remove change : Operation) → List Operation → List Operation
insert_remove none remove change ans = ans ++ remove ∷ change ∷ []
insert_remove (some zero) remove change ans = (remove ∷ ans) ++ change ∷ []
insert_remove (some (suc idx)) remove change ans =
    (take (suc idx) ans ++ remove ∷ drop (suc idx) ans) ++ change ∷ []

module _ (g : Gentoo) where
  -- The loop for idx := idxOps - 1; idx > rmOps; idx--, entered with idx + 1. The last conflict that
  -- it meets is `idxConflict`; `none` is -1.
  unfoldable pub last_conflict :
      ℕ → List Operation → DefaultPackage → ℕ → Option ℕ → Result (Option ℕ)
  last_conflict rm_ops ans p zero idx_conflict = ok idx_conflict
  last_conflict rm_ops ans p (suc idx) idx_conflict =
      if ltb rm_ops idx
      then elim (get_elem? ans idx) [
        | none ↦ panic
        | some o ↦
            last_conflict rm_ops ans p idx (
              if conflicts_with (admit g (get_package o.artifact) p)
              then some idx
              else idx_conflict)
      ]
      else ok idx_conflict

  -- The loop over tmpOps. `idx_ops` follows the length of `ans`.
  unfoldable pub place_operations :
      ArtifactsMap → ℕ → ℕ → List Operation → List Operation → Result (List Operation)
  unfolding last_conflict insert_remove
  place_operations p2rmap rm_ops idx_ops ans [] = ok ans
  place_operations p2rmap rm_ops idx_ops ans (op ∷ tmp_ops) =
      elim (lookup (operation_name op) p2rmap) [
        | none ↦ place_operations p2rmap rm_ops (idx_ops + 1) (ans ++ op ∷ []) tmp_ops
        | some pr ↦ (do
          idx_conflict ← last_conflict rm_ops ans (get_package op.artifact) idx_ops none
          r ← first pr
          place_operations p2rmap rm_ops (idx_ops + 1 + 1)
              (insert_remove idx_conflict (new_operation remove_package r) op ans) tmp_ops)
      ]

  -- The loop as it starts, with rmOps and idxOps at len(ans).
  abbrev pub place_behind : ArtifactsMap → List Operation → List Operation → Result (List Operation)
  place_behind p2rmap ans tmp_ops = place_operations p2rmap (length ans) (length ans) ans tmp_ops

  -- The operations for packs that are not nil.
  unfoldable pub order_packs : GoRuntime → (p2i p2u p2r : ArtifactsPack) → Result (List Operation)
  unfolding change_operations new_removes place_operations only_removes
  order_packs rt p2i p2u p2r = do
    tmp_ops ← change_operations rt p2i p2u
    if is_empty p2r
        then ok tmp_ops
        else if is_empty tmp_ops
        then only_removes (to_map p2r) (create_thin_pkgs_plist p2r (to_map p2r))
        else place_behind (to_map p2r) (new_removes (to_map (p2i ++ p2u)) p2r) tmp_ops

  -- A nil pack is `none`.
  unfoldable pub order_operations :
      GoRuntime → (p2i p2u p2r : Option ArtifactsPack) → Result (List Operation)
  unfolding order_packs
  order_operations rt (some p2i) (some p2u) (some p2r) = order_packs rt p2i p2u p2r
  order_operations rt none p2u p2r = err invalid_parameters
  order_operations rt (some p2i) none p2r = err invalid_parameters
  order_operations rt (some p2i) (some p2u) none = err invalid_parameters
