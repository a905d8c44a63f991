-- ===== src/Operations/Changes.antt =====
-- The installs and updates among the operations of OrderOperations.
use luet.Prelude.{
  ℕ, zero, suc, ◌≡◌, refl, sym, Bool, true, false, Option, none, some, List, [], ◌∷◌, ◌++◌, keep,
  keep-append, take, drop, take-append-drop, arith, not,
}
use luet.Artifact.{PackageArtifact, ArtifactsPack, ArtifactsMap}
use luet.Operations.{
  Action, update_package, add_package, remove_package, downgrade_package, Operation, new_operation,
  insert_remove, new_removes,
}

abbrev pub removes : Action → Bool
removes remove_package = true
removes update_package = false
removes add_package = false
removes downgrade_package = false

abbrev pub is_remove : Operation → Bool
is_remove o = removes o.action

abbrev pub is_change : Operation → Bool
is_change o = not (is_remove o)

-- The installs and updates, in their order.
abbrev pub changes : List Operation → List Operation
changes = keep is_change

pub changes-insert_remove :
    (c : Option ℕ) (r : PackageArtifact) (op : Operation) (ans : List Operation)
    → is_change op ≡ true
    → changes (insert_remove c (new_operation remove_package r) op ans) ≡ changes ans ++ op ∷ []
unfolding insert_remove
changes-insert_remove none r op ans h =
    rw (keep-append is_change ans (new_operation remove_package r ∷ op ∷ []), h) refl
changes-insert_remove (some zero) r op ans h = rw (keep-append is_change ans (op ∷ []), h) refl
changes-insert_remove (some (suc n)) r op ans h =
    rw
      (
        keep-append is_change
            (take (suc n) ans ++ new_operation remove_package r ∷ drop (suc n) ans) (op ∷ []),
        keep-append is_change (take (suc n) ans)
            (new_operation remove_package r ∷ drop (suc n) ans),
        h,
      )
      (rw
        (
          sym (keep-append is_change (take (suc n) ans) (drop (suc n) ans)),
          take-append-drop (suc n) ans,
        )
        refl)

pub changes-new_removes :
    (mm : ArtifactsMap) (p2r : ArtifactsPack) → changes (new_removes mm p2r) ≡ []
unfolding new_removes
changes-new_removes mm [] = refl
changes-new_removes mm (a ∷ p2r) = ground (arith, changes-new_removes mm p2r)
