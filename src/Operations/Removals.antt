-- ===== src/Operations/Removals.antt =====
-- Where the Removes stand among the operations of OrderOperations.
use mathlib.Core.List.{append_assoc, append-nil}
use luet.Prelude.{
  ℕ, zero, suc, ◌≡◌, refl, sym, String, Bool, true, false, Option, none, some, List, [], ◌∷◌, ◌++◌,
  take, drop, take-append-drop, arith, ◌&&◌, ◌||◌, any, any-append, ◌==◌, ==_refl, if◌then◌else◌,
  Bool-cases, inl, inr,
}
use luet.GoMap.{has}
use luet.Artifact.{PackageArtifact, ArtifactsPack, ArtifactsMap, artifact_name}
use luet.Operations.{
  remove_package, Operation, new_operation, insert_remove, new_removes, operation_name,
}
use luet.Operations.Changes.{is_remove, is_change}

-- The operation removes the package of the name.
abbrev pub removes_name : String → Operation → Bool
removes_name k o = is_remove o && operation_name o == k

abbrev pub removed_in : List Operation → String → Bool
removed_in ops k = any (removes_name k) ops

-- Where the name of an install or an update is `due`, its Remove stands before it, or is `seen`.
abbrev pub removed_first : (due seen : String → Bool) → List Operation → Bool
removed_first due seen [] = true
removed_first due seen (o ∷ ops) =
    (if is_change o && due (operation_name o) then seen (operation_name o) else true)
    && removed_first due (λ k. removes_name k o || seen k) ops

module _ (due : String → Bool) where
  pub removed_first-weaken :
      (seen seen' : String → Bool) (ops : List Operation)
      → ((k : String) → seen k ≡ true → seen' k ≡ true)
      → removed_first due seen ops ≡ true
      → removed_first due seen' ops ≡ true
  removed_first-weaken seen seen' [] f h = refl
  removed_first-weaken seen seen' (o ∷ ops) f h =
      let rest =
        removed_first-weaken (λ k. removes_name k o || seen k) (λ k. removes_name k o || seen' k)
          ops (λ k e. ground (arith, f k)) (ground arith) in
      ground (arith, rest, f (operation_name o))

  pub removed_first-concat :
      (seen : String → Bool) (ops : List Operation) (o : Operation)
      → removed_first due seen ops ≡ true
      → (due (operation_name o) ≡ true
          → (removed_in ops (operation_name o) || seen (operation_name o)) ≡ true)
      → removed_first due seen (ops ++ o ∷ []) ≡ true
  removed_first-concat seen [] o h r = ground (arith, r)
  removed_first-concat seen (x ∷ ops) o h r =
      let rest =
        removed_first-concat (λ k. removes_name k x || seen k) ops o (ground arith)
          (λ d. ground (arith, r d)) in
      ground (arith, rest)

  removed_first-insert :
      (seen : String → Bool) (before after : List Operation) (r : PackageArtifact)
      → removed_first due seen (before ++ after) ≡ true
      → removed_first due seen (before ++ new_operation remove_package r ∷ after) ≡ true
  removed_first-insert seen [] after r h =
      removed_first-weaken seen (λ k. removes_name k (new_operation remove_package r) || seen k)
        after (λ k e. ground arith) h
  removed_first-insert seen (x ∷ before) after r h =
      let rest =
        removed_first-insert (λ k. removes_name k x || seen k) before after r (ground arith) in
      ground (arith, rest)

  insert_remove_between :
      (before after : List Operation) (r : PackageArtifact) (op : Operation)
      → artifact_name r ≡ operation_name op
      → removed_first due (λ _. false) (before ++ after) ≡ true
      → removed_first due
          (λ _. false)
          ((before ++ new_operation remove_package r ∷ after) ++ op ∷ [])
        ≡ true
  insert_remove_between before after r op e h =
      removed_first-concat (λ _. false) (before ++ new_operation remove_package r ∷ after) op
        (removed_first-insert (λ _. false) before after r h)
        (λ _.
          rw
            (
              any-append (removes_name (operation_name op)) before
                  (new_operation remove_package r ∷ after),
              e,
              ==_refl (operation_name op),
            )
            (ground arith))

  pub removed_first-insert_remove :
      (c : Option ℕ) (r : PackageArtifact) (op : Operation) (ans : List Operation)
      → artifact_name r ≡ operation_name op
      → removed_first due (λ _. false) ans ≡ true
      → removed_first due (λ _. false) (insert_remove c (new_operation remove_package r) op ans)
        ≡ true
  unfolding insert_remove
  removed_first-insert_remove none r op ans e h =
      rw (sym (append_assoc ans (new_operation remove_package r ∷ []) (op ∷ [])))
        (insert_remove_between ans [] r op e (rw append-nil h))
  removed_first-insert_remove (some zero) r op ans e h = insert_remove_between [] ans r op e h
  removed_first-insert_remove (some (suc n)) r op ans e h =
      insert_remove_between (take (suc n) ans) (drop (suc n) ans) r op e
        (rw (take-append-drop (suc n) ans) h)

  pub removed_first-new_removes :
      (mm : ArtifactsMap) (p2r : ArtifactsPack) (seen : String → Bool)
      → removed_first due seen (new_removes mm p2r) ≡ true
  unfolding new_removes
  removed_first-new_removes mm [] seen = refl
  removed_first-new_removes mm (a ∷ p2r) seen = elim (Bool-cases (has (artifact_name a) mm)) [
    | inl e ↦ rw e (removed_first-new_removes mm p2r seen)
    | inr e ↦ rw e (removed_first-new_removes mm p2r _)
  ]
