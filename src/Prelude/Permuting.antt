-- ===== src/Prelude/Permuting.antt =====
-- Searches in a list and in its permutations.
use mathlib.Core.Path.{◌≡◌, refl, ◌∙◌}
use mathlib.Core.Logic.{∥∥₁_elim}
use mathlib.Core.Bool.{Bool, Bool-set}
use mathlib.Core.List.{List, [], ◌∷◌, map, Perm, Permᴰ}
use native.Mathlib.Omega.{arith}
use luet.Prelude.Lists.{any, all}

module _ {ℓ} {A : Type ℓ} (p : A → Bool) where
  any-Permᴰ : {xs ys : List A} → Permᴰ xs ys → any p xs ≡ any p ys
  any-Permᴰ Permᴰ.nil = refl
  any-Permᴰ (Permᴰ.cons e h) = ground (arith, any-Permᴰ h)
  any-Permᴰ (Permᴰ.swap e f) = ground arith
  any-Permᴰ (Permᴰ.trans h k) = any-Permᴰ h ∙ any-Permᴰ k

  pub any-perm : {xs ys : List A} → Perm xs ys → any p xs ≡ any p ys
  any-perm h = ∥∥₁_elim h (Bool-set _ _) any-Permᴰ

  all-Permᴰ : {xs ys : List A} → Permᴰ xs ys → all p xs ≡ all p ys
  all-Permᴰ Permᴰ.nil = refl
  all-Permᴰ (Permᴰ.cons e h) = ground (arith, all-Permᴰ h)
  all-Permᴰ (Permᴰ.swap e f) = ground arith
  all-Permᴰ (Permᴰ.trans h k) = all-Permᴰ h ∙ all-Permᴰ k

  pub all-perm : {xs ys : List A} → Perm xs ys → all p xs ≡ all p ys
  all-perm h = ∥∥₁_elim h (Bool-set _ _) all-Permᴰ

module _ {ℓ κ} {A : Type ℓ} {B : Type κ} where
  pub any-map : (f : A → B) (p : B → Bool) (xs : List A) → any p (map f xs) ≡ any (λ x. p (f x)) xs
  any-map f p [] = refl
  any-map f p (x ∷ xs) = ground (arith, any-map f p xs)
