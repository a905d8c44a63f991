-- ===== src/Prelude/Counting.antt =====
-- How often a test holds in a list.
use Prim.Native.Nat.{ℕ, ◌+◌, ◌≤◌}
use mathlib.Core.Path.{◌≡◌, refl, ◌∙◌}
use mathlib.Core.Logic.{∥∥₁_elim}
use mathlib.Core.Bool.{Bool, true}
use mathlib.Core.List.{List, [], ◌∷◌, ◌++◌, Perm, Permᴰ, map}
use native.Mathlib.Nat.{ℕ_set}
use native.Mathlib.Omega.{arith}
use luet.Prelude.Tests.{if◌then◌else◌}
use luet.Prelude.Lists.{length}

module _ {ℓ} {A : Type ℓ} where
  abbrev pub count : (A → Bool) → List A → ℕ
  count p [] = 0
  count p (x ∷ xs) = (if p x then 1 else 0) + count p xs

  pub count-append : (p : A → Bool) (xs ys : List A) → count p (xs ++ ys) ≡ count p xs + count p ys
  count-append p [] ys = omega arith
  count-append p (x ∷ xs) ys = omega (arith, count-append p xs ys)

  count-Permᴰ : (p : A → Bool) {xs ys : List A} → Permᴰ xs ys → count p xs ≡ count p ys
  count-Permᴰ p Permᴰ.nil = refl
  count-Permᴰ p (Permᴰ.cons e h) = ground (arith, count-Permᴰ p h)
  count-Permᴰ p (Permᴰ.swap e f) = ground arith
  count-Permᴰ p (Permᴰ.trans h k) = count-Permᴰ p h ∙ count-Permᴰ p k

  pub count-perm : (p : A → Bool) (xs ys : List A) → Perm xs ys → count p xs ≡ count p ys
  count-perm p xs ys h = ∥∥₁_elim h (ℕ_set _ _) (λ d. count-Permᴰ p d)

  pub count_all : (xs : List A) → count (λ _. true) xs ≡ length xs
  count_all [] = refl
  count_all (x ∷ xs) = omega (arith, count_all xs)

module _ {ℓ κ} {A : Type ℓ} {B : Type κ} where
  pub count-map :
      (f : A → B) (p : B → Bool) (xs : List A) → count p (map f xs) ≡ count (λ x. p (f x)) xs
  count-map f p [] = refl
  count-map f p (x ∷ xs) = omega (arith, count-map f p xs)

module _ {ℓ} {A : Type ℓ} where
  pub count_le_length : (p : A → Bool) (xs : List A) → count p xs ≤ length xs
  count_le_length p [] = omega arith
  count_le_length p (x ∷ xs) = ground (arith, count_le_length p xs)
