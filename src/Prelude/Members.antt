-- ===== src/Prelude/Members.antt =====
-- Membership in a list, as a family with its place.
use mathlib.Core.Path.{◌≡◌}
use mathlib.Core.Logic.{◌⊎◌, inl, inr}
use mathlib.Core.Bool.{Bool, true}
use mathlib.Core.List.{List, [], ◌∷◌, ◌++◌}
use native.Mathlib.Omega.{arith}
use luet.Prelude.Lists.{All, all}

pub data Member {ℓ} {A : Type ℓ} (x : A) : List A → Type ℓ where
  at_head : {xs : List A} → Member x (x ∷ xs)
  in_tail : {y : A} {xs : List A} → Member x xs → Member x (y ∷ xs)

module _ {ℓ} {A : Type ℓ} where
  pub Member-append_left : {x : A} (xs ys : List A) → Member x xs → Member x (xs ++ ys)
  Member-append_left [] ys m = elim m [ ]
  Member-append_left (y ∷ xs) ys at_head = at_head
  Member-append_left (y ∷ xs) ys (in_tail m) = in_tail (Member-append_left xs ys m)

  pub Member-append_right : {x : A} (xs ys : List A) → Member x ys → Member x (xs ++ ys)
  Member-append_right [] ys m = m
  Member-append_right (y ∷ xs) ys m = in_tail (Member-append_right xs ys m)

  pub Member-append : {x : A} (xs ys : List A) → Member x (xs ++ ys) → Member x xs ⊎ Member x ys
  Member-append [] ys m = inr m
  Member-append (y ∷ xs) ys at_head = inl at_head
  Member-append (y ∷ xs) ys (in_tail m) = elim (Member-append xs ys m) [
    | inl l ↦ inl (in_tail l)
    | inr r ↦ inr r
  ]

  pub all-Member : {x : A} (p : A → Bool) (xs : List A) → Member x xs → all p xs ≡ true → p x ≡ true
  all-Member p [] m h = elim m [ ]
  all-Member p (y ∷ xs) at_head h = ground arith
  all-Member p (y ∷ xs) (in_tail m) h = all-Member p xs m (ground arith)

pub All-Member {ℓ κ} :
    {A : Type ℓ} {x : A} (P : A → Type κ) (xs : List A) → Member x xs → All P xs → P x
All-Member P [] m h = elim m [ ]
All-Member P (y ∷ xs) at_head h = h.0
All-Member P (y ∷ xs) (in_tail m) h = All-Member P xs m h.1

pub All-of_Member {ℓ κ} :
    {A : Type ℓ} (P : A → Type κ) (xs : List A) → ((x : A) → Member x xs → P x) → All P xs
All-of_Member P [] f = tt
All-of_Member P (x ∷ xs) f = (f x at_head, All-of_Member P xs (λ y m. f y (in_tail m)))
