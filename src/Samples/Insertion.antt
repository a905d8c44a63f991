-- ===== src/Samples/Insertion.antt =====
-- A stable insertion sort, for `sort.Slice`.
use mathlib.Core.List.Perm
use mathlib.Core.List.{Perm}
use luet.Prelude.{◌≡◌, Bool, true, false, List, [], ◌∷◌, if◌then◌else◌, Bool-cases, inl, inr, All}
use luet.Runtime.{IsStrictWeak, IsSortedBy}

module _ {A : Type 0} (less : A → A → Bool) where
  abbrev insert : A → List A → List A
  insert x [] = x ∷ []
  insert x (y ∷ ys) = let rest = insert x ys in if less y x then y ∷ rest else x ∷ y ∷ ys

  abbrev pub insertion_sort : List A → List A
  insertion_sort [] = []
  insertion_sort (x ∷ xs) = insert x (insertion_sort xs)

  insert-perm : (x : A) (ys : List A) → Perm (insert x ys) (x ∷ ys)
  insert-perm x [] = Perm.rfl
  insert-perm x (y ∷ ys) = elim (Bool-cases (less y x)) [
    | inl h ↦ rw h (Perm.trans (Perm.cons y (insert-perm x ys)) (Perm.swap x y ys))
    | inr h ↦ rw h Perm.rfl
  ]

  pub insertion_sort-perm : (xs : List A) → Perm (insertion_sort xs) xs
  insertion_sort-perm [] = Perm.rfl
  insertion_sort-perm (x ∷ xs) =
      Perm.trans (insert-perm x (insertion_sort xs)) (Perm.cons x (insertion_sort-perm xs))

  insert-All : (P : A → Type 0) (x : A) (ys : List A) → P x → All P ys → All P (insert x ys)
  insert-All P x [] p h = (p, h)
  insert-All P x (y ∷ ys) p h = elim (Bool-cases (less y x)) [
    | inl l ↦ rw l (h.0, insert-All P x ys p h.1)
    | inr g ↦ rw g (p, h)
  ]

  after-All :
      (h : IsStrictWeak less) (x y : A) (ys : List A)
      → less y x ≡ false
      → All (λ b. less b y ≡ false) ys
      → All (λ b. less b x ≡ false) ys
  after-All h x y [] g k = tt
  after-All h x y (z ∷ ys) g k = (h.ties x y z g k.0, after-All h x y ys g k.1)

  -- What is less than `x` has `x` not less than itself.
  asymm : (h : IsStrictWeak less) (x y : A) → less y x ≡ true → less x y ≡ false
  asymm h x y l = elim (Bool-cases (less x y)) [
    | inr g ↦ g
    | inl k ↦ absurd (false_true (h.trans y x y l k) (h.irrefl y))
  ]
    where
      false_true : {b : Bool} → b ≡ true → b ≡ false → ⊥
      false_true p q = cc

  insert-sorted :
      (h : IsStrictWeak less) (x : A) (ys : List A)
      → IsSortedBy less ys
      → IsSortedBy less (insert x ys)
  insert-sorted h x [] s = (tt, tt)
  insert-sorted h x (y ∷ ys) s = elim (Bool-cases (less y x)) [
    | inl l ↦
        rw l (insert-All (λ b. less b y ≡ false) x ys (asymm h x y l) s.0, insert-sorted h x ys s.1)
    | inr g ↦ rw g ((g, after-All h x y ys g s.0), s)
  ]

  pub insertion_sort-sorted :
      (xs : List A) → IsStrictWeak less → IsSortedBy less (insertion_sort xs)
  insertion_sort-sorted [] h = tt
  insertion_sort-sorted (x ∷ xs) h =
      insert-sorted h x (insertion_sort xs) (insertion_sort-sorted xs h)
