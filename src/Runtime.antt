-- ===== src/Runtime.antt =====
-- What the Go language and its standard library leave open, as an interface: the order in which
-- `for k, v := range m` visits a map, and the order in which `sort.Slice` leaves elements that its
-- test does not tell apart, and the order in which concurrent goroutines reach a lock or a channel.
use mathlib.Core.List.{Perm}
use luet.Prelude.{ℕ, ◌≡◌, Bool, true, false, List, [], ◌∷◌, All}
use luet.GoMap.{Map}

-- The laws that a test must keep for `sort.Slice` to sort: a strict weak order.
pub record IsStrictWeak {A : Type 0} (less : A → A → Bool) : Type 0 where
  pub irrefl : (a : A) → less a a ≡ false
  pub trans : (a b c : A) → less a b ≡ true → less b c ≡ true → less a c ≡ true
  pub ties : (a b c : A) → less b a ≡ false → less c b ≡ false → less c a ≡ false

-- No element is less than one before it.
abbrev pub IsSortedBy : {A : Type 0} → (A → A → Bool) → List A → Type 0
IsSortedBy less [] = Unit
IsSortedBy less (a ∷ l) = All (λ b. less b a ≡ false) l × IsSortedBy less l

pub record GoRuntime : Type 1 where
  -- The number tells one loop of a run from another: the order may differ each time.
  pub range : {V : Type 0} → ℕ → Map V → Map V
  pub range_perm : {V : Type 0} → (n : ℕ) (m : Map V) → Perm (range n m) m
  pub sort_slice : {A : Type 0} → (A → A → Bool) → List A → List A
  pub sort_slice_perm :
      {A : Type 0} → (less : A → A → Bool) (l : List A) → Perm (sort_slice less l) l
  pub sort_slice_sorted :
      {A : Type 0}
      → (less : A → A → Bool) (l : List A) → IsStrictWeak less
      → IsSortedBy less (sort_slice less l)
  -- The goroutines of one loop, in the order in which they reach a lock or send on a channel.
  pub deliver : {A : Type 0} → ℕ → List A → List A
  pub deliver_perm : {A : Type 0} → (n : ℕ) (l : List A) → Perm (deliver n l) l
