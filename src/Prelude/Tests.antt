-- ===== src/Prelude/Tests.antt =====
-- Boolean tests on numbers and texts, and the conditional.
use Prim.Native.Nat.{ℕ, compare, Ordering}
use Prim.Native.String.{String}
use mathlib.Core.Path.{◌≡◌, refl, sym, ◌∙◌}
use mathlib.Core.Logic.{◌⊎◌, inl, inr}
use mathlib.Core.Bool.{Bool, true, false, ◌&&◌}
use mathlib.Core.Option.{Option, none, some}
use text.Mathlib.Text.{◌==◌ as str_eq}
use text.Mathlib.TextEquality.{eq_iff}

abbrev pub ltb : ℕ → ℕ → Bool
ltb a b = elim (compare a b) [ Ordering.lt ↦ true | _ ↦ false ]

abbrev pub leb : ℕ → ℕ → Bool
leb a b = elim (compare a b) [ Ordering.gt ↦ false | _ ↦ true ]

abbrev pub nat_eq : ℕ → ℕ → Bool
nat_eq a b = elim (compare a b) [ Ordering.eq ↦ true | _ ↦ false ]

infix 1 if◌then◌else◌
abbrev pub if◌then◌else◌ {ℓ} : {A : Type ℓ} → Bool → A → A → A
if true then x else y = x
if false then x else y = y

-- Equality of texts. It stays shut: proofs read it through its two lemmas.
infix 50 ◌==◌
unfoldable pub ◌==◌ : String → String → Bool
◌==◌ = str_eq

pub ==→eq : (s t : String) → (s == t) ≡ true → s ≡ t
unfolding ◌==◌
==→eq s t h = (eq_iff s t).0 h

pub ==_refl : (s : String) → (s == s) ≡ true
unfolding ◌==◌
==_refl s = (eq_iff s s).1 refl

pub eq→== : (s t : String) → s ≡ t → (s == t) ≡ true
unfolding ◌==◌
eq→== s t h = (eq_iff s t).1 h

pub Bool-cases : (b : Bool) → (b ≡ true) ⊎ (b ≡ false)
Bool-cases true = inl refl
Bool-cases false = inr refl

pub Option-cases {ℓ} : {A : Type ℓ} (o : Option A) → (o ≡ none) ⊎ ((a : A) × (o ≡ some a))
Option-cases none = inl refl
Option-cases (some a) = inr (a, refl)

pub ==_join : (s t u : String) → (s == u) ≡ true → (t == u) ≡ true → (s == t) ≡ true
==_join s t u h k = eq→== s t (==→eq s u h ∙ sym (==→eq t u k))

pub ==_sym : (s t : String) → (s == t) ≡ true → (t == s) ≡ true
==_sym s t h = eq→== t s (sym (==→eq s t h))

pub ==_trans : (s t u : String) → (s == t) ≡ true → (t == u) ≡ true → (s == u) ≡ true
==_trans s t u h k = eq→== s u (==→eq s t h ∙ ==→eq t u k)

pub and_right : (a b : Bool) → (a && b) ≡ true → b ≡ true
and_right true b h = h
and_right false b h = cc

pub some_injective {ℓ} : {A : Type ℓ} {a b : A} → some a ≡ some b → a ≡ b
some_injective e = cc
