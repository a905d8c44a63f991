-- ===== src/GoMap.antt =====
-- Go's `map[string]V` as an association list. The order of the entries means nothing: every
-- `range` over a map goes through `GoRuntime.range` (Runtime.antt).
use luet.Prelude.{
  ℕ, ◌+◌, ◌≤◌, String, ◌≡◌, refl, Bool, true, false, Option, none, some, List, [], ◌∷◌, ◌++◌, arith,
  ◌==◌, if◌then◌else◌, count, ==→eq, ==_refl, ==_join, ==_sym, ==_trans, Bool-cases, inl, inr,
  length, ◌<◌,
}

abbrev pub Map {ℓ} : Type ℓ → Type ℓ
Map V = List (String × V)

-- How often a text stands in a list of texts.
abbrev pub occurs : String → List String → ℕ
occurs k = count (λ s. s == k)

module _ {ℓ} {V : Type ℓ} where
  abbrev pub keys : Map V → List String
  keys [] = []
  keys ((k, v) ∷ m) = k ∷ keys m

  abbrev pub values : Map V → List V
  values [] = []
  values ((k, v) ∷ m) = v ∷ values m

  -- v, ok := m[k]
  unfoldable pub lookup : String → Map V → Option V
  lookup k [] = none
  lookup k ((j, v) ∷ m) = if j == k then some v else lookup k m

  -- _, ok := m[k]
  unfoldable pub has : String → Map V → Bool
  has k [] = false
  has k ((j, v) ∷ m) = if j == k then true else has k m

  -- m[k] = v
  unfoldable pub put : String → V → Map V → Map V
  put k v [] = (k, v) ∷ []
  put k v ((j, w) ∷ m) = if j == k then (j, v) ∷ m else (j, w) ∷ put k v m

  -- delete(m, k)
  unfoldable pub delete : String → Map V → Map V
  delete k [] = []
  delete k ((j, v) ∷ m) = let rest = delete k m in if j == k then rest else (j, v) ∷ rest

  unfoldable pub delete_all : List String → Map V → Map V
  unfolding delete
  delete_all [] m = m
  delete_all (k ∷ ks) m = delete_all ks (delete k m)

  -- Each key stands once.
  abbrev pub IsMap : Map V → Type 0
  IsMap m = (k : String) → occurs k (keys m) ≤ 1

module _ {ℓ} {V : Type ℓ} where
  pub has-put :
      (k j : String) (v : V) (m : Map V) → has j (put k v m) ≡ (if k == j then true else has j m)
  unfolding has put
  has-put k j v [] = refl
  has-put k j v ((i, w) ∷ m) = elim (Bool-cases (i == k)) [
    | inl e ↦ rw (==→eq i k e, ==_refl k) (ground arith)
    | inr e ↦ ground (arith, has-put k j v m)
  ]

  pub lookup-put :
      (k j : String) (v : V) (m : Map V)
      → lookup j (put k v m) ≡ (if k == j then some v else lookup j m)
  unfolding lookup put
  lookup-put k j v [] = refl
  lookup-put k j v ((i, w) ∷ m) = elim (Bool-cases (i == k)) [
    | inl e ↦ rw (==→eq i k e, ==_refl k) (ground arith)
    | inr e ↦ ground (arith, lookup-put k j v m, ==_join i k j)
  ]

  -- `has` is the presence of the key, and `lookup` finds a value exactly then.
  pub has-eq-occurs : (k : String) (m : Map V) → has k m ≡ false → occurs k (keys m) ≡ 0
  unfolding has
  has-eq-occurs k [] h = refl
  has-eq-occurs k ((j, v) ∷ m) h = ground (arith, has-eq-occurs k m)

  pub has_of_occurs : (k : String) (m : Map V) → 0 < occurs k (keys m) → has k m ≡ true
  unfolding has
  has_of_occurs k [] h = elim h [ ]
  has_of_occurs k ((j, v) ∷ m) h = ground (arith, has_of_occurs k m)

  pub lookup_of_has : (k : String) (m : Map V) → has k m ≡ true → (v : V) × (lookup k m ≡ some v)
  unfolding has lookup
  lookup_of_has k [] h = absurd (elim (true_false h) [ ])
    where
      true_false : false ≡ true → ⊥
      true_false e = cc
  lookup_of_has k ((j, v) ∷ m) h = elim (Bool-cases (j == k)) [
    | inl e ↦ (v, rw e)
    | inr e ↦ rw e (lookup_of_has k m (ground arith))
  ]

  pub lookup-eq-some-has : (k : String) (m : Map V) (v : V) → lookup k m ≡ some v → has k m ≡ true
  unfolding has lookup
  lookup-eq-some-has k [] v h = cc
  lookup-eq-some-has k ((j, w) ∷ m) v h = ground (arith, lookup-eq-some-has k m v)

  pub occurs-put_new :
      (k j : String) (v : V) (m : Map V)
      → has k m ≡ false
      → occurs j (keys (put k v m)) ≡ occurs j (keys m) + (if k == j then 1 else 0)
  unfolding has put
  occurs-put_new k j v [] h = ground arith
  occurs-put_new k j v ((i, w) ∷ m) h = ground (arith, occurs-put_new k j v m)

  pub keys-put_old : (k : String) (v : V) (m : Map V) → has k m ≡ true → keys (put k v m) ≡ keys m
  unfolding has put
  keys-put_old k v [] h = cc
  keys-put_old k v ((i, w) ∷ m) h = ground (arith, keys-put_old k v m)

  pub occurs-delete :
      (k j : String) (m : Map V)
      → occurs j (keys (delete k m)) ≡ (if k == j then 0 else occurs j (keys m))
  unfolding delete
  occurs-delete k j [] = ground arith
  occurs-delete k j ((i, w) ∷ m) = elim (Bool-cases (i == k)) [
    | inl e ↦ rw (==→eq i k e, ==_refl k) (ground (arith, occurs-delete k j m))
    | inr e ↦ elim (Bool-cases (k == j)) [
      | inl f ↦ rw (e, f) (ground (arith, occurs-delete k j m, rw (==→eq k j f) at e))
      | inr f ↦ rw (e, f) (ground (arith, occurs-delete k j m))
    ]
  ]

  pub occurs-delete_all :
      (ks : List String) (j : String) (m : Map V)
      → (0 < occurs j ks → occurs j (keys (delete_all ks m)) ≡ 0)
        × (occurs j ks ≡ 0 → occurs j (keys (delete_all ks m)) ≡ occurs j (keys m))
  unfolding delete_all
  occurs-delete_all [] j m = (λ h. absurd (omega arith), λ _. refl)
  occurs-delete_all (k ∷ ks) j m =
      ground (arith, occurs-delete_all ks j (delete k m), occurs-delete k j m)

  pub length-delete-le : (k : String) (m : Map V) → length (delete k m) ≤ length m
  unfolding delete
  length-delete-le k [] = omega arith
  length-delete-le k ((j, v) ∷ m) = ground (arith, length-delete-le k m)

  pub length-delete-has : (k : String) (m : Map V) → has k m ≡ true → length (delete k m) < length m
  unfolding delete has
  length-delete-has k [] h = cc
  length-delete-has k ((j, v) ∷ m) h = ground (arith, length-delete-le k m, length-delete-has k m)

  pub length-delete_all-le : (ks : List String) (m : Map V) → length (delete_all ks m) ≤ length m
  unfolding delete_all
  length-delete_all-le [] m = omega arith
  length-delete_all-le (k ∷ ks) m =
      omega (arith, length-delete_all-le ks (delete k m), length-delete-le k m)

module _ {ℓ} {V : Type ℓ} where
  pub count-delete-le :
      (p : String × V → Bool) (k : String) (m : Map V) → count p (delete k m) ≤ count p m
  unfolding delete
  count-delete-le p k [] = omega arith
  count-delete-le p k ((j, v) ∷ m) = ground (arith, count-delete-le p k m)

  pub count-delete_all-le :
      (p : String × V → Bool) (ks : List String) (m : Map V) → count p (delete_all ks m) ≤ count p m
  unfolding delete_all
  count-delete_all-le p [] m = omega arith
  count-delete_all-le p (k ∷ ks) m =
      omega (arith, count-delete_all-le p ks (delete k m), count-delete-le p k m)

  pub occurs-keys : (k : String) (m : Map V) → occurs k (keys m) ≡ count (λ e. e.0 == k) m
  occurs-keys k [] = refl
  occurs-keys k ((j, v) ∷ m) = ground (arith, occurs-keys k m)

module _ {ℓ} {V : Type ℓ} where
  pub lookup-delete :
      (k j : String) (m : Map V) → lookup j (delete k m) ≡ (if k == j then none else lookup j m)
  unfolding lookup delete
  lookup-delete k j [] = ground arith
  lookup-delete k j ((i, w) ∷ m) =
      ground (arith, lookup-delete k j m, ==_join i k j, ==_sym i k, ==_trans k i j)

  -- What is found after deletions was there before them.
  pub lookup_of_delete_all :
      (ks : List String) (j : String) (m : Map V) (v : V)
      → lookup j (delete_all ks m) ≡ some v
      → lookup j m ≡ some v
  unfolding delete_all
  lookup_of_delete_all [] j m v h = h
  lookup_of_delete_all (k ∷ ks) j m v h =
      ground (arith, lookup_of_delete_all ks j (delete k m) v h, lookup-delete k j m)

  pub occurs-pos_of_has : (k : String) (m : Map V) → has k m ≡ true → 0 < occurs k (keys m)
  unfolding has
  occurs-pos_of_has k [] h = cc
  occurs-pos_of_has k ((j, v) ∷ m) h = ground (arith, occurs-pos_of_has k m)

-- What a key of a map of lists holds, after `p` is put behind it.
abbrev pub with_last {ℓ} : {A : Type ℓ} → A → Option (List A) → List A
with_last p none = p ∷ []
with_last p (some val) = val ++ p ∷ []

-- The body of the methods `Add` of the maps of lists.
unfoldable pub append_at {ℓ} : {A : Type ℓ} → String → A → Map (List A) → Map (List A)
unfolding put lookup
append_at k p m = put k (with_last p (lookup k m)) m

pub lookup-append_at {ℓ} :
    {A : Type ℓ} (k j : String) (p : A) (m : Map (List A))
    → lookup j (append_at k p m) ≡ (if k == j then some (with_last p (lookup j m)) else lookup j m)
unfolding append_at
lookup-append_at k j p m = elim (Bool-cases (k == j)) [
  | inl e ↦ rw (lookup-put k j (with_last p (lookup k m)) m, ==→eq k j e, ==_refl j) refl
  | inr e ↦ rw (lookup-put k j (with_last p (lookup k m)) m, e) refl
]

pub has-lookup-none {ℓ} :
    {V : Type ℓ} (k : String) (m : Map V) → lookup k m ≡ none → has k m ≡ false
has-lookup-none k m h = elim (Bool-cases (has k m)) [
  | inr n ↦ n
  | inl y ↦ let (v, e) = lookup_of_has k m y in cc
]
