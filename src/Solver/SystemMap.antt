-- ===== src/Solver/SystemMap.antt =====
-- The system map of prepareConflictsAndSystemMap (pkg/v2/solver/solver.go): the installed packages
-- under their names.
use mathlib.Core.List.{Perm, filter_map}
use mathlib.Core.List.Perm
use luet.Prelude.{
  ℕ, ◌≡◌, refl, sym, ◌∙◌, ap, subst, String, Bool, true, false, Option, none, some, List, [], ◌∷◌,
  ◌++◌, arith, if◌then◌else◌, ◌==◌, ◌||◌, any, all, not, is_empty, head?, Bool-cases, Option-cases,
  inl, inr, ==→eq, all-perm, any-append, All, All-append, Member, All-of_Member, ◌⊎◌,
  some_injective,
}
use luet.GoMap.{
  lookup, has, put, append_at, with_last, lookup-append_at, has-put, has-lookup-none,
  lookup-eq-some-has,
}
use luet.Runtime.{GoRuntime}
use luet.Result.{ok, ok_injective}
use luet.Operations.{first}
use luet.Package.Default.{DefaultPackage, name_of}
use luet.Solver.{Solver, PkgsMapList}
use luet.Solver.Conflicts.{register, register_all, prepare_conflicts_and_system_map}
use luet.Solver.Orphans.{firsts}

-- The packages that are the first of their name, behind those of `seen`.
unfoldable pub first_of_names : (seen world : List DefaultPackage) → List DefaultPackage
first_of_names seen [] = seen
first_of_names seen (p ∷ world) =
    first_of_names (if any (λ q. name_of q == name_of p) seen then seen else seen ++ p ∷ []) world

abbrev leader : String × List DefaultPackage → Option DefaultPackage
leader e = head? e.1

abbrev filled : String × List DefaultPackage → Bool
filled e = not (is_empty e.1)

-- The first packages of the entries.
abbrev pub leaders : PkgsMapList → List DefaultPackage
leaders m = filter_map leader m

-- Each entry has packages; `seen` are the first ones, and their names are the keys.
pub record IsFilled (m : PkgsMapList) (seen : List DefaultPackage) : Type 0 where
  pub full : all filled m ≡ true
  pub first_ones : leaders m ≡ seen
  pub names : (k : String) → has k m ≡ any (λ q. name_of q == k) seen

module _ (k : String) (p : DefaultPackage) where
  leaders-put_new :
      (m : PkgsMapList) → has k m ≡ false → leaders (put k (p ∷ []) m) ≡ leaders m ++ p ∷ []
  unfolding has put filter_map
  leaders-put_new [] h = refl
  leaders-put_new ((j, []) ∷ m) h = elim (Bool-cases (j == k)) [
    | inl e ↦ cc (rw e at h)
    | inr e ↦ rw e (leaders-put_new m (rw e at h))
  ]
  leaders-put_new ((j, q ∷ l) ∷ m) h = elim (Bool-cases (j == k)) [
    | inl e ↦ cc (rw e at h)
    | inr e ↦ rw e (cc (leaders-put_new m (rw e at h)))
  ]

  leaders-put_old :
      (m : PkgsMapList) (q : DefaultPackage) (l l' : List DefaultPackage)
      → lookup k m ≡ some (q ∷ l)
      → leaders (put k (q ∷ l') m) ≡ leaders m
  unfolding lookup put filter_map
  leaders-put_old [] q l l' h = cc
  leaders-put_old ((j, []) ∷ m) q l l' h = elim (Bool-cases (j == k)) [
    | inl e ↦ cc (rw e at h)
    | inr e ↦ rw e (leaders-put_old m q l l' (rw e at h))
  ]
  leaders-put_old ((j, x ∷ v) ∷ m) q l l' h = elim (Bool-cases (j == k)) [
    | inl e ↦ rw e (cc (rw e at h))
    | inr e ↦ rw e (cc (leaders-put_old m q l l' (rw e at h)))
  ]

  full-put :
      (m : PkgsMapList) (v : List DefaultPackage)
      → all filled m ≡ true
      → not (is_empty v) ≡ true
      → all filled (put k v m) ≡ true
  unfolding put
  full-put [] v h n = ground arith
  full-put ((j, w) ∷ m) v h n = ground (arith, full-put m v)

  full-lookup :
      (m : PkgsMapList)
      → all filled m ≡ true
      → has k m ≡ true
      → (q : DefaultPackage) × (l : List DefaultPackage) × (lookup k m ≡ some (q ∷ l))
  unfolding has lookup
  full-lookup [] f h = cc
  full-lookup ((j, []) ∷ m) f h = cc
  full-lookup ((j, q ∷ l) ∷ m) f h = elim (Bool-cases (j == k)) [
    | inl e ↦ (q, l, rw e refl)
    | inr e ↦ rw e (full-lookup m (ground arith) (rw e at h))
  ]

abbrev pub with_name : List DefaultPackage → DefaultPackage → List DefaultPackage
with_name seen p = if any (λ q. name_of q == name_of p) seen then seen else seen ++ p ∷ []

IsFilled-append_at :
    (m : PkgsMapList) (seen : List DefaultPackage) (p : DefaultPackage)
    → IsFilled m seen
    → IsFilled (append_at (name_of p) p m) (with_name seen p)
unfolding append_at
IsFilled-append_at m seen p h = elim (Option-cases (lookup (name_of p) m)) [
  | inl e ↦
      let n = has-lookup-none (name_of p) m e in
      rw (sym (h.names (name_of p)) ∙ n) (
        rw e (record {
          full = full-put (name_of p) p m (p ∷ []) h.full refl;
          first_ones = leaders-put_new (name_of p) p m n ∙ ap (λ l. l ++ p ∷ []) h.first_ones;
          names = λ k.
              has-put (name_of p) k (p ∷ []) m
              ∙ rw (any-append (λ q. name_of q == k) seen (p ∷ [])) (ground (arith, h.names k));
        }))
  | inr (v, e) ↦
      let y = lookup-eq-some-has (name_of p) m v e in
      let (q, l, found) = full-lookup (name_of p) p m h.full y in
      rw (sym (h.names (name_of p)) ∙ y) (
        rw found (record {
          full = full-put (name_of p) p m (q ∷ l ++ p ∷ []) h.full refl;
          first_ones = leaders-put_old (name_of p) p m q l (l ++ p ∷ []) found ∙ h.first_ones;
          names = λ k. has-put (name_of p) k (q ∷ l ++ p ∷ []) m ∙ same k y;
        }))
]
  where
    same :
        (k : String)
        → has (name_of p) m ≡ true
        → (if name_of p == k then true else has k m) ≡ any (λ q. name_of q == k) seen
    same k y = elim (Bool-cases (name_of p == k)) [
      | inl e ↦ rw e (rw (sym (==→eq (name_of p) k e)) (sym y ∙ h.names (name_of p)))
      | inr e ↦ rw e (h.names k)
    ]

system_map-register_all :
    (b : Bool) (world : List DefaultPackage) (s : Solver) (seen : List DefaultPackage)
    → IsFilled s.system_map seen
    → IsFilled (register_all b world s).system_map (first_of_names seen world)
unfolding register_all register first_of_names
system_map-register_all b [] s seen h = h
system_map-register_all b (p ∷ world) s seen h =
    system_map-register_all b world (register b p s) (with_name seen p)
      (IsFilled-append_at s.system_map seen p h)

-- After prepareConflictsAndSystemMap the system map has the installed packages under their names.
pub system_map-IsFilled :
    (b : Bool) (world : List DefaultPackage) (s : Solver)
    → IsFilled (prepare_conflicts_and_system_map world b s).system_map (first_of_names [] world)
unfolding prepare_conflicts_and_system_map has filter_map
system_map-IsFilled b world s =
    system_map-register_all b world _ []
      (record { full = refl; first_ones = refl; names = λ k. refl })

firsts-leaders : (m : PkgsMapList) → all filled m ≡ true → firsts m ≡ ok (leaders m)
unfolding firsts filter_map
firsts-leaders [] h = refl
firsts-leaders ((k, []) ∷ m) h = cc
firsts-leaders ((k, p ∷ l) ∷ m) h = rw (firsts-leaders m (ground arith)) refl

-- p[0] of the entries in the order of a range: no entry is empty, and they are the first packages.
pub firsts-range :
    (rt : GoRuntime) (n : ℕ) (m : PkgsMapList) (seen : List DefaultPackage)
    → IsFilled m seen
    → (firsts (rt.range n m) ≡ ok (leaders (rt.range n m))) × Perm (leaders (rt.range n m)) seen
firsts-range rt n m seen h = (
  firsts-leaders (rt.range n m) (all-perm filled (rt.range_perm n m) ∙ h.full),
  subst (Perm (leaders (rt.range n m))) h.first_ones (Perm.filter_map leader (rt.range_perm n m)),
)

any-first_of_names :
    (k : String) (seen world : List DefaultPackage)
    → any (λ q. name_of q == k) (first_of_names seen world)
      ≡ (any (λ q. name_of q == k) seen || any (λ q. name_of q == k) world)
unfolding first_of_names
any-first_of_names k seen [] = ground arith
any-first_of_names k seen (p ∷ world) = elim (Bool-cases (any (λ q. name_of q == name_of p) seen)) [
  | inl e ↦
      rw (first_of_names, e)
        (any-first_of_names k seen world ∙ known (Bool-cases (name_of p == k)) e)
  | inr e ↦
      rw (first_of_names, e)
        (any-first_of_names k (seen ++ p ∷ []) world
          ∙ rw (any-append (λ q. name_of q == k) seen (p ∷ [])) (ground arith))
]
  where
    known :
        ((name_of p == k) ≡ true) ⊎ ((name_of p == k) ≡ false)
        → any (λ q. name_of q == name_of p) seen ≡ true
        → (any (λ q. name_of q == k) seen || any (λ q. name_of q == k) world)
          ≡ (any (λ q. name_of q == k) seen || (name_of p == k || any (λ q. name_of q == k) world))
    known (inl y) e = rw (rw (==→eq (name_of p) k y) at e) refl
    known (inr n) e = rw n refl

-- The keys of the system map are the names of the installed packages.
pub has-system_map :
    (b : Bool) (world : List DefaultPackage) (s : Solver) (k : String)
    → has k (prepare_conflicts_and_system_map world b s).system_map
      ≡ any (λ q. name_of q == k) world
unfolding first_of_names
has-system_map b world s k = (system_map-IsFilled b world s).names k ∙ any-first_of_names k [] world

-- Every entry has packages with the property only.
abbrev IsAllOf : (DefaultPackage → Type 0) → PkgsMapList → Type 0
IsAllOf P m = (k : String) (val : List DefaultPackage) → lookup k m ≡ some val → All P val

module _ (P : DefaultPackage → Type 0) where
  All-with_last :
      (p : DefaultPackage) (o : Option (List DefaultPackage))
      → P p
      → ((val : List DefaultPackage) → o ≡ some val → All P val)
      → All P (with_last p o)
  All-with_last p none h k = (h, tt)
  All-with_last p (some val) h k = All-append P val (p ∷ []) (k val refl) (h, tt)

  IsAllOf-append_at :
      (m : PkgsMapList) (j : String) (p : DefaultPackage)
      → P p
      → IsAllOf P m
      → IsAllOf P (append_at j p m)
  IsAllOf-append_at m j p h a k val e = elim (Bool-cases (j == k)) [
    | inl y ↦
        subst (All P) (some_injective (rw (lookup-append_at j k p m, y) at e))
          (All-with_last p (lookup k m) h (a k))
    | inr n ↦ a k val (rw (lookup-append_at j k p m, n) at e)
  ]

  IsAllOf-register_all :
      (b : Bool) (world : List DefaultPackage) (s : Solver)
      → All P world
      → IsAllOf P s.system_map
      → IsAllOf P (register_all b world s).system_map
  unfolding register_all register
  IsAllOf-register_all b [] s h a = a
  IsAllOf-register_all b (p ∷ world) s h a =
      IsAllOf-register_all b world (register b p s) h.1
        (IsAllOf-append_at s.system_map (name_of p) p h.0 a)

-- The first package of an entry is an installed one.
pub Member-system_map :
    (b : Bool) (world : List DefaultPackage) (s : Solver) (k : String) (val : List DefaultPackage)
    (q : DefaultPackage)
    → lookup k (prepare_conflicts_and_system_map world b s).system_map ≡ some val
    → first val ≡ ok q
    → Member q world
unfolding prepare_conflicts_and_system_map lookup
Member-system_map b world s k val q e f = head_of val f (
    IsAllOf-register_all (λ p. Member p world) b world _ (All-of_Member _ world (λ p m. m))
      (λ j v h. cc) k val e)
  where
    head_of :
        (val : List DefaultPackage)
        → first val ≡ ok q
        → All (λ p. Member p world) val
        → Member q world
    head_of [] f a = cc
    head_of (p ∷ l) f a = subst (λ u. Member u world) (ok_injective f) a.0
