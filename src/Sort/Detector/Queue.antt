-- ===== src/Sort/Detector/Queue.antt =====
-- The queue of sortPkgsThinArr, as the cycle detector changes it.
use luet.Prelude.{
  ◌≡◌, ◌∙◌, sym, refl, String, Bool, true, some, List, [], ◌∷◌, arith, not, ◌==◌, any, all, count,
  ==→eq, eq→==, Bool-cases, inl, inr, if◌then◌else◌, keep,
}
use luet.GoMap.{keys, put, lookup, lookup-put, keys-put_old, lookup-eq-some-has}
use luet.Package.Thin.{
  Thin, thin, get_requires, thin_name, atom_matches, break_cycles_on_requires, to_list-of_list,
}
use luet.Package.Atoms.{atom_matches_trans, atom_matches_sym, thin_name-eq, atom_matches-break}
use luet.Sort.Detector.{Queue}

-- Every package of the queue stands under its own name.
abbrev pub misplaced : String × Thin → Bool
misplaced e = not (e.0 == thin_name e.1)

abbrev pub IsKeyed : Queue → Type 0
IsKeyed q = count misplaced q ≡ 0

pub lookup-keyed :
    (q : Queue) (n : String) (t : Thin) → IsKeyed q → lookup n q ≡ some t → thin_name t ≡ n
unfolding lookup
lookup-keyed [] n t h e = cc
lookup-keyed ((j, v) ∷ q) n t h e = elim (Bool-cases (j == n)) [
  | inl y ↦
      let named : j ≡ thin_name v = ==→eq j (thin_name v) (ground arith) in
      ground (arith, named, ==→eq j n y)
  | inr y ↦ lookup-keyed q n t (ground arith) (rw (y, lookup) at e)
]

pub IsKeyed-put :
    (n : String) (t : Thin) (q : Queue) → thin_name t ≡ n → IsKeyed q → IsKeyed (put n t q)
unfolding put
IsKeyed-put n t [] e h = rw (eq→== n (thin_name t) (sym e)) refl
IsKeyed-put n t ((j, v) ∷ q) e h = elim (Bool-cases (j == n)) [
  | inl y ↦ rw (y, put) (ground (arith, eq→== j (thin_name t) (==→eq j n y ∙ sym e)))
  | inr y ↦ rw (y, put) (ground (arith, IsKeyed-put n t q e))
]

-- The packages that the queue held at first, and what stays true of each package in it.
abbrev pub known : List Thin → Thin → Bool
known base t = any (λ b. atom_matches b t) base

-- A require that names a package of the base is that package: category and name agree.
abbrev pub resolves : List Thin → Thin → Bool
resolves base r = all (λ b. if thin_name r == thin_name b then atom_matches r b else true) base

abbrev pub well_required : List Thin → Thin → Bool
well_required base t = all (resolves base) (get_requires t)

pub record Sound (base : List Thin) (ks : List String) (q : Queue) : Type 0 where
  pub same_keys : keys q ≡ ks
  pub keyed : IsKeyed q
  pub is_known : (n : String) (t : Thin) → lookup n q ≡ some t → known base t ≡ true
  pub required : (n : String) (t : Thin) → lookup n q ≡ some t → well_required base t ≡ true

known-congr :
    (base : List Thin) (t u : Thin)
    → atom_matches t u ≡ true
    → known base t ≡ true
    → known base u ≡ true
known-congr [] t u e h = h
known-congr (b ∷ base) t u e h = ground (arith, known-congr base t u e, atom_matches_trans b t u)

all-keep : (p k : Thin → Bool) (l : List Thin) → all p l ≡ true → all p (keep k l) ≡ true
all-keep p k [] h = refl
all-keep p k (x ∷ l) h = ground (arith, all-keep p k l)

pub well_required-break :
    (base stack : List Thin) (p : Thin)
    → well_required base p ≡ true
    → well_required base (break_cycles_on_requires stack p) ≡ true
unfolding break_cycles_on_requires
well_required-break base stack (thin n c v r k d) h =
    rw to_list-of_list (all-keep (resolves base) _ _ h)

-- Writing back a package whose cycles were broken keeps the queue sound.
pub Sound-put :
    (base : List Thin) (ks : List String) (q : Queue) (p : Thin) (stack : List Thin)
    → Sound base ks q
    → lookup (thin_name p) q ≡ some p
    → Sound base ks (put (thin_name p) (break_cycles_on_requires stack p) q)
Sound-put base ks q p stack h here =
    let p' = break_cycles_on_requires stack p in
    let same = thin_name-eq p' p (atom_matches-break stack p) in
    record {
      same_keys =
          keys-put_old (thin_name p) p' q (lookup-eq-some-has (thin_name p) q p here) ∙ h.same_keys;
      keyed = IsKeyed-put (thin_name p) p' q same h.keyed;
      is_known = λ n t e. ground (
        arith,
        lookup-put (thin_name p) n p' q,
        h.is_known n t,
        known-congr base p p' (atom_matches_sym p' p (atom_matches-break stack p)),
        h.is_known (thin_name p) p here,
      );
      required = λ n t e. ground (
        arith,
        lookup-put (thin_name p) n p' q,
        h.required n t,
        well_required-break base stack p (h.required (thin_name p) p here),
      );
    }
