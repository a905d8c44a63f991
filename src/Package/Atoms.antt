-- ===== src/Package/Atoms.antt =====
-- Facts about AtomMatches: it is equality of name and category.
use luet.Prelude.{
  ◌≡◌, refl, true, List, [], ◌∷◌, ◌++◌, ◌||◌, arith, any-append, keep, not, ==→eq, eq→==, ◌∙◌, sym,
}
use luet.Package.Thin.{
  Thin, get_name, get_category, thin_name, atom_matches, package_thin_is_in_list,
  break_cycles_on_requires, thin, get_requires, to_list-of_list,
}

module _ (a b : Thin) where
  pub atom_matches-eq :
      atom_matches a b ≡ true → (get_name a ≡ get_name b) × (get_category a ≡ get_category b)
  unfolding atom_matches
  atom_matches-eq h =
      ground (arith, ==→eq (get_name a) (get_name b), ==→eq (get_category a) (get_category b))

  pub atom_matches_of_eq :
      get_name a ≡ get_name b → get_category a ≡ get_category b → atom_matches a b ≡ true
  unfolding atom_matches
  atom_matches_of_eq n c =
      ground (arith, eq→== (get_name a) (get_name b) n, eq→== (get_category a) (get_category b) c)

  -- Matching packages have one name.
  pub thin_name-eq : atom_matches a b ≡ true → thin_name a ≡ thin_name b
  unfolding thin_name
  thin_name-eq h = let (n, c) = atom_matches-eq h in rw (n, c)

pub atom_matches_refl : (a : Thin) → atom_matches a a ≡ true
atom_matches_refl a = atom_matches_of_eq a a refl refl

pub atom_matches_sym : (a b : Thin) → atom_matches a b ≡ true → atom_matches b a ≡ true
atom_matches_sym a b h =
    let (n, c) = atom_matches-eq a b h in atom_matches_of_eq b a (sym n) (sym c)

pub atom_matches_trans :
    (a b c : Thin) → atom_matches a b ≡ true → atom_matches b c ≡ true → atom_matches a c ≡ true
atom_matches_trans a b c h k =
    let (n, d) = atom_matches-eq a b h in
    let (m, e) = atom_matches-eq b c k in atom_matches_of_eq a c (n ∙ m) (d ∙ e)

-- A stack does not tell matching packages apart.
pub is_in_list_congr :
    (a b : Thin) (l : List Thin)
    → atom_matches a b ≡ true
    → package_thin_is_in_list a l ≡ true
    → package_thin_is_in_list b l ≡ true
unfolding package_thin_is_in_list
is_in_list_congr a b [] h k = k
is_in_list_congr a b (p ∷ l) h k =
    ground (arith, is_in_list_congr a b l h, atom_matches_trans b a p (atom_matches_sym a b h))

pub is_in_list-append :
    (a : Thin) (l m : List Thin)
    → package_thin_is_in_list a (l ++ m)
      ≡ (package_thin_is_in_list a l || package_thin_is_in_list a m)
unfolding package_thin_is_in_list
is_in_list-append a l m = any-append (λ p. atom_matches a p) l m

-- Cutting requires changes neither name nor category.
pub atom_matches-break :
    (stack : List Thin) (p : Thin) → atom_matches (break_cycles_on_requires stack p) p ≡ true
unfolding break_cycles_on_requires atom_matches
atom_matches-break stack (thin n c v r k d) = atom_matches_refl (thin n c v r k d)

pub requires-break :
    (stack : List Thin) (p : Thin)
    → get_requires (break_cycles_on_requires stack p)
      ≡ keep (λ r. not (package_thin_is_in_list r stack)) (get_requires p)
unfolding break_cycles_on_requires package_thin_is_in_list
requires-break stack (thin n c v r k d) = to_list-of_list _
