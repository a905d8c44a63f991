-- ===== src/Package/Thin.antt =====
-- PackageThin of pkg/package/package_thin.go: the light copy of a package that is sorted.
use luet.Prelude.{String, ◌≡◌, refl, Bool, List, [], ◌∷◌, ◌&&◌, not, any, keep, ◌==◌, length, ltb}
use luet.Package.Names.{package_name}

-- A thin package holds lists of thin packages, so the lists are declared with it.
mutual
  pub data Thin : Type 0 where
    thin : (name category version : String) → (requires conflicts provides : ThinList) → Thin

  pub data ThinList : Type 0 where
    nil : ThinList
    cons : Thin → ThinList → ThinList

abbrev pub to_list : ThinList → List Thin
to_list nil = []
to_list (cons t l) = t ∷ to_list l

abbrev pub of_list : List Thin → ThinList
of_list [] = nil
of_list (t ∷ l) = cons t (of_list l)

pub to_list-of_list : (l : List Thin) → to_list (of_list l) ≡ l
to_list-of_list [] = refl
to_list-of_list (t ∷ l) = cc (to_list-of_list l)

abbrev pub get_name : Thin → String
get_name (thin name category version requires conflicts provides) = name

abbrev pub get_category : Thin → String
get_category (thin name category version requires conflicts provides) = category

abbrev pub get_requires : Thin → List Thin
get_requires (thin name category version requires conflicts provides) = to_list requires

-- p.Requires = requires
abbrev pub set_requires : List Thin → Thin → Thin
set_requires rs (thin name category version requires conflicts provides) =
    thin name category version (of_list rs) conflicts provides

unfoldable pub thin_name : Thin → String
thin_name t = package_name (get_category t) (get_name t)

-- A nil slice and an empty one have no elements alike.
unfoldable pub has_requires : Thin → Bool
has_requires p = ltb 0 (length (get_requires p))

unfoldable pub atom_matches : Thin → Thin → Bool
atom_matches p m = get_name p == get_name m && get_category p == get_category m

unfoldable pub require_package : Thin → Thin → Bool
require_package p m = any (λ r. atom_matches r m) (get_requires p)

-- Keeps the requires that no element of the stack matches.
unfoldable pub break_cycles_on_requires : List Thin → Thin → Thin
break_cycles_on_requires stack p =
    set_requires (keep (λ r. not (any (λ pr. atom_matches r pr) stack)) (get_requires p)) p

unfoldable pub package_thin_is_in_list : Thin → List Thin → Bool
package_thin_is_in_list p list = any (λ pp. atom_matches p pp) list
