-- ===== src/Sort/Less.antt =====
-- SortPackageThinList4Requires of pkg/package/package_thin.go.
use Prim.Native.Nat.{Ordering}
use Prim.Native.String.{compare}
use luet.Prelude.{String, Bool, true, false, List, ◌&&◌, not, length, ltb, nat_eq, if◌then◌else◌}
use luet.Runtime.{GoRuntime}
use luet.Package.Thin.{Thin, get_requires, thin_name, has_requires}

-- Go's `<` on strings. It compares bytes, which for UTF-8 is the order of the code points.
unfoldable pub str_lt : String → String → Bool
str_lt s t = elim (compare s t) [ Ordering.lt ↦ true | _ ↦ false ]

-- The function sortPkgThin, handed to sort.Slice.
unfoldable pub sort_pkg_thin : Thin → Thin → Bool
unfolding str_lt
sort_pkg_thin pi pj =
    let ireq = has_requires pi in
    let jreq = has_requires pj in
    if ireq && jreq
    then (if nat_eq (length (get_requires pi)) (length (get_requires pj))
        then str_lt (thin_name pi) (thin_name pj)
        else ltb (length (get_requires pi)) (length (get_requires pj)))
    else if not ireq && not jreq
    then str_lt (thin_name pi) (thin_name pj)
    else if not ireq
    then true
    else false

unfoldable pub sort_package_thin_list_4_requires : GoRuntime → List Thin → List Thin
unfolding sort_pkg_thin
sort_package_thin_list_4_requires rt list = rt.sort_slice sort_pkg_thin list
