-- ===== src/Package/Names.antt =====
-- The texts that name a package: PackageName and HumanReadableString, which
-- pkg/package/package_thin.go and pkg/package/package.go define alike, and the two functions of
-- Go's `strings` that ToGentooPackage calls.
use Prim.Native.Char.{Char, code}
use Prim.Native.String.{[], ◌∷◌, ◌++◌}
use luet.Prelude.{String, Bool, ◌&&◌, ◌||◌, not, ◌==◌, nat_eq, if◌then◌else◌}

-- "%s/%s" of category and name, or the one that is not empty
unfoldable pub package_name : (category name : String) → String
unfolding ◌==◌
package_name category name =
    if not (category == "") && not (name == "")
    then category ++ ("/" ++ name)
    else if not (category == "")
    then category
    else name

-- "%s/%s-%s"
unfoldable pub human_readable : (category name version : String) → String
human_readable category name version = category ++ ("/" ++ (name ++ ("-" ++ version)))

-- `><=!`, the cutset of ToGentooPackage
is_selector_char : Char → Bool
is_selector_char c =
    nat_eq (code c) b'>' || nat_eq (code c) b'<' || nat_eq (code c) b'=' || nat_eq (code c) b'!'

trim_left : String → String
unfolding is_selector_char
trim_left [] = []
trim_left (c ∷ s) = if is_selector_char c then trim_left s else c ∷ s

trim_right : String → String
unfolding is_selector_char ◌==◌
trim_right [] = []
trim_right (c ∷ s) =
    let rest = trim_right s in if is_selector_char c && rest == "" then [] else c ∷ rest

-- strings.Trim(version, "><=!")
unfoldable pub trim_selector : String → String
unfolding trim_left trim_right
trim_selector s = trim_right (trim_left s)
