-- ===== src/Package/Default.antt =====
-- DefaultPackage of pkg/package/package.go: the fields that the solver reads, and its methods.
use text.Mathlib.Text.{starts_with}
use Prim.Native.String.{◌++◌ as str_append}
use luet.Prelude.{
  String, Bool, Option, none, some, List, [], ◌∷◌, ◌&&◌, ◌==◌, if◌then◌else◌, ltb, length,
}
use luet.Result.{Result, ok, err, gentoo_error}
use luet.Gentoo.{
  Gentoo, PackageCond, invalid, greater_equal, less_equal, not_equal, equal_to, greater, less,
}
use luet.Package.Names.{package_name, human_readable, trim_selector}
use luet.Package.Thin
use luet.Package.Thin.{Thin, ThinList, thin}

-- The scalar fields.
pub record Fields : Type 0 where
  pub name : String
  pub category : String
  pub version : String
  pub repository : String
  pub license : String
  pub use_flags : List String

-- A package holds lists of packages: PackageRequires, PackageConflicts and Provides.
mutual
  pub data DefaultPackage : Type 0 where
    pkg : Fields → (requires conflicts provides : PackageList) → DefaultPackage

  pub data PackageList : Type 0 where
    nil : PackageList
    cons : DefaultPackage → PackageList → PackageList

abbrev pub to_list : PackageList → List DefaultPackage
to_list nil = []
to_list (cons p l) = p ∷ to_list l

abbrev pub of_list : List DefaultPackage → PackageList
of_list [] = nil
of_list (p ∷ l) = cons p (of_list l)

abbrev pub fields : DefaultPackage → Fields
fields (pkg f requires conflicts provides) = f

abbrev pub get_requires : DefaultPackage → List DefaultPackage
get_requires (pkg f requires conflicts provides) = to_list requires

abbrev pub get_conflicts : DefaultPackage → List DefaultPackage
get_conflicts (pkg f requires conflicts provides) = to_list conflicts

abbrev pub get_provides : DefaultPackage → List DefaultPackage
get_provides (pkg f requires conflicts provides) = to_list provides

abbrev pub get_version : DefaultPackage → String
get_version p = (fields p).version

-- (p *DefaultPackage) PackageName
unfoldable pub name_of : DefaultPackage → String
name_of p = package_name (fields p).category (fields p).name

unfoldable pub human_readable_string : DefaultPackage → String
human_readable_string p = human_readable (fields p).category (fields p).name (fields p).version

unfoldable pub has_requires : DefaultPackage → Bool
has_requires p = ltb 0 (length (get_requires p))

unfoldable pub has_provides : DefaultPackage → Bool
has_provides p = ltb 0 (length (get_provides p))

unfoldable pub atom_matches : DefaultPackage → DefaultPackage → Bool
atom_matches p m = (fields p).name == (fields m).name && (fields p).category == (fields m).category

abbrev first_named : String → List DefaultPackage → Option DefaultPackage
first_named pname [] = none
first_named pname (prov ∷ l) = if name_of prov == pname then some prov else first_named pname l

unfoldable pub get_provide_package : DefaultPackage → String → Option DefaultPackage
get_provide_package p pname = if has_provides p then first_named pname (get_provides p) else none

abbrev pub new_package_with_cat_thin : (category name version : String) → DefaultPackage
new_package_with_cat_thin category name version =
    pkg
      (record {
        name = name;
        category = category;
        version = version;
        repository = "";
        license = "";
        use_flags = [];
      })
      nil nil nil

unfoldable mutual
  pub to_package_thin : DefaultPackage → Thin
  to_package_thin (pkg f requires conflicts provides) =
      thin f.name f.category f.version (to_thins requires) (to_thins conflicts) (to_thins provides)

  pub to_thins : PackageList → ThinList
  to_thins nil = Thin.nil
  to_thins (cons p l) = Thin.cons (to_package_thin p) (to_thins l)

-- The condition that the version begins with.
unfoldable pub version_cond : String → PackageCond
version_cond v =
    if starts_with v ">="
    then greater_equal
    else if starts_with v "<="
    then less_equal
    else if starts_with v "!="
    then not_equal
    else if starts_with v "="
    then equal_to
    else if starts_with v ">"
    then greater
    else if starts_with v "<"
    then less
    else invalid

module _ (g : Gentoo) where
  open g use {GentooPackage, parse_package_str, set_fields}

  unfoldable pub to_gentoo_package : DefaultPackage → Result GentooPackage
  to_gentoo_package p =
      elim (parse_package_str
        (str_append (name_of p) (str_append "-" (trim_selector (get_version p))))) [
          | none ↦ err gentoo_error
          | some ans ↦ ok (
              set_fields (version_cond (get_version p)) (fields p).repository (fields p).license
                (fields p).use_flags ans)
        ]
