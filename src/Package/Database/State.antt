-- ===== src/Package/Database/State.antt =====
-- The maps of InMemoryDatabase (pkg/package/database_mem.go), the records of pkg/package/database.go, and
-- the keys of a package.
use Prim.Native.Char.{code}
use Prim.Native.String.{[], ◌∷◌, ◌++◌}
use luet.Prelude.{
  ℕ, String, Bool, true, false, Option, none, some, List, ◌||◌, nat_eq, if◌then◌else◌, ◌≡◌,
}
use luet.Prelude
use luet.GoMap.{Map}
use luet.Package.Default.{DefaultPackage, fields, get_version}

-- The JSON and base64 libraries, and the version library behind ValidateSelector.
pub record Codec : Type 1 where
  -- the base64 text of the JSON bytes
  pub Encoded : Type 0
  pub encode : DefaultPackage → Option Encoded
  pub decode : Encoded → Option DefaultPackage
  pub validate_selector : (version selector : String) → Bool

-- What is encoded decodes to the package again.
pub record IsRoundTrip (c : Codec) : Type 0 where
  pub decodes : (p : DefaultPackage) (e : c.Encoded) → c.encode p ≡ some e → c.decode e ≡ some p

pub record PackageFinalizer : Type 0 where
  pub package_fingerprint : String
  pub shell : List String
  pub install : List String
  pub uninstall : List String

pub record PackageFile : Type 0 where
  pub package_fingerprint : String
  pub files : List String

-- `none` is a nil map of finalizers.
pub record InMemoryDatabase (c : Codec) : Type 0 where
  pub database : Map c.Encoded
  pub file_database : Map (List String)
  pub finalizer_database : Option (Map PackageFinalizer)
  pub cache_no_version : Map (Map DefaultPackage)
  pub provides_database : Map (Map DefaultPackage)
  pub rev_deps_database : Map (Map DefaultPackage)
  pub cached : Map Bool

-- NewInMemoryDatabase: only the singleton has a map of finalizers.
unfoldable pub new_in_memory_database : (c : Codec) → (singleton : Bool) → InMemoryDatabase c
new_in_memory_database c singleton = record {
  database = luet.Prelude.[];
  file_database = luet.Prelude.[];
  finalizer_database = if singleton then some luet.Prelude.[] else none;
  cache_no_version = luet.Prelude.[];
  provides_database = luet.Prelude.[];
  rev_deps_database = luet.Prelude.[];
  cached = luet.Prelude.[];
}

-- "%s-%s-%s" of name, category and version
unfoldable pub finger_print : DefaultPackage → String
finger_print p = (fields p).name ++ ("-" ++ ((fields p).category ++ ("-" ++ (fields p).version)))

-- "%s-%s" of name and category
unfoldable pub get_package_name : DefaultPackage → String
get_package_name p = (fields p).name ++ ("-" ++ (fields p).category)

-- strings.ContainsAny(version, "<>=")
contains_selector : String → Bool
contains_selector [] = false
contains_selector (c ∷ s) =
    nat_eq (code c) b'<' || (nat_eq (code c) b'>' || (nat_eq (code c) b'=' || contains_selector s))

unfoldable pub is_selector : DefaultPackage → Bool
unfolding contains_selector
is_selector p = contains_selector (get_version p)
