-- ===== src/Package/Tests.antt =====
-- A package with a require and a conflict, and a package that both name or let in.
use luet.Prelude.{◌≡◌, refl, String, true, false, List, [], ◌∷◌, ◌==◌, all}
use luet.Result.{ok}
use luet.Package.Names.{package_name, trim_selector}
use luet.Package.Default.{
  DefaultPackage, pkg, nil, of_list, get_requires, get_conflicts, atom_matches, to_gentoo_package,
  name_of, has_provides,
}
use luet.Package.Admit.{admit}
use luet.Package.Admitted.{lets_in, admit_sound}
use luet.Samples.{plain_gentoo}

abbrev entry : String → String → (requires conflicts : List DefaultPackage) → DefaultPackage
entry n v rs cs =
    pkg
      (record {
        name = n;
        category = "cat";
        version = v;
        repository = "main";
        license = "";
        use_flags = [];
      })
      (of_list rs) (of_list cs) nil

abbrev app : DefaultPackage
app = entry "app" "1" (entry "lib" ">=1" [] [] ∷ []) (entry "bad" ">=0" [] [] ∷ [])

abbrev lib : DefaultPackage
lib = entry "lib" "2" [] []

app_admits_lib : admit plain_gentoo app lib ≡ ok true
unfolding admit to_gentoo_package atom_matches ◌==◌ name_of package_name trim_selector has_provides
app_admits_lib = refl

admit_sound_example :
    (all (lets_in plain_gentoo true lib) (get_requires app) ≡ true)
    × (all (lets_in plain_gentoo false lib) (get_conflicts app) ≡ true)
admit_sound_example = admit_sound plain_gentoo app lib app_admits_lib
