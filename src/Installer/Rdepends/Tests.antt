-- ===== src/Installer/Rdepends/Tests.antt =====
-- A run of ResolveRuntime on installed packages whose requires form a cycle.
use luet.Prelude.{
  ℕ, ◌≤◌, true, String, ◌≡◌, refl, List, [], ◌∷◌, length, Member, at_head, in_tail, All,
}
use luet.GoMap.{occurs}
use luet.Result.{ok}
use luet.Package.Default.{DefaultPackage, pkg, nil, of_list, name_of}
use luet.Installer.Rdepends.{resolve_runtime}
use luet.Installer.Rdepends.Users.{uses}
use luet.Installer.Rdepends.Visits.{package_names}
use luet.Installer.Rdepends.Reached.{
  Reach, here, next, resolve_runtime-Reach, occurs-resolve_runtime,
}

abbrev entry : String → (requires provides : List DefaultPackage) → DefaultPackage
entry n rs ps =
    pkg
      (record {
        name = n;
        category = "cat";
        version = "1";
        repository = "main";
        license = "";
        use_flags = [];
      })
      (of_list rs) nil (of_list ps)

abbrev lib : DefaultPackage
lib = entry "lib" (entry "app" [] [] ∷ []) []

abbrev app : DefaultPackage
app = entry "app" (entry "lib" [] [] ∷ []) []

-- It provides the name of "app".
abbrev fork : DefaultPackage
fork = entry "fork" [] (entry "app" [] [] ∷ [])

abbrev other : DefaultPackage
other = entry "other" (entry "base" [] [] ∷ []) []

abbrev system : List DefaultPackage
system = lib ∷ app ∷ other ∷ fork ∷ []

three_matches : resolve_runtime lib system ≡ ok (lib ∷ app ∷ fork ∷ [])
unfolding resolve_runtime luet.Installer.Rdepends.is_resolved luet.GoMap.has luet.GoMap.lookup
    luet.Installer.Rdepends.rdeps_map luet.GoMap.append_at luet.Prelude.◌==◌ name_of
    luet.Package.Names.package_name luet.Installer.Rdepends.add_match
    luet.Installer.Rdepends.set_resolved
three_matches = refl

resolve_runtime-Reach_example :
    (ans : List DefaultPackage) × (resolve_runtime lib system ≡ ok ans)
    × All (Reach lib system) ans
    × ((k : String) → occurs k (package_names ans) ≤ 1)
resolve_runtime-Reach_example = resolve_runtime-Reach lib system

uses-app : uses (name_of app) fork ≡ true
unfolding uses luet.Prelude.◌==◌ name_of luet.Package.Names.package_name
uses-app = refl

uses-lib : uses (name_of lib) app ≡ true
unfolding uses luet.Prelude.◌==◌ name_of luet.Package.Names.package_name
uses-lib = refl

fork-Reach : Reach lib system fork
fork-Reach =
    next (next here (in_tail at_head) uses-lib) (in_tail (in_tail (in_tail at_head))) uses-app

occurs-resolve_runtime_example :
    (ans : List DefaultPackage) × (resolve_runtime lib system ≡ ok ans)
    × (occurs (name_of fork) (package_names ans) ≡ 1)
occurs-resolve_runtime_example = occurs-resolve_runtime lib system fork-Reach
