-- ===== src/Operations/Tests.antt =====
-- Runs of OrderOperations on a transaction of four packages.
use luet.Prelude.{
  ℕ, ◌≡◌, refl, String, true, false, none, some, List, [], ◌∷◌, ◌==◌, all, if◌then◌else◌, count,
}
use luet.GoMap.{has, lookup, put, append_at, delete_all, occurs}
use luet.Package.Names.{package_name}
use luet.Package.Admit.{admit}
use luet.Result.{ok}
use luet.Package.Thin.{
  Thin, ThinList, thin, of_list as of_thins, has_requires, thin_name, require_package, atom_matches,
}
use luet.Package.Default.{DefaultPackage, pkg, nil, of_list, name_of, to_package_thin}
use luet.Artifact.{PackageArtifact, runtime, to_map, get_package, artifact_name}
use luet.Artifact.Grouping.{artifact_names}
use luet.Operations.{
  Operation, new_operation, add_package, update_package, remove_package, order_operations,
  create_thin_pkgs_plist,
}
use luet.Operations.Changes.{changes}
use luet.Operations.Removals.{removes_name, removed_first}
use luet.Operations.Plan.{operation_names}
use luet.Operations.Merging.{well_chosen}
use luet.Operations.Behind.{IsBehind}
use luet.Operations.Correct.{order_operations-returns, order_operations-IsBehind, merged_plist}
use luet.Sort.{sort_pkgs_thin_arr, drain, visit, sweep_queue, round, watch}
use luet.Sort.Less.{sort_package_thin_list_4_requires}
use luet.Sort.Conserve.{thin_names}
use luet.Samples.{in_order, plain_gentoo}

abbrev entry : String → String → List DefaultPackage → DefaultPackage
entry n v rs =
    pkg
      (record {
        name = n;
        category = "cat";
        version = v;
        repository = "main";
        license = "";
        use_flags = [];
      })
      (of_list rs) nil nil

abbrev art : DefaultPackage → PackageArtifact
art p = record { path = ""; packages = runtime p none }

abbrev app : PackageArtifact
app = art (entry "app" "1" (entry "lib" ">=1" [] ∷ entry "base" ">=0" [] ∷ []))

abbrev lib : PackageArtifact
lib = art (entry "lib" "2" [])

abbrev old_lib : PackageArtifact
old_lib = art (entry "lib" "1" [])

abbrev old : PackageArtifact
old = art (entry "old" "1" [])

abbrev planned : List Operation
planned =
    new_operation remove_package old
    ∷ new_operation remove_package old_lib
    ∷ new_operation update_package lib
    ∷ new_operation add_package app
    ∷ []

program : Unit {0}
unfolding sort_pkgs_thin_arr drain sort_package_thin_list_4_requires has_requires thin_name
    package_name visit has put lookup append_at delete_all sweep_queue round watch require_package
    atom_matches ◌==◌ order_operations get_package artifact_name to_map name_of to_package_thin
    create_thin_pkgs_plist admit
program = tt

order_run :
    order_operations plain_gentoo in_order
      (some (app ∷ []))
      (some (lib ∷ []))
      (some (old_lib ∷ old ∷ []))
    ≡ ok planned
unfolding program
order_run = refl

abbrev no_thins : ThinList
no_thins = of_thins []

abbrev sorted_order : List Thin
sorted_order =
    thin "lib" "cat" "2" no_thins no_thins no_thins
    ∷ thin "app" "cat" "1" (of_thins (thin "lib" "cat" ">=1" no_thins no_thins no_thins ∷ []))
        no_thins no_thins
    ∷ []

order_sorted : sort_pkgs_thin_arr in_order (merged_plist (app ∷ []) (lib ∷ [])) ≡ ok sorted_order
unfolding program
order_sorted = refl

order_operations-returns_example :
    (ops : List Operation) × (order_operations plain_gentoo in_order
        (some (app ∷ []))
        (some (lib ∷ []))
        (some (old_lib ∷ old ∷ []))
      ≡ ok ops)
    × (operation_names (changes ops) ≡ thin_names sorted_order)
    × (all (well_chosen (app ∷ [])) (changes ops) ≡ true)
    × ((k : String) → count (removes_name k) ops ≡ occurs k (artifact_names (old_lib ∷ old ∷ [])))
    × (removed_first (λ k. has k (to_map (old_lib ∷ old ∷ []))) (λ _. false) ops ≡ true)
unfolding program
order_operations-returns_example =
    order_operations-returns plain_gentoo in_order (app ∷ []) (lib ∷ []) (old_lib ∷ old ∷ [])
      sorted_order refl refl refl order_sorted

abbrev app_last : String → ℕ
app_last n = if n == "cat/app" then 1 else 0

order_operations-IsBehind_example :
    (ops : List Operation) × (order_operations plain_gentoo in_order
        (some (app ∷ []))
        (some (lib ∷ []))
        (some (old_lib ∷ old ∷ []))
      ≡ ok ops)
    × IsBehind (app ∷ lib ∷ []) [] (changes ops)
    × ((k : String)
        → occurs k (operation_names (changes ops)) ≡ occurs k (artifact_names (app ∷ lib ∷ [])))
    × ((k : String) → count (removes_name k) ops ≡ occurs k (artifact_names (old_lib ∷ old ∷ [])))
    × (removed_first (λ k. has k (to_map (old_lib ∷ old ∷ []))) (λ _. false) ops ≡ true)
unfolding program
order_operations-IsBehind_example =
    order_operations-IsBehind plain_gentoo in_order (app ∷ []) (lib ∷ []) (old_lib ∷ old ∷ [])
      app_last refl refl refl refl
