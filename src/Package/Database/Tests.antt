-- ===== src/Package/Database/Tests.antt =====
-- Runs of InMemoryDatabase with a codec that keeps packages as they are.
use mathlib.Core.List.{Perm, filter_map}
use luet.Prelude.{◌≡◌, refl, String, Bool, true, false, Option, none, some, List, [], ◌∷◌, ◌==◌}
use luet.GoMap.{keys}
use luet.Samples.{in_order}
use luet.Result.{Result, ok, err, panic, no_versions_found}
use luet.Package.Default.{DefaultPackage, new_package_with_cat_thin}
use luet.Package.Database.State.{
  Codec, IsRoundTrip, InMemoryDatabase, new_in_memory_database, finger_print,
}
use luet.Package.Database.Caches.{find_package_versions}
use luet.Package.Database.{
  create_package, update_package, remove_package, clean, world, set_package_finalizer,
}
use luet.Package.Database.Views.{
  view, with_package, without_package, view-create_package, view-update_package, world-view,
}

abbrev plain : Codec
plain = record {
  Encoded = DefaultPackage;
  encode = λ p. some p;
  decode = λ p. some p;
  validate_selector = λ version selector. version == selector;
}

plain-IsRoundTrip : IsRoundTrip plain
plain-IsRoundTrip = record { decodes = λ p e h. luet.Prelude.sym h }

abbrev empty : InMemoryDatabase plain
empty = new_in_memory_database plain false

abbrev app : DefaultPackage
app = new_package_with_cat_thin "cat" "app" "1"

program : Unit {0}
unfolding create_package luet.Package.Database.Caches.populate_caches finger_print
    new_in_memory_database luet.GoMap.has luet.GoMap.put luet.GoMap.lookup luet.GoMap.delete ◌==◌
    luet.Package.Database.State.get_package_name remove_package find_package_versions
    set_package_finalizer world luet.Package.Database.set_key
    luet.Package.Database.State.is_selector
program = tt

abbrev of_result : Result (String × InMemoryDatabase plain) → InMemoryDatabase plain
of_result (ok (id, db)) = db
of_result (err e) = empty
of_result panic = empty
of_result luet.Result.out_of_fuel = empty

abbrev with_app : InMemoryDatabase plain
with_app = of_result (create_package plain in_order 2 0 app empty)

created : create_package plain in_order 2 0 app empty ≡ ok ("app-cat-1", with_app)
unfolding program
created = refl

view-create_package_example :
    ("app-cat-1" ≡ finger_print app)
    × ((k : String) → view plain with_app k ≡ with_package app (view plain empty) k)
view-create_package_example =
    view-create_package plain plain-IsRoundTrip in_order 2 0 app empty with_app "app-cat-1" created

view-update_package_example :
    ((db' : InMemoryDatabase plain)
      → update_package plain app empty ≡ ok db'
      → (k : String) → view plain db' k ≡ with_package app (view plain empty) k)
    × ((k : String)
        → view plain (remove_package plain app empty) k ≡ without_package app (view plain empty) k)
    × ((k : String) → view plain (clean plain empty) k ≡ none)
view-update_package_example = view-update_package plain plain-IsRoundTrip in_order app empty

world-view_example :
    Perm
      (world plain in_order 0 with_app)
      (filter_map (view plain with_app) (keys with_app.database))
world-view_example = world-view plain in_order 0 with_app

-- A package that is removed and created again is not among the versions of its name.
abbrev again : InMemoryDatabase plain
again = of_result (create_package plain in_order 2 0 app (remove_package plain app with_app))

versions_once : find_package_versions plain in_order 2 0 app with_app ≡ ok (app ∷ [])
unfolding program
versions_once = refl

versions_again : find_package_versions plain in_order 2 0 app again ≡ ok []
unfolding program
versions_again = refl

-- A database that is not the singleton has no map of finalizers.
finalizer_panics :
    set_package_finalizer plain
      (record { package_fingerprint = "app-cat-1"; shell = []; install = []; uninstall = [] })
      empty
    ≡ panic
unfolding program
finalizer_panics = refl
