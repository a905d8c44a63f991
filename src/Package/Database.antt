-- ===== src/Package/Database.antt =====
-- InMemoryDatabase of pkg/package/database_mem.go: its maps, and the operations on packages, files and
-- finalizers. Package/Database/Caches: the caches that CreatePackage fills and the searches in them.
pub mod State
pub mod Caches
pub mod Views
mod Tests
use luet.Prelude.{ℕ, String, Bool, Option, none, some, List, [], ◌∷◌, map}
use luet.GoMap.{Map, keys, lookup, put, delete}
use luet.Runtime.{GoRuntime}
use luet.Result.{Result, ok, err, panic, codec_error, no_key_found, ◌>>=◌}
use luet.Package.Default.{DefaultPackage, get_version, human_readable_string}
use luet.Package.Database.State.{
  Codec, PackageFinalizer, PackageFile, InMemoryDatabase, finger_print, get_package_name,
}
use luet.Package.Database.Caches.{populate_caches}

module _ (c : Codec) where
  open c use {Encoded, encode, decode}

  abbrev Db : Type 0
  Db = InMemoryDatabase c

  unfoldable pub get_key : String → Db → Result Encoded
  get_key s db = elim (lookup s db.database) [ none ↦ err (no_key_found s) | some pa ↦ ok pa ]

  unfoldable pub set_key : String → Encoded → Db → Db
  set_key k v db = record db { database = put k v db.database }

  abbrev decoded : Option DefaultPackage → Result DefaultPackage
  decoded none = err codec_error
  decoded (some p) = ok p

  -- GetPackage: Retrieve, and the decoding.
  unfoldable pub get_package : String → Db → Result DefaultPackage
  unfolding get_key
  get_package id db = do pa ← get_key id db; decoded (decode pa)

  -- UpdatePackage, which leaves the caches as they are.
  unfoldable pub update_package : DefaultPackage → Db → Result Db
  unfolding set_key
  update_package p db = elim (encode p) [
    | none ↦ err codec_error
    | some enc ↦ ok (set_key (finger_print p) enc db)
  ]

  -- CreatePackage. `depth` bounds the calls of the searches, `tick` names the first `range` loop.
  unfoldable pub create_package :
      GoRuntime → (depth tick : ℕ) → DefaultPackage → Db → Result (String × Db)
  unfolding set_key
  create_package rt depth tick pd db = elim (encode pd) [
    | none ↦ err codec_error
    | some enc ↦ (do
      db' ← populate_caches c rt depth tick pd (set_key (finger_print pd) enc db)
      ok (finger_print pd, db'))
  ]

  unfoldable pub get_packages : GoRuntime → (tick : ℕ) → Db → List String
  get_packages rt tick db = keys (rt.range tick db.database)

  unfoldable pub clean : Db → Db
  clean db = record db { database = [] }

  abbrev without :
      String
      → Option (Map DefaultPackage)
      → Map (Map DefaultPackage)
      → String
      → Map (Map DefaultPackage)
  without version none m k = m
  without version (some versions) m k = put k (delete version versions) m

  -- RemovePackage: the marks in `cached`, the provides and the reverse dependencies stay.
  unfoldable pub remove_package : DefaultPackage → Db → Db
  remove_package p db = record db {
    cache_no_version =
        without (get_version p) (lookup (get_package_name p) db.cache_no_version)
          db.cache_no_version (get_package_name p);
    database = delete (finger_print p) db.database;
  }

  -- World: what does not decode is left out.
  unfoldable pub world_of : List String → Db → List DefaultPackage
  unfolding get_package
  world_of [] db = []
  world_of (k ∷ ks) db =
      let all = world_of ks db in elim (get_package k db) [ ok pack ↦ pack ∷ all | _ ↦ all ]

  unfoldable pub world : GoRuntime → (tick : ℕ) → Db → List DefaultPackage
  unfolding world_of get_packages
  world rt tick db = world_of (get_packages rt tick db) db

  unfoldable pub get_package_finalizer : DefaultPackage → Db → Result PackageFinalizer
  get_package_finalizer p db = elim db.finalizer_database [
    | none ↦ err (no_key_found (human_readable_string p))
    | some m ↦ elim (lookup (finger_print p) m) [
      | none ↦ err (no_key_found (human_readable_string p))
      | some pa ↦ ok pa
    ]
  ]

  -- The assignment to an entry of a nil map is a run-time panic.
  unfoldable pub set_package_finalizer : PackageFinalizer → Db → Result Db
  set_package_finalizer p db = elim db.finalizer_database [
    | none ↦ panic
    | some m ↦ ok (record db { finalizer_database = some (put p.package_fingerprint p m) })
  ]

  unfoldable pub remove_package_finalizer : DefaultPackage → Db → Db
  remove_package_finalizer p db = record db {
    finalizer_database = elim db.finalizer_database [
      | none ↦ none
      | some m ↦ some (delete (finger_print p) m)
    ];
  }

  unfoldable pub get_package_files : DefaultPackage → Db → Result (List String)
  get_package_files p db = elim (lookup (finger_print p) db.file_database) [
    | none ↦ err (no_key_found (human_readable_string p))
    | some pa ↦ ok pa
  ]

  unfoldable pub set_package_files : PackageFile → Db → Db
  set_package_files p db = record db {
    file_database = put p.package_fingerprint p.files db.file_database;
  }

  unfoldable pub remove_package_files : DefaultPackage → Db → Db
  remove_package_files p db = record db { file_database = delete (finger_print p) db.file_database }

  -- Clone into `dst`, package by package.
  unfoldable pub clone_all : GoRuntime → (depth tick : ℕ) → List DefaultPackage → Db → Result Db
  unfolding create_package
  clone_all rt depth tick [] dst = ok dst
  clone_all rt depth tick (i ∷ is) dst = do
    (id, dst') ← create_package rt depth tick i dst
    clone_all rt depth tick is dst'

  unfoldable pub clone : GoRuntime → (depth tick : ℕ) → (src dst : Db) → Result Db
  unfolding world clone_all
  clone rt depth tick src dst = clone_all rt depth tick (world rt tick src) dst
