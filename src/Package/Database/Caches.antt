-- ===== src/Package/Database/Caches.antt =====
-- The caches of InMemoryDatabase (pkg/package/database_mem.go): populateCaches, updateRevDep, getProvide,
-- FindPackage, FindPackages and FindPackageVersions.
use luet.Prelude.{ℕ, zero, suc, String, true, Option, none, some, List, [], ◌∷◌, if◌then◌else◌}
use luet.GoMap.{Map, values, lookup, has, put}
use luet.Runtime.{GoRuntime}
use luet.Result.{
  Result, ok, err, panic, out_of_fuel, codec_error, no_key_found, no_versions_found, not_provided,
  ◌>>=◌,
}
use luet.Package.Default.{
  DefaultPackage, fields, get_version, get_provides, get_requires, new_package_with_cat_thin,
}
use luet.Package.Database.State.{
  Codec, InMemoryDatabase, finger_print, get_package_name, is_selector,
}

-- The map under a key, an empty one if there is none.
abbrev entry : Option (Map DefaultPackage) → Map DefaultPackage
entry none = []
entry (some m) = m

-- m[k][v] = b, with m[k] made if it is not there.
unfoldable pub put_under :
    (k v : String) → DefaultPackage → Map (Map DefaultPackage) → Map (Map DefaultPackage)
put_under k v b m = put k (put v b (entry (lookup k m))) m

-- The loop over the provides of the package.
unfoldable pub add_provides :
    DefaultPackage → List DefaultPackage → Map (Map DefaultPackage) → Map (Map DefaultPackage)
unfolding put_under
add_provides p [] m = m
add_provides p (provide ∷ provides) m =
    add_provides p provides (put_under (get_package_name provide) (get_version provide) p m)

module _ (c : Codec) (rt : GoRuntime) where
  abbrev Db : Type 0
  Db = InMemoryDatabase c

  -- The first version of the range that matches.
  unfoldable pub matching_provide : DefaultPackage → Map DefaultPackage → Result DefaultPackage
  matching_provide p [] = err not_provided
  matching_provide p ((ve, pa) ∷ versions) =
      let rest = matching_provide p versions in
      if (if is_selector p
        then c.validate_selector ve (get_version p)
        else c.validate_selector (get_version p) ve)
      then ok pa
      else rest

  unfoldable pub get_provide :
      (find : DefaultPackage → Result DefaultPackage)
      → (tick : ℕ) → DefaultPackage
      → Db
      → Result DefaultPackage
  unfolding matching_provide
  get_provide find tick p db = elim (lookup (get_package_name p) db.provides_database) [
    | none ↦ err no_versions_found
    | some versions ↦ elim (lookup (get_version p) versions) [
      | some pa ↦ find pa
      | none ↦ matching_provide p (rt.range tick versions)
    ]
  ]

  abbrev stored : Option c.Encoded → String → Result DefaultPackage
  stored none k = err (no_key_found k)
  stored (some pa) k = elim (c.decode pa) [ none ↦ err codec_error | some p ↦ ok p ]

  -- What is provided, or what the second function gives if the search for it ends with an error.
  abbrev or_else : Result DefaultPackage → Result DefaultPackage → Result DefaultPackage
  or_else (ok provided) other = ok provided
  or_else (err e) other = other
  or_else panic other = panic
  or_else out_of_fuel other = out_of_fuel

  -- FindPackage and getProvide call each other, without an end if packages provide each other.
  unfoldable pub find_package : (depth tick : ℕ) → DefaultPackage → Db → Result DefaultPackage
  unfolding get_provide
  find_package zero tick p db = out_of_fuel
  find_package (suc depth) tick p db =
      or_else (get_provide (λ pa. find_package depth (suc tick) pa db) tick p db)
        (stored (lookup (finger_print p) db.database) (finger_print p))

  unfoldable pub find_package_versions :
      (depth tick : ℕ) → DefaultPackage → Db → Result (List DefaultPackage)
  unfolding find_package
  find_package_versions depth tick p db = do
    q ← or_else (get_provide (λ pa. find_package depth (suc tick) pa db) tick p db) (ok p)
    elim (lookup (get_package_name q) db.cache_no_version) [
      | none ↦ err no_versions_found
      | some versions ↦ ok (values (rt.range (suc tick) versions))
    ]

  -- The versions of the range that match the selector, each searched for by its version.
  unfoldable pub find_matches :
      (depth tick : ℕ) → DefaultPackage → Map DefaultPackage → Db → Result (List DefaultPackage)
  unfolding find_package
  find_matches depth tick p [] db = ok []
  find_matches depth tick p ((ve, v) ∷ versions) db =
      let rest = find_matches depth tick p versions db in
      if c.validate_selector ve (get_version p)
      then (do
        w ←
            find_package depth tick
              (new_package_with_cat_thin (fields p).category (fields p).name ve) db
        ws ← rest
        ok (w ∷ ws))
      else rest

  -- The search of a selector in the versions of the package's name.
  unfoldable pub find_selected :
      (depth tick : ℕ) → DefaultPackage → Db → Result (List DefaultPackage)
  unfolding find_matches
  find_selected depth tick p db = elim (lookup (get_package_name p) db.cache_no_version) [
    | none ↦ err no_versions_found
    | some versions ↦ find_matches depth tick p (rt.range tick versions) db
  ]

  -- A selector that a package provides stands for that package.
  abbrev provided_or :
      Result DefaultPackage → (depth tick : ℕ) → DefaultPackage → Db → Result (List DefaultPackage)
  provided_or (ok provided) depth tick p db =
      if is_selector provided then find_selected depth tick provided db else ok (provided ∷ [])
  provided_or (err e) depth tick p db = find_selected depth tick p db
  provided_or panic depth tick p db = panic
  provided_or out_of_fuel depth tick p db = out_of_fuel

  unfoldable pub find_packages :
      (depth tick : ℕ) → DefaultPackage → Db → Result (List DefaultPackage)
  unfolding find_selected
  find_packages depth tick p db =
      if is_selector p
      then provided_or (get_provide (λ pa. find_package depth (suc tick) pa db) tick p db) depth
          (suc tick) p db
      else do pack ← find_package depth tick p db; ok (pack ∷ [])

  -- The loop over the packages that depend on the name, and over their requires.
  unfoldable pub match_rev_deps :
      DefaultPackage → List DefaultPackage → Map (Map DefaultPackage) → Map (Map DefaultPackage)
  match_rev_deps pd [] m = m
  match_rev_deps pd (pp ∷ to_update) m = match_rev_deps pd to_update (over (get_requires pp) m)
    where
      over : List DefaultPackage → Map (Map DefaultPackage) → Map (Map DefaultPackage)
      over [] m = m
      over (re ∷ res) m = over res (
          if c.validate_selector (get_version pd) (get_version re)
          then put_under (finger_print pd) (finger_print pp) pp m
          else m)

  unfoldable pub update_rev_deps :
      DefaultPackage → List DefaultPackage → Map (Map DefaultPackage) → Map (Map DefaultPackage)
  update_rev_deps pd [] m = m
  update_rev_deps pd (pa ∷ packages) m = update_rev_deps pd packages (
      put_under (get_package_name pa) (get_package_name pd) pd
        (put_under (finger_print pa) (finger_print pd) pd m))

  -- `packages, _ := …`: an error counts as no packages.
  abbrev pub or_none : Result (List DefaultPackage) → Result (List DefaultPackage)
  or_none (ok packages) = ok packages
  or_none (err e) = ok []
  or_none panic = panic
  or_none out_of_fuel = out_of_fuel

  -- The loop over the requires of the package.
  unfoldable pub register_requires :
      (depth tick : ℕ) → DefaultPackage → List DefaultPackage → Db → Result Db
  unfolding find_packages update_rev_deps
  register_requires depth tick pd [] db = ok db
  register_requires depth tick pd (re ∷ requires) db = do
    packages ← or_none (find_packages depth tick re db)
    register_requires depth (suc tick) pd requires (record db {
      rev_deps_database =
          update_rev_deps pd (re ∷ []) (update_rev_deps pd packages db.rev_deps_database);
    })

  unfoldable pub populate_caches : (depth tick : ℕ) → DefaultPackage → Db → Result Db
  unfolding add_provides match_rev_deps register_requires
  populate_caches depth tick pd db =
      if has (finger_print pd) db.cached
      then ok db
      else register_requires depth (suc tick) pd (get_requires pd) (record db {
        cached = put (finger_print pd) true db.cached;
        provides_database = add_provides pd (get_provides pd) db.provides_database;
        cache_no_version = put_under (get_package_name pd) (get_version pd) pd db.cache_no_version;
        rev_deps_database =
            match_rev_deps pd
              (values (rt.range tick (entry (lookup (get_package_name pd) db.rev_deps_database))))
              db.rev_deps_database;
      })
