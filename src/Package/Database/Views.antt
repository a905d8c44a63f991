-- ===== src/Package/Database/Views.antt =====
-- The operations of InMemoryDatabase (pkg/package/database_mem.go) against a map from fingerprints to
-- packages.
use mathlib.Core.List.{Perm, filter_map}
use mathlib.Core.List.Perm
use mathlib.Core.Option.{Option-elim}
use luet.Prelude.{
  ℕ, suc, ◌≡◌, refl, sym, ◌∙◌, ap, subst, String, Option, none, some, List, [], ◌∷◌, if◌then◌else◌,
  ◌==◌, Bool-cases, Option-cases, inl, inr, map,
}
use luet.GoMap.{Map, keys, lookup, has, put, lookup-put, lookup-delete}
use luet.Runtime.{GoRuntime}
use luet.Result.{Result, ok, err, panic, out_of_fuel, bind-eq-ok, ok_injective}
use luet.Package.Default.{DefaultPackage, get_requires}
use luet.Package.Database.State.{Codec, IsRoundTrip, InMemoryDatabase, finger_print}
use luet.Package.Database.Caches.{register_requires, populate_caches, or_none, find_packages}
use luet.Package.Database.{
  get_key, set_key, get_package, update_package, create_package, clean, remove_package, world,
  world_of, get_packages,
}

-- The abstract database: the package of a fingerprint, if there is one.
abbrev pub View : Type 0
View = String → Option DefaultPackage

abbrev pub with_package : DefaultPackage → View → View
with_package p v k = if finger_print p == k then some p else v k

abbrev pub without_package : DefaultPackage → View → View
without_package p v k = if finger_print p == k then none else v k

abbrev value : Result DefaultPackage → Option DefaultPackage
value (ok p) = some p
value (err e) = none
value panic = none
value out_of_fuel = none

module _ (c : Codec) where
  -- What GetPackage finds.
  abbrev pub view : InMemoryDatabase c → View
  view db k = value (get_package c k db)

  abbrev decoded_at : Option c.Encoded → Option DefaultPackage
  decoded_at none = none
  decoded_at (some e) = c.decode e

  view-lookup :
      (db : InMemoryDatabase c) (k : String) → view db k ≡ decoded_at (lookup k db.database)
  unfolding get_package get_key
  view-lookup db k = elim (Option-cases (lookup k db.database)) [
    | inl n ↦ rw (get_package, get_key, n) refl
    | inr (e, f) ↦ elim (Option-cases (c.decode e)) [
      | inl n ↦ rw (get_package, get_key, f, n) refl
      | inr (p, g) ↦ rw (get_package, get_key, f, g) refl
    ]
  ]

  -- The caches have no part in what is stored.
  database-register_requires :
      (rt : GoRuntime) (depth tick : ℕ) (pd : DefaultPackage) (rs : List DefaultPackage)
      (db db' : InMemoryDatabase c)
      → register_requires c rt depth tick pd rs db ≡ ok db'
      → db'.database ≡ db.database
  unfolding register_requires
  database-register_requires rt depth tick pd [] db db' e =
      ap (λ d. d.database) (sym (ok_injective e))
  database-register_requires rt depth tick pd (r ∷ rs) db db' e =
      let (packages, found, rest) =
        bind-eq-ok (or_none c rt (find_packages c rt depth tick r db)) _ e in
      database-register_requires rt depth (suc tick) pd rs _ db' rest

  database-populate_caches :
      (rt : GoRuntime) (depth tick : ℕ) (pd : DefaultPackage) (db db' : InMemoryDatabase c)
      → populate_caches c rt depth tick pd db ≡ ok db'
      → db'.database ≡ db.database
  unfolding populate_caches
  database-populate_caches rt depth tick pd db db' e =
      elim (Bool-cases (has (finger_print pd) db.cached)) [
        | inl y ↦ ap (λ d. d.database) (sym (ok_injective (rw y at e)))
        | inr n ↦
            database-register_requires rt depth (suc tick) pd (get_requires pd) _ db' (rw n at e)
      ]

  view-set_key :
      (p : DefaultPackage) (e : c.Encoded) (db db' : InMemoryDatabase c)
      → c.decode e ≡ some p
      → db'.database ≡ put (finger_print p) e db.database
      → (k : String) → view db' k ≡ with_package p (view db) k
  view-set_key p e db db' d f k =
      view-lookup db' k
      ∙ ap (λ m. decoded_at (lookup k m)) f
      ∙ ap decoded_at (lookup-put (finger_print p) k e db.database)
      ∙ elim (Bool-cases (finger_print p == k)) [
        | inl y ↦ rw y d
        | inr n ↦ rw n (sym (view-lookup db k))
      ]

module _ (c : Codec) (round_trip : IsRoundTrip c) (rt : GoRuntime) where
  -- If CreatePackage returns, GetPackage finds the package under its fingerprint, and every other key
  -- as before.
  pub view-create_package :
      (depth tick : ℕ) (p : DefaultPackage) (db db' : InMemoryDatabase c) (id : String)
      → create_package c rt depth tick p db ≡ ok (id, db')
      → (id ≡ finger_print p) × ((k : String) → view c db' k ≡ with_package p (view c db) k)
  unfolding create_package set_key
  view-create_package depth tick p db db' id e = elim (Option-cases (c.encode p)) [
    | inl n ↦ cc (rw (create_package, n) at e)
    | inr (enc, f) ↦
        let (db1, run, last) =
          bind-eq-ok (populate_caches c rt depth tick p (set_key c (finger_print p) enc db)) _
            (rw (create_package, f) at e) in
        let same = ok_injective last in
        (
          sym (ap (λ x. x.0) same),
          view-set_key c p enc db db' (round_trip.decodes p enc f) (
              ap (λ x. x.1.database) (sym same)
              ∙ database-populate_caches c rt depth tick p (set_key c (finger_print p) enc db) db1
                  run),
        )
  ]

  -- Whenever UpdatePackage returns, and always for RemovePackage and Clean: the first changes what
  -- GetPackage finds under the fingerprint of the package to the package, the second to nothing, and
  -- neither touches another key; after Clean nothing is found.
  pub view-update_package :
      (p : DefaultPackage) (db : InMemoryDatabase c)
      → ((db' : InMemoryDatabase c)
          → update_package c p db ≡ ok db'
          → (k : String) → view c db' k ≡ with_package p (view c db) k)
        × ((k : String) → view c (remove_package c p db) k ≡ without_package p (view c db) k)
        × ((k : String) → view c (clean c db) k ≡ none)
  unfolding update_package set_key remove_package clean lookup
  view-update_package p db = (
    λ db' e. elim (Option-cases (c.encode p)) [
      | inl n ↦ cc (rw (update_package, n) at e)
      | inr (enc, f) ↦
          view-set_key c p enc db db' (round_trip.decodes p enc f)
            (ap (λ d. d.database) (sym (ok_injective (rw (update_package, f) at e))))
    ],
    λ k.
        view-lookup c (remove_package c p db) k
        ∙ ap (decoded_at c) (lookup-delete (finger_print p) k db.database)
        ∙ elim (Bool-cases (finger_print p == k)) [
          | inl y ↦ rw y refl
          | inr n ↦ rw n (sym (view-lookup c db k))
        ],
    λ k. view-lookup c (clean c db) k,
  )

module _ (c : Codec) (rt : GoRuntime) where
  world_of-view :
      (db : InMemoryDatabase c) (ks : List String) → world_of c ks db ≡ filter_map (view c db) ks
  unfolding world_of filter_map
  world_of-view db [] = refl
  world_of-view db (k ∷ ks) = rw (world_of, sym (world_of-view db ks)) (joined (get_package c k db))
    where
      joined :
          (r : Result DefaultPackage)
          → elim r [ ok pack ↦ pack ∷ world_of c ks db | _ ↦ world_of c ks db ]
            ≡ Option-elim (value r) (world_of c ks db) (λ b. b ∷ world_of c ks db)
      joined (ok p) = refl
      joined (err e) = refl
      joined panic = refl
      joined out_of_fuel = refl

  keys-map : {V : Type 0} (m : Map V) → map (λ e. e.0) m ≡ keys m
  keys-map [] = refl
  keys-map ((k, v) ∷ m) = cc (keys-map m)

  -- World, in whatever order the map is visited: the packages that GetPackage finds under the keys of
  -- the database, up to order.
  pub world-view :
      (tick : ℕ) (db : InMemoryDatabase c)
      → Perm (world c rt tick db) (filter_map (view c db) (keys db.database))
  unfolding world get_packages
  world-view tick db =
      subst (λ l. Perm l (filter_map (view c db) (keys db.database)))
        (sym (world_of-view db (keys (rt.range tick db.database))))
        (Perm.filter_map (view c db) (
          subst (Perm (keys (rt.range tick db.database))) (keys-map db.database) (
            subst (λ l. Perm l (map (λ e. e.0) db.database)) (keys-map (rt.range tick db.database))
              (Perm.map (λ e. e.0) (rt.range_perm tick db.database)))))
