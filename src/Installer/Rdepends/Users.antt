-- ===== src/Installer/Rdepends/Users.antt =====
-- The map of the reverse dependencies of pkg/v2/installer/rdepend.go, against the installed packages.
use luet.Prelude.{
  ◌≡◌, refl, sym, subst, ◌∙◌, String, Bool, true, Option, none, some, List, [], ◌∷◌, ◌++◌, arith,
  ◌||◌, any, ◌==◌, Bool-cases, inl, inr, ◌⊎◌, Member, at_head, in_tail, Member-append,
  Member-append_left, Member-append_right, if◌then◌else◌,
}
use luet.GoMap.{lookup, append_at, with_last, lookup-append_at}
use luet.Package.Default.{DefaultPackage, name_of, get_provides, get_requires}
use luet.Installer.Rdepends.{RdepsMap, add_rdep_2_map, add_rdeps, rdeps_map, users_in}

-- The package uses the name: it requires it, or provides it.
abbrev names : String → List DefaultPackage → Bool
names k = any (λ c. name_of c == k)

abbrev pub uses : String → DefaultPackage → Bool
uses k p = names k (get_provides p) || names k (get_requires p)

abbrev pub users_of : String → RdepsMap → List DefaultPackage
users_of k m = users_in (lookup k m)

users_in-with_last :
    (o : Option (List DefaultPackage)) (p : DefaultPackage)
    → users_in (some (with_last p o)) ≡ users_in o ++ p ∷ []
users_in-with_last none p = refl
users_in-with_last (some l) p = refl

users_of-append_at :
    (k j : String) (p : DefaultPackage) (m : RdepsMap)
    → users_of k (append_at j p m) ≡ (if j == k then users_of k m ++ p ∷ [] else users_of k m)
users_of-append_at k j p m = elim (Bool-cases (j == k)) [
  | inl e ↦ rw (lookup-append_at j k p m, e) (users_in-with_last (lookup k m) p)
  | inr e ↦ rw (lookup-append_at j k p m, e) refl
]

Member-only : {d p : DefaultPackage} → Member d (p ∷ []) → d ≡ p
Member-only at_head = refl
Member-only (in_tail m) = elim m [ ]

module _ (k : String) where
  -- What is under the key stays, and `p` comes under the keys that it names.
  add_rdeps-keeps :
      {d : DefaultPackage} (p : DefaultPackage) (ds : List DefaultPackage) (m : RdepsMap)
      → Member d (users_of k m)
      → Member d (users_of k (add_rdeps p ds m))
  unfolding add_rdeps add_rdep_2_map
  add_rdeps-keeps p [] m h = h
  add_rdeps-keeps {d} p (c ∷ ds) m h =
      add_rdeps-keeps p ds (add_rdep_2_map p c m) (elim (Bool-cases (name_of c == k)) [
        | inl e ↦
            rw (users_of-append_at k (name_of c) p m, e)
              (Member-append_left (users_of k m) (p ∷ []) h)
        | inr e ↦ rw (users_of-append_at k (name_of c) p m, e) h
      ])

  add_rdeps-adds :
      (p : DefaultPackage) (ds : List DefaultPackage) (m : RdepsMap)
      → names k ds ≡ true
      → Member p (users_of k (add_rdeps p ds m))
  unfolding add_rdeps add_rdep_2_map
  add_rdeps-adds p [] m h = cc
  add_rdeps-adds p (c ∷ ds) m h = elim (Bool-cases (name_of c == k)) [
    | inl e ↦ add_rdeps-keeps p ds (add_rdep_2_map p c m) (
        rw (users_of-append_at k (name_of c) p m, e)
          (Member-append_right (users_of k m) (p ∷ []) at_head))
    | inr e ↦ add_rdeps-adds p ds (add_rdep_2_map p c m) (ground arith)
  ]

  add_rdeps-from :
      {d : DefaultPackage} (p : DefaultPackage) (ds : List DefaultPackage) (m : RdepsMap)
      → Member d (users_of k (add_rdeps p ds m))
      → Member d (users_of k m) ⊎ ((d ≡ p) × (names k ds ≡ true))
  unfolding add_rdeps add_rdep_2_map
  add_rdeps-from p [] m h = inl h
  add_rdeps-from {d} p (c ∷ ds) m h = elim (add_rdeps-from p ds (add_rdep_2_map p c m) h) [
    | inr (same, named) ↦ inr (same, ground arith)
    | inl early ↦ elim (Bool-cases (name_of c == k)) [
      | inr e ↦ inl (subst (Member d) (users_of-append_at k (name_of c) p m ∙ rw e refl) early)
      | inl e ↦
          elim (Member-append (users_of k m) (p ∷ [])
            (subst (Member d) (users_of-append_at k (name_of c) p m ∙ rw e refl) early)) [
              | inl before ↦ inl before
              | inr last ↦ inr (Member-only last, rw e refl)
            ]
    ]
  ]

  rdeps_map-keeps :
      {d : DefaultPackage} (system : List DefaultPackage) (m : RdepsMap)
      → Member d (users_of k m)
      → Member d (users_of k (rdeps_map system m))
  unfolding rdeps_map
  rdeps_map-keeps [] m h = h
  rdeps_map-keeps (p ∷ system) m h =
      rdeps_map-keeps system (add_rdeps p (get_requires p) (add_rdeps p (get_provides p) m)) (
        add_rdeps-keeps p (get_requires p) (add_rdeps p (get_provides p) m)
          (add_rdeps-keeps p (get_provides p) m h))

  -- Each installed package that uses the name is under it.
  pub rdeps_map-adds :
      {d : DefaultPackage} (system : List DefaultPackage) (m : RdepsMap)
      → Member d system
      → uses k d ≡ true
      → Member d (users_of k (rdeps_map system m))
  unfolding rdeps_map
  rdeps_map-adds [] m h u = elim h [ ]
  rdeps_map-adds (p ∷ system) m at_head u =
      rdeps_map-keeps system (add_rdeps p (get_requires p) (add_rdeps p (get_provides p) m))
        (elim (Bool-cases (names k (get_requires p))) [
          | inl r ↦ add_rdeps-adds p (get_requires p) (add_rdeps p (get_provides p) m) r
          | inr n ↦
              add_rdeps-keeps p (get_requires p) (add_rdeps p (get_provides p) m)
                (add_rdeps-adds p (get_provides p) m (ground arith))
        ])
  rdeps_map-adds (p ∷ system) m (in_tail h) u =
      rdeps_map-adds system (add_rdeps p (get_requires p) (add_rdeps p (get_provides p) m)) h u

  -- Only such packages are under it.
  pub rdeps_map-from :
      {d : DefaultPackage} (system : List DefaultPackage) (m : RdepsMap)
      → Member d (users_of k (rdeps_map system m))
      → Member d (users_of k m) ⊎ (Member d system × (uses k d ≡ true))
  unfolding rdeps_map
  rdeps_map-from [] m h = inl h
  rdeps_map-from {d} (p ∷ system) m h =
      elim (rdeps_map-from system (add_rdeps p (get_requires p) (add_rdeps p (get_provides p) m))
        h) [
          | inr (there, u) ↦ inr (in_tail there, u)
          | inl early ↦
              elim (add_rdeps-from p (get_requires p) (add_rdeps p (get_provides p) m) early) [
                | inr (same, named) ↦ inr (
                  subst (λ q. Member q (p ∷ system)) (sym same) at_head,
                  subst (λ q. uses k q ≡ true) (sym same) (ground arith),
                )
                | inl earlier ↦ elim (add_rdeps-from p (get_provides p) m earlier) [
                  | inr (same, named) ↦ inr (
                    subst (λ q. Member q (p ∷ system)) (sym same) at_head,
                    subst (λ q. uses k q ≡ true) (sym same) (ground arith),
                  )
                  | inl first ↦ inl first
                ]
              ]
        ]
