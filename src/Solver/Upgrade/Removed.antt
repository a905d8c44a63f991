-- ===== src/Solver/Upgrade/Removed.antt =====
-- The packs of Upgrade (pkg/v2/solver/solver_upgrade.go) against the installed packages.
use luet.Prelude.{
  ◌≡◌, refl, subst, String, true, some, List, [], ◌∷◌, ◌==◌, All, All-append, Bool-cases,
  Option-cases, inl, inr, ==→eq,
}
use luet.GoMap.{lookup, has, lookup-eq-some-has}
use luet.Result.{ok, bind-eq-ok, ok_injective}
use luet.Package.Default.{DefaultPackage, name_of, get_provides}
use luet.Artifact.{PackageArtifact, ArtifactsMap, get_package, artifact_name, is_present}
use luet.Operations.{first}
use luet.Solver.{PkgsMapList}
use luet.Solver.Upgrade.Answer.{
  Answers, to_remove, add_remove, add_remove_once, add_update, add_install, add_replacing,
  remove_provided, sort_out, sort_out_all, sort_out_named, listed,
}

-- `system` has packages with the property `P` first under its keys.
module _ (system : PkgsMapList) (candidates : ArtifactsMap) (P : DefaultPackage → Type 0)
    (holds : (k : String) (val : List DefaultPackage) (q : DefaultPackage)
      → lookup k system ≡ some val
      → first val ≡ ok q
      → P q) where
  -- What is removed is such a package, and what is updated has the name of a key.
  pub record IsOfSystem (x : Answers) : Type 0 where
    pub removed : All (λ r. (q : DefaultPackage) × P q × (r ≡ to_remove q)) x.remove
    pub updated : All (λ u. has (artifact_name u) system ≡ true) x.update

  IsOfSystem-add_remove :
      (q : DefaultPackage) (x : Answers)
      → P q
      → IsOfSystem x
      → IsOfSystem (add_remove (to_remove q) x)
  unfolding add_remove
  IsOfSystem-add_remove q x p h = record {
    removed = All-append _ x.remove _ h.removed ((q, p, refl), tt);
    updated = h.updated;
  }

  IsOfSystem-add_remove_once :
      (q : DefaultPackage) (x : Answers)
      → P q
      → IsOfSystem x
      → IsOfSystem (add_remove_once (to_remove q) x)
  unfolding add_remove_once
  IsOfSystem-add_remove_once q x p h = elim (Bool-cases (is_present x.remove (to_remove q))) [
    | inl e ↦ rw e h
    | inr e ↦ rw e (IsOfSystem-add_remove q x p h)
  ]

  IsOfSystem-add_update :
      (a : PackageArtifact) (x : Answers)
      → has (artifact_name a) system ≡ true
      → IsOfSystem x
      → IsOfSystem (add_update a x)
  unfolding add_update
  IsOfSystem-add_update a x e h = record {
    removed = h.removed;
    updated = All-append _ x.update _ h.updated (e, tt);
  }

  IsOfSystem-add_install :
      (a : PackageArtifact) (x : Answers) → IsOfSystem x → IsOfSystem (add_install a x)
  unfolding add_install
  IsOfSystem-add_install a x h = record { removed = h.removed; updated = h.updated }

  IsOfSystem-add_replacing :
      (a : PackageArtifact) (x : Answers)
      → IsOfSystem x
      → IsOfSystem (add_replacing system candidates a x)
  unfolding add_replacing
  IsOfSystem-add_replacing a x h = elim (Bool-cases (has (artifact_name a) candidates)) [
    | inl e ↦ rw e h
    | inr e ↦ rw e (IsOfSystem-add_install a x h)
  ]

  IsOfSystem-remove_provided :
      (provs : List DefaultPackage) (x y : Answers)
      → remove_provided system candidates provs x ≡ ok y
      → IsOfSystem x
      → IsOfSystem y
  unfolding remove_provided
  IsOfSystem-remove_provided [] x y e h = subst IsOfSystem (ok_injective e) h
  IsOfSystem-remove_provided (prov ∷ provs) x y e h =
      elim (Option-cases (lookup (name_of prov) system)) [
        | inl n ↦ IsOfSystem-remove_provided provs x y (rw (remove_provided, n) at e) h
        | inr (pr, f) ↦
            let (q, got, rest) = bind-eq-ok (first pr) _ (rw (remove_provided, f) at e) in
            IsOfSystem-remove_provided provs _ y rest
              (IsOfSystem-add_remove_once q x (holds (name_of prov) pr q f got) h)
      ]

  -- The key `k` of the system, and an artefact of its name.
  named-has :
      (a : PackageArtifact) (k : String) (val : List DefaultPackage)
      → lookup k system ≡ some val
      → (artifact_name a == k) ≡ true
      → has (artifact_name a) system ≡ true
  named-has a k val f e = rw (==→eq (artifact_name a) k e) (lookup-eq-some-has k system val f)

  IsOfSystem-sort_out :
      (k : String) (plist : List PackageArtifact) (x y : Answers)
      → sort_out system candidates k plist x ≡ ok y
      → IsOfSystem x
      → IsOfSystem y
  unfolding sort_out
  IsOfSystem-sort_out k [] x y e h = cc
  IsOfSystem-sort_out k (a ∷ plist) x y e h = elim (Option-cases (lookup k system)) [
    | inl n ↦
        let (z, run, last) =
          bind-eq-ok (remove_provided system candidates (get_provides (get_package a)) x) _
            (rw (sort_out, n) at e) in
        subst IsOfSystem (ok_injective last)
          (IsOfSystem-add_install a z (IsOfSystem-remove_provided _ x z run h))
    | inr (val, f) ↦
        let (q, got, rest) = bind-eq-ok (first val) _ (rw (sort_out, f) at e) in
        let p = holds k val q f got in
        IsOfSystem-remove_provided _ _ y rest (elim (Bool-cases (artifact_name a == k)) [
          | inl i ↦
              rw i
                (IsOfSystem-add_update a _ (named-has a k val f i) (IsOfSystem-add_remove q x p h))
          | inr i ↦ rw i (IsOfSystem-add_replacing a _ (IsOfSystem-add_remove_once q x p h))
        ])
  ]

  pub IsOfSystem-sort_out_all :
      (m : ArtifactsMap) (x y : Answers)
      → sort_out_all system candidates m x ≡ ok y
      → IsOfSystem x
      → IsOfSystem y
  unfolding sort_out_all
  IsOfSystem-sort_out_all [] x y e h = subst IsOfSystem (ok_injective e) h
  IsOfSystem-sort_out_all ((k, plist) ∷ m) x y e h =
      let (z, run, rest) = bind-eq-ok (sort_out system candidates k plist x) _ e in
      IsOfSystem-sort_out_all m z y rest (IsOfSystem-sort_out k plist x z run h)

  pub IsOfSystem-sort_out_named :
      (pnames : List String) (x y : Answers)
      → sort_out_named system candidates pnames x ≡ ok y
      → IsOfSystem x
      → IsOfSystem y
  unfolding sort_out_named
  IsOfSystem-sort_out_named [] x y e h = subst IsOfSystem (ok_injective e) h
  IsOfSystem-sort_out_named (k ∷ pnames) x y e h = elim (Option-cases (lookup k system)) [
    | inl n ↦
        let (z, run, rest) = bind-eq-ok _ _ (rw (sort_out_named, n) at e) in
        let (a, got, last) = bind-eq-ok (first (listed (lookup k candidates))) _ run in
        IsOfSystem-sort_out_named pnames z y rest
          (subst IsOfSystem (ok_injective last) (IsOfSystem-add_install a x h))
    | inr (val, f) ↦
        let (z, run, rest) = bind-eq-ok _ _ (rw (sort_out_named, f) at e) in
        let (q, got, run') = bind-eq-ok (first val) _ run in
        let (a, got', last) = bind-eq-ok (first (listed (lookup k candidates))) _ run' in
        let removed = IsOfSystem-add_remove q x (holds k val q f got) h in
        IsOfSystem-sort_out_named pnames z y rest (
          subst IsOfSystem (ok_injective last) (elim (Bool-cases (artifact_name a == k)) [
            | inl i ↦ rw i (IsOfSystem-add_update a _ (named-has a k val f i) removed)
            | inr i ↦ rw i (IsOfSystem-add_replacing a _ removed)
          ]))
  ]
