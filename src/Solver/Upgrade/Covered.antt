-- ===== src/Solver/Upgrade/Covered.antt =====
-- The loop of Upgrade (pkg/v2/solver/solver_upgrade.go) over all candidates.
use luet.Prelude.{
  ◌≡◌, refl, subst, String, Bool, true, List, [], ◌∷◌, ◌++◌, arith, if◌then◌else◌, ◌&&◌, ◌||◌, ◌==◌,
  any, any-append, all, map, Bool-cases, Option-cases, inl, inr, ==_refl,
}
use luet.GoMap.{lookup, has, has-lookup-none, lookup-eq-some-has}
use luet.Result.{ok, bind-eq-ok, ok_injective}
use luet.Package.Default.{DefaultPackage, name_of, get_provides}
use luet.Artifact.{
  PackageArtifact, ArtifactsMap, ArtifactsPack, get_package, artifact_name, artifact_version,
}
use luet.Operations.{first}
use luet.Solver.{PkgsMapList}
use luet.Solver.Upgrade.Answer.{
  Answers, to_remove, add_remove, add_remove_once, add_update, add_install, add_replacing,
  remove_provided, sort_out, sort_out_all,
}
use luet.Solver.Upgrade.Handled.{
  Grown, Grown-refl, Grown-trans, Grown-add_remove, Grown-add_update, Grown-add_install,
  Grown-add_remove_once, removes-add_remove, removes-add_remove_once, all_gone-Grown,
  first_removed-first, remove_provided-Grown, is_placed, is_handled, has_artifact,
}

has_artifact-last : (a : PackageArtifact) (l : ArtifactsPack) → has_artifact a (l ++ a ∷ []) ≡ true
has_artifact-last a l =
    rw
      (
        any-append
            (λ b. artifact_name b == artifact_name a && artifact_version b == artifact_version a) l
            (a ∷ []),
        ==_refl (artifact_name a),
        ==_refl (artifact_version a),
      )
      (ground arith)

module _ (system : PkgsMapList) (candidates : ArtifactsMap) where
  -- What `sort_out` adds for a candidate of a key that is installed.
  abbrev replacing : String → PackageArtifact → DefaultPackage → Answers → Answers
  replacing key a q x =
      if artifact_name a == key
      then add_update a (add_remove (to_remove q) x)
      else add_replacing system candidates a (add_remove_once (to_remove q) x)

  add_replacing-Grown :
      (a : PackageArtifact) (x : Answers)
      → Grown x (add_replacing system candidates a x)
        × ((has (artifact_name a) candidates
              || has_artifact a (add_replacing system candidates a x).install)
            ≡ true)
  unfolding add_replacing add_install
  add_replacing-Grown a x = elim (Bool-cases (has (artifact_name a) candidates)) [
    | inl e ↦ rw e (Grown-refl x, refl)
    | inr e ↦ rw e (Grown-add_install a x, has_artifact-last a x.install)
  ]

  is_placed-Grown :
      (x y : Answers) (key : String) (a : PackageArtifact)
      → Grown x y
      → is_placed system candidates x key a ≡ true
      → is_placed system candidates y key a ≡ true
  is_placed-Grown x y key a h e =
      let same : (b : PackageArtifact) → Bool =
        λ b. artifact_name b == artifact_name a && artifact_version b == artifact_version a in
      ground (arith, h.in_update same, h.in_install same)

  pub is_handled-Grown :
      (x y : Answers) (e : String × List PackageArtifact)
      → Grown x y
      → is_handled system candidates x e ≡ true
      → is_handled system candidates y e ≡ true
  is_handled-Grown x y (key, []) h e = cc
  is_handled-Grown x y (key, a ∷ l) h e = ground (
    arith,
    all_gone-Grown system x y (key ∷ map name_of (get_provides (get_package a))) h,
    is_placed-Grown x y key a h,
  )

  replacing-Grown :
      (key : String) (a : PackageArtifact) (q : DefaultPackage) (x : Answers)
      → has key system ≡ true
      → Grown x (replacing key a q x)
        × (any (λ r. artifact_name r == name_of q) (replacing key a q x).remove ≡ true)
        × (is_placed system candidates (replacing key a q x) key a ≡ true)
  unfolding add_update
  replacing-Grown key a q x i = elim (Bool-cases (artifact_name a == key)) [
    | inl e ↦
        let removed = add_remove (to_remove q) x in
        let grown = Grown-add_update a removed in
        rw (i, e)
          (
            Grown-trans x removed (add_update a removed) (Grown-add_remove (to_remove q) x) grown,
            grown.in_remove _ (removes-add_remove q x),
            has_artifact-last a removed.update,
          )
    | inr e ↦
        let removed = add_remove_once (to_remove q) x in
        let (grown, placed) = add_replacing-Grown a removed in
        rw (i, e)
          (
            Grown-trans x removed (add_replacing system candidates a removed)
                (Grown-add_remove_once (to_remove q) x) grown,
            grown.in_remove _ (removes-add_remove_once q x),
            placed,
          )
  ]

  sort_out-Grown :
      (key : String) (plist : List PackageArtifact) (x y : Answers)
      → sort_out system candidates key plist x ≡ ok y
      → Grown x y × (is_handled system candidates y (key, plist) ≡ true)
  unfolding sort_out
  sort_out-Grown key [] x y h = cc
  sort_out-Grown key (a ∷ plist) x y h = elim (Option-cases (lookup key system)) [
    | inl n ↦
        let provides = get_provides (get_package a) in
        let (z, run, last) =
          bind-eq-ok (remove_provided system candidates provides x) _ (rw (sort_out, n) at h) in
        let (grown, gone) = remove_provided-Grown system candidates provides x z run in
        let grown' = Grown-add_install a z in
        let gone' = all_gone-Grown system z (add_install a z) (map name_of provides) grown' gone in
        subst (λ w. Grown x w × (is_handled system candidates w (key, a ∷ plist) ≡ true))
          (ok_injective last)
          (
            Grown-trans x z (add_install a z) grown grown',
            rw (n, has-lookup-none key system n)
                (ground (arith, gone', has_artifact-last a z.install)),
          )
    | inr (val, f) ↦
        let provides = get_provides (get_package a) in
        let (q, got, rest) = bind-eq-ok (first val) _ (rw (sort_out, f) at h) in
        let (grown, removed, placed) =
          replacing-Grown key a q x (lookup-eq-some-has key system val f) in
        let (grown', gone) =
          remove_provided-Grown system candidates provides (replacing key a q x) y rest in
        let gone_first =
          first_removed-first system val q y got
            (grown'.in_remove (λ r. artifact_name r == name_of q) removed) in
        let placed' = is_placed-Grown (replacing key a q x) y key a grown' placed in
        (Grown-trans x (replacing key a q x) y grown grown', rw (f, gone_first, gone) placed')
  ]

  -- The loop over all entries `m` of the candidates.
  pub sort_out_all-Grown :
      (m : ArtifactsMap) (x y : Answers)
      → sort_out_all system candidates m x ≡ ok y
      → Grown x y × (all (is_handled system candidates y) m ≡ true)
  unfolding sort_out_all
  sort_out_all-Grown [] x y h = (subst (Grown x) (ok_injective h) (Grown-refl x), refl)
  sort_out_all-Grown ((key, plist) ∷ m) x y h =
      let (z, run, rest) = bind-eq-ok (sort_out system candidates key plist x) _ h in
      let (grown, handled) = sort_out-Grown key plist x z run in
      let (grown', handled') = sort_out_all-Grown m z y rest in
      (
        Grown-trans x z y grown grown',
        ground (arith, is_handled-Grown z y (key, plist) grown' handled),
      )
