-- ===== src/Solver/Upgrade/Analyzed.antt =====
-- analyzeInstalledPackages of pkg/v2/solver/solver_upgrade.go, for every order of its goroutines.
use mathlib.Core.List.{Perm}
use luet.Prelude.{
  ◌≡◌, refl, ◌∙◌, String, Bool, true, false, Option, none, some, List, [], ◌∷◌, arith,
  if◌then◌else◌, ◌&&◌, ◌||◌, ◌==◌, any, map, Option-cases, inl, inr, any-perm, any-map, ℕ, ◌+◌,
}
use luet.GoMap.{put, has, has-put}
use luet.Runtime.{GoRuntime}
use luet.Result.{Result, ok, err, panic, analysis_failed}
use luet.Gentoo.{Gentoo}
use luet.Package.Default.{DefaultPackage, name_of}
use luet.Artifact.{PackageArtifact, ArtifactsMap}
use luet.Solver.{Solver, Searcher, Solving, ◌>>=◌, ◌>>◌, lift, modify, give}
use luet.Solver.SystemMap.{IsFilled, firsts-range, leaders}
use luet.Solver.Upgrade.News.{Digest, check_installed_package}
use luet.Solver.Upgrade.Analysis.{
  Checked, news, store, failed, panicked, repos_of, analyze_installed_packages,
}

abbrev pub is_some : Option (List PackageArtifact) → Bool
is_some none = false
is_some (some arts) = true

-- The goroutine has artefacts to store for the package `k`.
abbrev stores : String → Checked → Bool
stores k c = name_of c.0 == k && is_some (news c.1)

has-store :
    (k : String) (checks : List Checked) (am : ArtifactsMap)
    → has k (store checks am) ≡ (has k am || any (stores k) checks)
unfolding store
has-store k [] am = ground arith
has-store k ((p, r) ∷ checks) am = elim (Option-cases (news r)) [
  | inl e ↦ rw (store, e) (has-store k checks am ∙ ground arith)
  | inr (arts, e) ↦
      rw (store, e)
        (has-store k checks (put (name_of p) arts am)
          ∙ rw (has-put (name_of p) k arts am) (ground arith))
]

-- What follows when the goroutines have run.
abbrev finish : List Checked → Solving (Unit {0})
finish checks =
    if any panicked checks
    then lift panic
    else (modify (λ s. record s { available_arts_map = store checks s.available_arts_map })
        >> (if any failed checks then lift (err analysis_failed) else give tt))

finished :
    (checks : List Checked) (t : Solver) (bp bf : Bool) (found : String → Bool)
    → any panicked checks ≡ bp
    → any failed checks ≡ bf
    → ((k : String) → (has k t.available_arts_map || any (stores k) checks) ≡ found k)
    → (bp ≡ true → (finish checks t).1 ≡ panic)
      × (bp ≡ false → bf ≡ true → (finish checks t).1 ≡ err analysis_failed)
      × (bp ≡ false
          → bf ≡ false
          → ((finish checks t).1 ≡ ok tt)
            × ((k : String) → has k (finish checks t).0.available_arts_map ≡ found k))
unfolding ◌>>=◌
finished checks t bp bf found ep ef eh =
    rw (ep, ef)
      (
        λ y. rw y refl,
        λ n y. rw (n, y) refl,
        λ n m. rw (n, m) (refl, λ k. has-store k checks t.available_arts_map ∙ eh k),
      )

module _ (g : Gentoo) (generate_hash : Digest) (rt : GoRuntime) (searcher : Searcher) (s : Solver)
    (installed : List DefaultPackage) where
  -- checkInstalledPackage with the solver's options and repositories.
  abbrev pub checked : DefaultPackage → Result (Option (List PackageArtifact))
  checked p = check_installed_package g generate_hash rt searcher s.opts (repos_of s.map_repos) p

  abbrev check : DefaultPackage → Checked
  check p = (p, checked p)

  -- A test of the goroutines, in the order of their run.
  any-checks :
      (test : Checked → Bool) (n : ℕ) (ps : List DefaultPackage)
      → Perm ps installed
      → any test (rt.deliver n (map check ps)) ≡ any (λ p. test (check p)) installed
  any-checks test n ps h =
      any-perm test (rt.deliver_perm n _) ∙ any-map check test ps ∙ any-perm (λ p. test (check p)) h

  -- In whatever order the goroutines run: the analysis panics exactly if the check of an installed
  -- package does, ends with an error exactly if one of the checks returns an error and none panics,
  -- and otherwise returns, and then has artefacts at hand for the names, and no others, of the
  -- installed packages for which checkInstalledPackage found something newer. `installed` is the
  -- first packages of the system map.
  pub analyze_installed_packages-has :
      IsFilled s.system_map installed
      → (any (λ p. panicked (check p)) installed ≡ true
          → (analyze_installed_packages g generate_hash rt searcher s).1 ≡ panic)
        × (any (λ p. panicked (check p)) installed ≡ false
            → any (λ p. failed (check p)) installed ≡ true
            → (analyze_installed_packages g generate_hash rt searcher s).1 ≡ err analysis_failed)
        × (any (λ p. panicked (check p)) installed ≡ false
            → any (λ p. failed (check p)) installed ≡ false
            → ((analyze_installed_packages g generate_hash rt searcher s).1 ≡ ok tt)
              × ((k : String)
                  → has k
                      (analyze_installed_packages g generate_hash rt searcher
                        s).0.available_arts_map
                    ≡ any (λ p. name_of p == k && is_some (news (checked p))) installed))
  unfolding analyze_installed_packages ◌>>=◌ has
  analyze_installed_packages-has h =
      let (got, perm) = firsts-range rt s.ticks s.system_map installed h in
      let checks = rt.deliver (s.ticks + 1) (map check (leaders (rt.range s.ticks s.system_map))) in
      rw got (
        finished checks _ _ _ _ (any-checks panicked _ _ perm) (any-checks failed _ _ perm)
          (λ k. any-checks (stores k) _ _ perm))
