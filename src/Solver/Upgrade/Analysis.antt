-- ===== src/Solver/Upgrade/Analysis.antt =====
-- analyzeInstalledPackages of pkg/v2/solver/solver_upgrade.go: a goroutine runs checkInstalledPackage
-- for each package of the system map.
use luet.Prelude.{ℤ, Bool, true, false, Option, none, some, List, [], ◌∷◌, any, if◌then◌else◌, map}
use luet.GoMap.{Map, put}
use luet.Runtime.{GoRuntime}
use luet.Result.{Result, ok, err, panic, out_of_fuel, analysis_failed}
use luet.Gentoo.{Gentoo}
use luet.Package.Default.{DefaultPackage, name_of}
use luet.Artifact.{PackageArtifact, ArtifactsMap}
use luet.Solver.{Searcher, Solving, get, give, ◌>>=◌, ◌>>◌, modify, lift, next_tick}
use luet.Solver.Orphans.{firsts}
use luet.Solver.Upgrade.News.{Digest, check_installed_package}

-- What a goroutine comes to: the package, and its result.
abbrev pub Checked : Type 0
Checked = DefaultPackage × Result (Option (List PackageArtifact))

abbrev pub news : Result (Option (List PackageArtifact)) → Option (List PackageArtifact)
news (ok r) = r
news (err e) = none
news panic = none
news out_of_fuel = none

-- The goroutines take the lock one after the other.
unfoldable pub store : List Checked → ArtifactsMap → ArtifactsMap
store [] am = am
store ((p, r) ∷ checks) am =
    store checks (elim (news r) [ none ↦ am | some arts ↦ put (name_of p) arts am ])

abbrev is_err : Result (Option (List PackageArtifact)) → Bool
is_err (ok r) = false
is_err (err e) = true
is_err panic = false
is_err out_of_fuel = false

abbrev is_panic : Result (Option (List PackageArtifact)) → Bool
is_panic (ok r) = false
is_panic (err e) = false
is_panic panic = true
is_panic out_of_fuel = false

abbrev pub failed : Checked → Bool
failed c = is_err c.1

-- A panic of a goroutine ends the program.
abbrev pub panicked : Checked → Bool
panicked c = is_panic c.1

-- A nil map of repositories has no entries.
abbrev pub repos_of : Option (Map ℤ) → Map ℤ
repos_of none = []
repos_of (some m) = m

module _ (g : Gentoo) (generate_hash : Digest) (rt : GoRuntime) (searcher : Searcher) where
  -- The new value of availableArtsMap, and the error of the goroutine.
  unfoldable pub analyze_installed_packages : Solving (Unit {0})
  unfolding firsts store check_installed_package
  analyze_installed_packages = do
    modify (λ s. record s { available_arts_map = [] })
    s ← get
    n ← next_tick
    pkgs ← lift (firsts (rt.range n s.system_map))
    n ← next_tick
    let checks = rt.deliver n (
        map
          (λ p. (
            p,
            check_installed_package g generate_hash rt searcher s.opts (repos_of s.map_repos) p,
          ))
          pkgs)
    if any panicked checks then lift panic else do
      modify (λ s. record s { available_arts_map = store checks s.available_arts_map })
      if any failed checks then lift (err analysis_failed) else give tt
