-- ===== src/Solver/Upgrade/Candidate.antt =====
-- checkCandidate2Upgrade and processArtefactDeps4Upgrade of pkg/v2/solver/solver_upgrade.go.
use luet.Prelude.{
  String, Bool, true, false, Option, none, some, List, [], ◌∷◌, ◌++◌, ◌==◌, not, any, if◌then◌else◌,
  contains_elem,
}
use luet.GoMap.{lookup, has, put}
use luet.Runtime.{GoRuntime}
use luet.Result.{Result, ok, err, panic, out_of_fuel, search_error, not_installed}
use luet.Gentoo.{Gentoo}
use luet.Package.Default.{
  DefaultPackage, fields, name_of, get_version, get_requires, new_package_with_cat_thin,
  to_gentoo_package,
}
use luet.Package.Admit.{admit}
use luet.Artifact.{
  PackageArtifact, ArtifactsMap, get_package, artifact_name, add_all, get_artifacts_by_key,
}
use luet.Operations.{first}
use luet.Solver.{Searcher, search_opts, Solving, give, ◌>>=◌, ◌>>◌, get, modify, lift, next_tick}
use luet.Solver.Sorting.{sort_artifact_list_4_version_and_repos, get_sorted_artifacts_by_key}
use luet.Solver.Conflicts.{valid, artefact_is_in_conflict, artefact_admit_by_queue}
use luet.Solver.Resolve.{is_provided, provided_name, valid_arts, accept}
use luet.Solver.Upgrade.News.{Digest, get_comparition_hash, stands_for, answered, holds}

-- What an iteration over the selected artefacts comes to.
pub data Verdict : Type 0 where
  banned : Verdict
  skipped : Verdict
  matched : Verdict
  -- The version is banned, and the loop ends.
  unchanged : Verdict

-- The two tests of a version against the installed one, and the option Deep.
pub data Age : Type 0 where
  newer equal downgrade older : Age

module _ (g : Gentoo) (rt : GoRuntime) (searcher : Searcher) where
  open g use {GentooPackage, greater_than}

  -- The loop over the versions of a dependency that is installed but not admitted.
  unfoldable pub some_version_admits : DefaultPackage → Option (List PackageArtifact) → Bool
  some_version_admits candidate none = false
  some_version_admits candidate (some new_deps_versions) =
      any (λ dv. valid (admit g (get_package dv) candidate)) new_deps_versions

  abbrev found : Option (List PackageArtifact) → Result (List PackageArtifact)
  found none = err search_error
  found (some arts) = ok arts

  -- The search for a dependency, and the name that resolvePackage gets.
  unfoldable pub search_dependency_4_upgrade : DefaultPackage → Solving String
  search_dependency_4_upgrade p = do
    s ← get
    repos_artifacts ← lift (
        found (
          searcher (
            search_opts s.opts (
              new_package_with_cat_thin (fields p).category (fields p).name (fields p).version
              ∷ []))))
    modify (λ s. record s { available_arts_map = add_all repos_artifacts s.available_arts_map })
    give (provided_name (name_of p) repos_artifacts)

  module _ (resolve : String → List String → Solving (Unit {0})) where
    -- The loop over the requires. `resolve` is resolvePackage.
    unfoldable pub process_requires_4_upgrade :
        DefaultPackage → List String → List DefaultPackage → Solving Bool
    unfolding some_version_admits search_dependency_4_upgrade
    process_requires_4_upgrade candidate stack [] = give true
    process_requires_4_upgrade candidate stack (p ∷ ps) =
        let rest = process_requires_4_upgrade candidate stack ps in
        do
          s ← get
          elim (lookup (name_of p) s.system_map) [
            | some val ↦ (do
              v ← lift (first val)
              admitted ← lift (admit g candidate v)
              if admitted
                  then rest
                  else if some_version_admits candidate (lookup (name_of p) s.available_arts_map)
                  then rest
                  else give false)
            | none ↦
                if is_provided g rt searcher s candidate p
                then rest
                else if has (name_of p) s.candidates_map
                then rest
                else if contains_elem stack (name_of p)
                then rest
                else do key ← search_dependency_4_upgrade p; resolve key stack; rest
          ]

    unfoldable pub process_artefact_deps_4_upgrade : PackageArtifact → List String → Solving Bool
    unfolding process_requires_4_upgrade
    process_artefact_deps_4_upgrade art stack =
        process_requires_4_upgrade (get_package art) stack (get_requires (get_package art))

    -- Some version at hand of the user admits the candidate. An error of one of them is returned.
    unfoldable pub new_user_version_admits :
        DefaultPackage → (admitted : Bool) → List PackageArtifact → Result Bool
    new_user_version_admits candidate admitted [] = ok admitted
    new_user_version_admits candidate admitted (uv ∷ versions) =
        luet.Result.◌>>=◌ (admit g (get_package uv) candidate)
          (λ a. new_user_version_admits candidate (if a then true else admitted) versions)

    -- The installed packages that require the candidate admit it, now or in a newer version.
    unfoldable pub users_admit_new :
        ArtifactsMap → DefaultPackage → List DefaultPackage → Result Bool
    unfolding new_user_version_admits
    users_admit_new available candidate [] = ok true
    users_admit_new available candidate (user ∷ users) =
        let rest = users_admit_new available candidate users in
        if valid (admit g user candidate) then rest else elim (lookup (name_of user) available) [
          | none ↦ ok false
          | some new_user_versions ↦
              luet.Result.◌>>=◌ (new_user_version_admits candidate false new_user_versions)
                (λ a. if a then rest else ok false)
        ]

    abbrev listed : Option (List DefaultPackage) → List DefaultPackage
    listed none = []
    listed (some users) = users

    -- The requires of an artefact that has passed the other tests.
    unfoldable pub judge_deps :
        (failing : Verdict) → List String → PackageArtifact → Solving Verdict
    unfolding process_artefact_deps_4_upgrade
    judge_deps failing stack art = do
      admitted_deps ← process_artefact_deps_4_upgrade art (stack ++ artifact_name art ∷ [])
      give (if admitted_deps then matched else failing)

    -- Conflicts, queue and requires. `failing` is the verdict on a version that the queue or the
    -- requires do not admit.
    unfoldable pub judge_version :
        (failing : Verdict) → List String → PackageArtifact → Solving Verdict
    unfolding judge_deps
    judge_version failing stack art = do
      s ← get
      in_conflict ←
          if s.opts.ignore_conflicts then give false else lift (artefact_is_in_conflict g s art)
      if in_conflict then give banned else do
        admitted ← lift (artefact_admit_by_queue g rt s art)
        n ← next_tick
        if not admitted then give failing else judge_deps failing stack art

    -- A newer version, which the users of the package have to admit first.
    unfoldable pub judge_newer :
        List String → PackageArtifact → (candidate : DefaultPackage) → Solving Verdict
    unfolding users_admit_new judge_version
    judge_newer stack art candidate = do
      s ← get
      users_admit ← lift (
          users_admit_new s.available_arts_map candidate
            (listed (lookup (name_of candidate) s.requires_map)))
      if users_admit then judge_version skipped stack art else give skipped

    -- The tests of a version `gp_s` against the installed one. `none` stands for an installed version
    -- that does not parse: the comparison reads a field of a nil pointer.
    unfoldable pub age_of :
        (deep found_equal : Bool) → GentooPackage → Option GentooPackage → Result Age
    age_of deep found_equal gp_s none = panic
    age_of deep found_equal gp_s (some gp_i) =
        luet.Result.◌>>=◌ (answered (greater_than gp_s gp_i)) (λ val. ok (
          if val
          then newer
          else if holds (g.equal gp_s gp_i)
          then equal
          else if deep
          then (if found_equal then older else downgrade)
          else older))

    abbrev is_equal : Age → Bool
    is_equal newer = false
    is_equal equal = true
    is_equal downgrade = false
    is_equal older = false

    module _ (generate_hash : Digest) (dp : DefaultPackage) (gp_i : Option GentooPackage)
        (stack : List String) where
      -- The branches of the loop of checkCandidate2Upgrade.
      unfoldable pub judge_4_upgrade :
          Age → PackageArtifact → (candidate : DefaultPackage) → Solving Verdict
      unfolding judge_newer judge_version judge_deps
      judge_4_upgrade newer art candidate = judge_newer stack art candidate
      judge_4_upgrade equal art candidate =
          if get_comparition_hash generate_hash dp == get_comparition_hash generate_hash candidate
          then give unchanged
          else judge_deps banned stack art
      judge_4_upgrade downgrade art candidate = judge_version banned stack art
      judge_4_upgrade older art candidate = give banned

      -- The loop over selectedArts: whether it found a match, and the banned versions.
      unfoldable pub select_4_upgrade :
          List PackageArtifact
          → (found_equal : Bool) → (banned_version : List String) → Solving (Bool × List String)
      unfolding judge_4_upgrade age_of
      select_4_upgrade [] found_equal banned_version = give (false, banned_version)
      select_4_upgrade (art ∷ arts) found_equal banned_version =
          let rest = select_4_upgrade arts in
          elim (stands_for dp (get_package art)) [
            | none ↦ rest found_equal banned_version
            | some candidate ↦ (do
              gp_s ← lift (to_gentoo_package g candidate)
              if contains_elem banned_version (get_version candidate)
                  then rest found_equal banned_version
                  else do
                    s ← get
                    age ← lift (age_of s.opts.deep found_equal gp_s gp_i)
                    let found_equal' = if is_equal age then true else found_equal
                    verdict ← judge_4_upgrade age art candidate
                    elim verdict [
                      | banned ↦ rest found_equal' (get_version candidate ∷ banned_version)
                      | skipped ↦ rest found_equal' banned_version
                      | matched ↦ give (true, banned_version)
                      | unchanged ↦ give (false, get_version candidate ∷ banned_version)
                    ])
          ]

  -- The versions at hand of a package, sorted. With a map of repositories they are sorted in place.
  unfoldable pub selected_4_upgrade : String → Solving (List PackageArtifact)
  selected_4_upgrade pkgstr = do
    s ← get
    elim s.map_repos [
      | none ↦ lift (get_sorted_artifacts_by_key g s.available_arts_map pkgstr)
      | some map_repos ↦ (do
        selected_arts ← lift (get_artifacts_by_key s.available_arts_map pkgstr)
        sorted ← lift (sort_artifact_list_4_version_and_repos g rt true map_repos selected_arts)
        modify (λ s. record s { available_arts_map = put pkgstr sorted s.available_arts_map })
        give sorted)
    ]

  -- gpI, _ := dp[0].ToGentooPackage()
  abbrev parsed : Result GentooPackage → Option GentooPackage
  parsed (ok p) = some p
  parsed (err e) = none
  parsed panic = none
  parsed out_of_fuel = none

  unfoldable pub check_candidate_2_upgrade :
      Digest
      → (resolve : String → List String → Solving (Unit {0})) → (pkgstr : String)
      → (stack : List String) → Solving (Unit {0})
  unfolding select_4_upgrade selected_4_upgrade
  check_candidate_2_upgrade generate_hash resolve pkgstr stack =
      if contains_elem stack pkgstr then give tt else do
        s ← get
        if has pkgstr s.candidates_map then give tt else do
          selected_arts ← selected_4_upgrade pkgstr
          s ← get
          elim (lookup pkgstr s.system_map) [
            | none ↦ lift (err (not_installed pkgstr))
            | some val ↦ (do
              dp ← lift (first val)
              (found_matched, banned_version) ←
                  select_4_upgrade resolve generate_hash dp (parsed (to_gentoo_package g dp)) stack
                    selected_arts false []
              if found_matched
                  then modify (
                      accept g rt searcher pkgstr
                        (valid_arts g rt searcher banned_version selected_arts))
                  else give tt)
          ]
