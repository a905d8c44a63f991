-- ===== src/Solver/Upgrade/Tests.antt =====
-- Runs of Upgrade and of its analysis.
use luet.Prelude.{
  ◌≡◌, refl, String, Bool, true, false, some, List, [], ◌∷◌, ◌&&◌, ◌==◌, any, all, All, Member,
}
use luet.GoMap.{has, lookup}
use luet.Result.{Result, ok, err, panic, analysis_failed}
use luet.Package.Default.{DefaultPackage, pkg, nil, of_list, name_of}
use luet.Artifact.{PackageArtifact, runtime, artifact_name}
use luet.Samples.{plain_gentoo, in_order}
use luet.Solver.{Solver, SolverOpts, Searcher, ◌>>=◌}
use luet.Solver.Conflicts.{prepare_conflicts_and_system_map}
use luet.Solver.SystemMap.{first_of_names, system_map-IsFilled}
use luet.Solver.Upgrade.{upgrade}
use luet.Solver.Upgrade.News.{Digest, check_installed_package}
use luet.Solver.Upgrade.Analysis.{analyze_installed_packages, news, panicked, failed, repos_of}
use luet.Solver.Upgrade.Analyzed.{is_some, analyze_installed_packages-has}
use luet.Solver.Upgrade.Answer.{Answers, no_answers, to_remove}
use luet.Solver.Upgrade.Handled.{is_handled}
use luet.Solver.Upgrade.Promises.{upgrade-removes, upgrade-is_handled, upgrade-no_answers}

abbrev entry : (name version : String) → (requires provides : List DefaultPackage) → DefaultPackage
entry n v rs ps =
    pkg
      (record {
        name = n;
        category = "cat";
        version = v;
        repository = "main";
        license = "";
        use_flags = [];
      })
      (of_list rs) nil (of_list ps)

abbrev of_package : DefaultPackage → PackageArtifact
of_package p = record { path = ""; packages = runtime p luet.Prelude.none }

abbrev options : (no_deps : Bool) → SolverOpts
options no_deps = record {
  ignore_conflicts = false;
  force = false;
  no_deps = no_deps;
  ignore_masks = false;
  deep = false;
}

abbrev fresh : Bool → Solver
fresh no_deps = record {
  opts = options no_deps;
  conflicts_map = [];
  system_map = [];
  provides_map = [];
  requires_map = [];
  available_arts_map = [];
  candidates_map = [];
  map_repos = luet.Prelude.none;
  ticks = 0;
}

abbrev app_1 : DefaultPackage
app_1 = entry "app" "1" [] []

abbrev base : DefaultPackage
base = entry "base" "1" [] []

-- The new version of "app" requires "lib", which is not installed, and provides "base".
abbrev app_2 : DefaultPackage
app_2 = entry "app" "2" (entry "lib" ">=0" [] [] ∷ []) (entry "base" "1" [] [] ∷ [])

abbrev lib : DefaultPackage
lib = entry "lib" "1" [] []

-- The artefacts that the repositories have under a name.
abbrev named : String → List PackageArtifact
named n =
    luet.Prelude.if◌then◌else◌ (n == "cat/app") (of_package app_2 ∷ [])
      (luet.Prelude.if◌then◌else◌ (n == "cat/lib") (of_package lib ∷ []) [])

abbrev asked : List DefaultPackage → List PackageArtifact
asked [] = []
asked (p ∷ ps) = named (name_of p)

abbrev repositories : Searcher
repositories opts = some (asked opts.packages)

abbrev empty_repositories : Searcher
empty_repositories opts = some []

abbrev same_hash : Digest
same_hash t = ""

abbrev world : List DefaultPackage
world = app_1 ∷ base ∷ []

program : Unit {0}
unfolding upgrade first_of_names luet.Solver.◌>>=◌ prepare_conflicts_and_system_map
    analyze_installed_packages luet.GoMap.append_at ◌==◌ name_of luet.Package.Names.package_name
    luet.Package.Default.to_gentoo_package
    luet.Solver.Sorting.sort_artifact_list_4_version_and_repos luet.Package.Default.atom_matches
    luet.Artifact.get_package luet.Prelude.contains_elem luet.Sort.Less.str_lt
    luet.Package.Names.trim_selector has artifact_name lookup luet.GoMap.put
    luet.Solver.Resolve.resolve_package luet.Package.Default.get_provide_package
    luet.Artifact.get_artifacts_by_key luet.Artifact.add_all luet.Package.Admit.admit
    luet.Solver.Conflicts.artefact_is_in_conflict luet.Solver.Conflicts.artefact_admit_by_queue
    luet.Solver.Sorting.get_sorted_artifacts_by_key luet.Package.Default.human_readable_string
    luet.Package.Names.human_readable luet.Artifact.is_present
    luet.Solver.Upgrade.News.get_comparition_hash luet.Package.Default.has_provides
    luet.Solver.Upgrade.check_candidates luet.Solver.Upgrade.Answer.sort_out_all
    luet.Solver.Upgrade.Answer.sort_out_named
    luet.Solver.Upgrade.Candidate.check_candidate_2_upgrade luet.Package.Default.to_package_thin
program = tt

abbrev done : Solver
done = (upgrade plain_gentoo same_hash in_order repositories 3 (some world) (ok []) (fresh false)).0

abbrev packs : Answers
packs = record {
  remove = to_remove app_1 ∷ to_remove base ∷ [];
  update = of_package app_2 ∷ [];
  install = of_package lib ∷ [];
}

upgrade_app :
    upgrade plain_gentoo same_hash in_order repositories 3 (some world) (ok []) (fresh false)
    ≡ (done, ok packs)
unfolding program
upgrade_app = refl

upgrade-removes_example :
    All (λ r. (q : DefaultPackage) × Member q world × (r ≡ to_remove q)) packs.remove
    × All (λ u. any (λ q. name_of q == artifact_name u) world ≡ true) packs.update
upgrade-removes_example =
    upgrade-removes plain_gentoo same_hash in_order repositories 3 world [] (fresh false) done packs
      upgrade_app

has_news_app :
    any
      (λ p. is_some (
        news (
          check_installed_package plain_gentoo same_hash in_order repositories
            (prepare_conflicts_and_system_map world true (fresh false)).opts
            []
            p)))
      (first_of_names [] world)
    ≡ true
unfolding program
has_news_app = refl

upgrade-is_handled_example :
    all
      (is_handled
        (prepare_conflicts_and_system_map world true (fresh false)).system_map
        done.candidates_map
        packs)
      done.candidates_map
    ≡ true
upgrade-is_handled_example =
    upgrade-is_handled plain_gentoo same_hash in_order repositories 3 world [] (fresh false) done
      packs upgrade_app refl has_news_app

nothing_panics :
    any
      (λ p. panicked (
        p,
        check_installed_package plain_gentoo same_hash in_order empty_repositories
            (prepare_conflicts_and_system_map world true (fresh false)).opts
            []
            p,
      ))
      (first_of_names [] world)
    ≡ false
unfolding program
nothing_panics = refl

nothing_fails :
    any
      (λ p. failed (
        p,
        check_installed_package plain_gentoo same_hash in_order empty_repositories
            (prepare_conflicts_and_system_map world true (fresh false)).opts
            []
            p,
      ))
      (first_of_names [] world)
    ≡ false
unfolding program
nothing_fails = refl

nothing_new :
    any
      (λ p. is_some (
        news (
          check_installed_package plain_gentoo same_hash in_order empty_repositories
            (prepare_conflicts_and_system_map world true (fresh false)).opts
            []
            p)))
      (first_of_names [] world)
    ≡ false
unfolding program
nothing_new = refl

upgrade-no_answers_example :
    (upgrade plain_gentoo same_hash in_order empty_repositories 3
      (some world)
      (ok [])
      (fresh false)).1
    ≡ ok no_answers
upgrade-no_answers_example =
    upgrade-no_answers plain_gentoo same_hash in_order empty_repositories 3 world [] (fresh false)
      nothing_panics nothing_fails nothing_new

abbrev ready : Solver
ready = prepare_conflicts_and_system_map world true (fresh false)

abbrev checked_app : DefaultPackage → Result (luet.Prelude.Option (List PackageArtifact))
checked_app p =
    check_installed_package plain_gentoo same_hash in_order repositories ready.opts
      (repos_of ready.map_repos) p

analyze_installed_packages-has_example :
    (any (λ p. panicked (p, checked_app p)) (first_of_names [] world) ≡ true
      → (analyze_installed_packages plain_gentoo same_hash in_order repositories ready).1 ≡ panic)
    × (any (λ p. panicked (p, checked_app p)) (first_of_names [] world) ≡ false
        → any (λ p. failed (p, checked_app p)) (first_of_names [] world) ≡ true
        → (analyze_installed_packages plain_gentoo same_hash in_order repositories ready).1
          ≡ err analysis_failed)
    × (any (λ p. panicked (p, checked_app p)) (first_of_names [] world) ≡ false
        → any (λ p. failed (p, checked_app p)) (first_of_names [] world) ≡ false
        → ((analyze_installed_packages plain_gentoo same_hash in_order repositories ready).1
            ≡ ok tt)
          × ((k : String)
              → has k
                  (analyze_installed_packages plain_gentoo same_hash in_order repositories
                    ready).0.available_arts_map
                ≡ any
                    (λ p. name_of p == k && is_some (news (checked_app p)))
                    (first_of_names [] world)))
analyze_installed_packages-has_example =
    analyze_installed_packages-has plain_gentoo same_hash in_order repositories ready
      (first_of_names [] world) (system_map-IsFilled true world (fresh false))

-- The new version of "bad" is not admitted by its user, so it has no candidate, and with the option
-- NoDeps the first candidate is read all the same.
abbrev bad_repositories : Searcher
bad_repositories opts = some (
    luet.Prelude.if◌then◌else◌ (any (λ p. name_of p == "cat/bad") opts.packages)
      (of_package (entry "bad" "1" [] []) ∷ []) [])

upgrade_no_deps :
    (upgrade plain_gentoo same_hash in_order bad_repositories 3
      (some (entry "bad" "0" [] [] ∷ entry "user" "1" (entry "bad" "<1" [] [] ∷ []) [] ∷ []))
      (ok [])
      (fresh true)).1
    ≡ panic
unfolding program
upgrade_no_deps = refl

-- "q" provides "k" and requires "d", which only the new "k" provides: "k" is resolved with "q" on the
-- stack, and its first artefact is "q" again. Any depth of calls is used up.
abbrev q_3 : DefaultPackage
q_3 = entry "q" "3" (entry "d" ">=0" [] [] ∷ []) (entry "k" "3" [] [] ∷ [])

abbrev k_2 : DefaultPackage
k_2 = entry "k" "2" [] (entry "d" "2" [] [] ∷ [])

abbrev looping_repositories : Searcher
looping_repositories opts = some (
    luet.Prelude.if◌then◌else◌ (any (λ p. name_of p == "cat/k") opts.packages)
      (of_package q_3 ∷ of_package k_2 ∷ [])
      (luet.Prelude.if◌then◌else◌ (any (λ p. name_of p == "cat/d") opts.packages)
        (of_package k_2 ∷ [])
        (luet.Prelude.if◌then◌else◌ (any (λ p. name_of p == "cat/q") opts.packages)
          (of_package q_3 ∷ []) [])))

upgrade_runs_out :
    (upgrade plain_gentoo same_hash in_order looping_repositories 12
      (some (entry "k" "1" [] [] ∷ []))
      (ok [])
      (fresh false)).1
    ≡ luet.Result.out_of_fuel
unfolding program luet.Solver.Sorting.requires_and_repos luet.Package.Default.has_requires
upgrade_runs_out = refl
