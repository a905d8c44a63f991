-- ===== src/Solver/Tests.antt =====
-- The refusal of a package by an installed one, and a run of Install.
use luet.Prelude.{
  pos, ℤ, ◌≢◌, ◌<◌, all, subst, some_injective, arith, true, some, ◌≡◌, refl, String, false, none,
  List, [], ◌∷◌, ◌==◌, ◌&&◌, not, any,
}
use luet.Package.Default.{DefaultPackage, pkg, nil, of_list, name_of, get_conflicts}
use luet.Package.Admit.{admit}
use luet.Solver.{Solver, SolverOpts}
use luet.Solver.Conflicts.{prepare_conflicts_and_system_map, refused_by, valid}
use luet.Solver.Refusal.{refused_by-prepare}
use mathlib.Core.List.{Perm}
use luet.Solver.Sorting.{requires_and_repos, sort_artifact_list_4_requires_and_repos}
use luet.Solver.Ranking.{sort_artifact_list_4_requires_and_repos-IsRanked, IsRanked}
use luet.Samples.{plain_gentoo, in_order}
use luet.Artifact.{PackageArtifact, runtime}
use luet.Solver.{Searcher}
use luet.Result.{Result, ok, out_of_fuel, Answered}
use luet.Solver.Named.{is_known, IsNamed}
use luet.Solver.Depth.Descent.{resolve_package-ne-out_of_fuel}
use luet.Solver.Depth.Install.{install-ne-out_of_fuel}
use luet.Solver.Queue.{IsFull, artefact_admit_by_queue-Answered}
use luet.Solver.Conflicts.{artefact_admit_by_queue}
use luet.Solver.Install.{install}
use luet.Prelude.{contains_elem}
use luet.GoMap.{Map, has}
use luet.Solver.Resolve.{resolve_package}
use luet.Solver.Candidates.{Keeps, resolve_package-Keeps, resolve_package-has}

abbrev entry : String → String → (conflicts : List DefaultPackage) → DefaultPackage
entry n v cs =
    pkg
      (record {
        name = n;
        category = "cat";
        version = v;
        repository = "main";
        license = "";
        use_flags = [];
      })
      nil (of_list cs) nil

abbrev no_opts : SolverOpts
no_opts = record {
  ignore_conflicts = false;
  force = false;
  no_deps = false;
  ignore_masks = false;
  deep = false;
}

abbrev fresh : Solver
fresh = record {
  opts = no_opts;
  conflicts_map = [];
  system_map = [];
  provides_map = [];
  requires_map = [];
  available_arts_map = [];
  candidates_map = [];
  map_repos = none;
  ticks = 0;
}

-- "old" is installed and conflicts with any "new".
abbrev installed : List DefaultPackage
installed = entry "base" "1" [] ∷ entry "old" "1" (entry "new" ">=0" [] ∷ []) ∷ []

abbrev candidate : DefaultPackage
candidate = entry "new" "2" []

refused_by-prepare_example :
    refused_by plain_gentoo (prepare_conflicts_and_system_map installed false fresh) candidate
    ≡ any
        (λ c.
          any (λ q. name_of q == name_of candidate) (get_conflicts c)
          && not (valid (admit plain_gentoo c candidate)))
        installed
refused_by-prepare_example = refused_by-prepare plain_gentoo installed false fresh candidate refl

-- The repositories hold two versions of "tool". The first requires "bad", whose installed version is
-- not admitted, so the dependencies of that version fail and the second one matches.
abbrev needing : String → String → List DefaultPackage → PackageArtifact
needing n v rs = record {
  path = "";
  packages =
      runtime
        (pkg
          (record {
            name = n;
            category = "cat";
            version = v;
            repository = "main";
            license = "";
            use_flags = [];
          })
          (of_list rs) nil nil)
        none;
}

abbrev tool_2 : PackageArtifact
tool_2 = needing "tool" "2" (entry "bad" ">=2" [] ∷ [])

abbrev tool_1 : PackageArtifact
tool_1 = needing "tool" "1" []

abbrev repositories : Searcher
repositories opts = some (tool_2 ∷ tool_1 ∷ [])

program : Unit {0}
unfolding install luet.Solver.◌>>=◌ prepare_conflicts_and_system_map luet.Artifact.to_map
    luet.GoMap.append_at ◌==◌ luet.Artifact.artifact_name name_of luet.Package.Names.package_name
    luet.Artifact.get_package luet.Solver.Resolve.resolve_package luet.Prelude.contains_elem
    luet.GoMap.has luet.Solver.Sorting.get_sorted_artifacts_by_key
    luet.Package.Default.human_readable_string luet.Package.Names.human_readable
    luet.Solver.Conflicts.artefact_is_in_conflict luet.Solver.Conflicts.artefact_admit_by_queue
    luet.GoMap.delete_all luet.GoMap.lookup luet.GoMap.put admit luet.Package.Default.atom_matches
    luet.Package.Default.has_provides luet.Package.Default.to_gentoo_package
    luet.Package.Names.trim_selector
program = tt

-- The candidates keep the version that was skipped in front, and Install answers with it.
install_skipped :
    (install plain_gentoo in_order repositories 3
      (some (entry "bad" "1" [] ∷ []))
      (ok [])
      (entry "tool" ">=0" [] ∷ [])
      fresh).1
    ≡ ok (tool_2 ∷ [], [])
unfolding program
install_skipped = refl

-- "main" has priority 5, and the repository of "far" is not in the map.
abbrev of_repository : (name repository : String) → PackageArtifact
of_repository n r = record {
  path = "";
  packages =
      runtime
        (pkg
          (record {
            name = n;
            category = "cat";
            version = "1";
            repository = r;
            license = "";
            use_flags = [];
          })
          (of_list []) nil nil)
        none;
}

abbrev ranking : List PackageArtifact
ranking = tool_2 ∷ of_repository "far" "other" ∷ of_repository "near" "main" ∷ []

sort_artifact_list_4_requires_and_repos-IsRanked_example :
    Perm (sort_artifact_list_4_requires_and_repos in_order (("main", pos 5) ∷ []) ranking) ranking
    × IsRanked
        (("main", pos 5) ∷ [])
        (sort_artifact_list_4_requires_and_repos in_order (("main", pos 5) ∷ []) ranking)
sort_artifact_list_4_requires_and_repos-IsRanked_example =
    sort_artifact_list_4_requires_and_repos-IsRanked in_order (("main", pos 5) ∷ []) ranking

abbrev ready : Solver
ready = record fresh { available_arts_map = ("cat/tool", tool_1 ∷ []) ∷ [] }

abbrev resolved_tool : Solver
resolved_tool = record ready { candidates_map = ("cat/tool", tool_1 ∷ []) ∷ []; ticks = 1 }

resolve_tool :
    resolve_package plain_gentoo in_order repositories 1 "cat/tool" [] ready
    ≡ (resolved_tool, ok tt)
unfolding program
resolve_tool = refl

no_stack : contains_elem [] "cat/tool" ≡ false
unfolding contains_elem
no_stack = refl

resolve_package-has_example : has "cat/tool" resolved_tool.candidates_map ≡ true
resolve_package-has_example =
    resolve_package-has plain_gentoo in_order repositories 1 "cat/tool" [] ready resolved_tool
      no_stack resolve_tool

resolve_package-Keeps_example :
    Keeps (resolve_package plain_gentoo in_order repositories 1 "cat/tool" [])
resolve_package-Keeps_example =
    resolve_package-Keeps plain_gentoo in_order repositories 1 "cat/tool" []

-- A queue with "tool", and an artefact that it is asked about.
abbrev queued : Solver
queued = record fresh { candidates_map = ("cat/tool", tool_1 ∷ []) ∷ [] }

artefact_admit_by_queue-Answered_example :
    Answered (artefact_admit_by_queue plain_gentoo in_order queued tool_2)
    × IsFull (resolve_package plain_gentoo in_order repositories 2 "cat/bad" [] queued).0
    × Answered (
        artefact_admit_by_queue plain_gentoo in_order
          (resolve_package plain_gentoo in_order repositories 2 "cat/bad" [] queued).0
          tool_2)
artefact_admit_by_queue-Answered_example =
    artefact_admit_by_queue-Answered plain_gentoo in_order repositories 2 "cat/bad" [] tool_2 queued
      refl

abbrev tool_names : List String
tool_names = "cat/tool" ∷ []

tool_known : all (is_known tool_names) (tool_2 ∷ tool_1 ∷ []) ≡ true
unfolding program
tool_known = refl

ready-IsNamed : IsNamed tool_names ready.available_arts_map
unfolding program
ready-IsNamed = refl

short_list : 1 < 2
short_list = omega arith

resolve_package-ne-out_of_fuel_example :
    ((resolve_package plain_gentoo in_order repositories 2 "cat/tool" [] ready).1 ≢ out_of_fuel)
    × IsNamed tool_names
        (resolve_package plain_gentoo in_order repositories 2 "cat/tool" []
          ready).0.available_arts_map
resolve_package-ne-out_of_fuel_example =
    resolve_package-ne-out_of_fuel plain_gentoo in_order repositories tool_names
      (λ opts arts h. subst (λ l. all (is_known tool_names) l ≡ true) (some_injective h) tool_known)
      2 "cat/tool" [] ready short_list ready-IsNamed

abbrev main_repository : Result (Map ℤ)
main_repository = ok (("main", pos 5) ∷ [])

repos_read : main_repository ≢ out_of_fuel
repos_read e = cc

install-ne-out_of_fuel_example :
    (install plain_gentoo in_order repositories 2
      (some (entry "bad" "1" [] ∷ []))
      main_repository
      (entry "tool" ">=0" [] ∷ [])
      fresh).1
    ≢ out_of_fuel
install-ne-out_of_fuel_example =
    install-ne-out_of_fuel plain_gentoo in_order repositories tool_names
      (λ opts arts h. subst (λ l. all (is_known tool_names) l ≡ true) (some_injective h) tool_known)
      2 short_list (some (entry "bad" "1" [] ∷ [])) main_repository (entry "tool" ">=0" [] ∷ [])
      fresh repos_read
