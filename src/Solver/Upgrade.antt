-- ===== src/Solver/Upgrade.antt =====
-- Upgrade of pkg/v2/solver/solver_upgrade.go. Upgrade/News and Upgrade/Analysis:
-- checkInstalledPackage and analyzeInstalledPackages; Upgrade/Candidate: checkCandidate2Upgrade and
-- processArtefactDeps4Upgrade; Upgrade/Answer: the lists of packages that Upgrade returns.
pub mod News
pub mod Analysis
pub mod Analyzed
pub mod Candidate
pub mod Answer
pub mod Handled
pub mod Steps
pub mod Correct
pub mod Promises
mod Tests
pub mod Covered
pub mod Removed
use luet.Prelude.{
  ℕ, ℤ, String, Bool, true, false, Option, none, some, List, [], ◌∷◌, ◌++◌, ◌==◌, if◌then◌else◌,
  contains_elem, is_empty,
}
use luet.GoMap.{Map, has}
use luet.Runtime.{GoRuntime}
use luet.Result.{Result, ok, err, no_database}
use luet.Gentoo.{Gentoo}
use luet.Package.Default.{DefaultPackage}
use luet.Artifact.{PackageArtifact, ArtifactsMap, artifact_name}
use luet.Solver.{Solver, Searcher, Solving, give, ◌>>=◌, ◌>>◌, get, modify, lift, next_tick}
use luet.Solver.Sorting.{requires_and_repos}
use luet.Solver.Conflicts.{prepare_conflicts_and_system_map}
use luet.Solver.Resolve.{resolve_package}
use luet.Solver.Upgrade.News.{Digest}
use luet.Solver.Upgrade.Analysis.{analyze_installed_packages, repos_of}
use luet.Solver.Upgrade.Candidate.{check_candidate_2_upgrade}
use luet.Solver.Upgrade.Answer.{Answers, no_answers, sort_out_all, sort_out_named}

-- An artefact at hand, with the key that GetKeyFromValue finds it under: the artefacts at hand are
-- all different pointers.
abbrev pub Keyed : Type 0
Keyed = String × PackageArtifact

abbrev under : String → List PackageArtifact → List Keyed
under k [] = []
under k (a ∷ arts) = (k, a) ∷ under k arts

-- ToList, on the map in the order of a range.
unfoldable pub keyed_list : ArtifactsMap → List Keyed
keyed_list [] = []
keyed_list ((k, arts) ∷ am) = under k arts ++ keyed_list am

-- The name to analyze for an artefact: its own if it is a key of the packages at hand, the key of
-- the package that it provides otherwise, unless that is empty.
abbrev pub analyzed_name : ArtifactsMap → Keyed → Option String
analyzed_name available (k, art) =
    if has (artifact_name art) available
    then some (artifact_name art)
    else if k == ""
    then none
    else some k

-- The loop that makes pList. `map_art` is the names so far.
unfoldable pub p_list : ArtifactsMap → List Keyed → (map_art : List String) → List String
p_list available [] map_art = []
p_list available (e ∷ es) map_art =
    let rest = p_list available es in
    elim (analyzed_name available e) [
      | none ↦ rest map_art
      | some pname ↦
          if contains_elem map_art pname then rest map_art else pname ∷ rest (pname ∷ map_art)
    ]

module _ (g : Gentoo) (generate_hash : Digest) (rt : GoRuntime) (searcher : Searcher) where
  -- The loop over pList.
  unfoldable pub check_candidates : ℕ → List String → Solving (Unit {0})
  check_candidates depth [] = give tt
  check_candidates depth (pname ∷ pnames) = do
    check_candidate_2_upgrade g rt searcher generate_hash (resolve_package g rt searcher depth)
        pname []
    check_candidates depth pnames

  -- The packs from the candidates.
  unfoldable pub to_answers : (pnames : List String) → Solving Answers
  to_answers pnames = do
    modify (λ s. record s { map_repos = none })
    s ← get
    n ← next_tick
    lift (
        if s.opts.no_deps
        then sort_out_named s.system_map s.candidates_map pnames no_answers
        else sort_out_all s.system_map s.candidates_map (rt.range n s.candidates_map) no_answers)

  -- The names to analyze, from the packages at hand in the order of a range.
  unfoldable pub sorted_names : ℕ → Solver → List String
  unfolding keyed_list p_list
  sorted_names n s =
      p_list s.available_arts_map
        (rt.sort_slice (λ x y. requires_and_repos (repos_of s.map_repos) x.1 y.1)
          (keyed_list (rt.range n s.available_arts_map)))
        []

  -- What follows the analysis.
  unfoldable pub check_found : (depth : ℕ) → Solving Answers
  unfolding sorted_names check_candidates to_answers
  check_found depth = do
    s ← get
    if is_empty s.available_arts_map then give no_answers else do
      n ← next_tick
      let pnames = sorted_names n s
      check_candidates depth pnames
      to_answers pnames

  -- `world` is the installed packages, `none` a nil database; `repos` the priorities of the enabled
  -- repositories, or the error on reading one; `depth` bounds the depth of the calls.
  unfoldable pub upgrade :
      (depth : ℕ)
      → (world : Option (List DefaultPackage)) → (repos : Result (Map ℤ)) → Solving Answers
  unfolding check_found
  upgrade depth none repos = lift (err no_database)
  upgrade depth (some world) repos = do
    modify (prepare_conflicts_and_system_map world true)
    modify (λ s. record s { map_repos = some [] })
    map_repos ← lift repos
    modify (λ s. record s { map_repos = some map_repos })
    analyze_installed_packages g generate_hash rt searcher
    check_found depth
