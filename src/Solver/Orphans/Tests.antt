-- ===== src/Solver/Orphans/Tests.antt =====
-- A run of Orphans.
use mathlib.Core.List.{Perm}
use luet.Prelude.{◌≡◌, refl, true, false, some, none, List, [], ◌∷◌, ◌==◌, any, keep, if◌then◌else◌}
use luet.Result.{ok, err, orphans_interrupted}
use luet.Package.Default.{DefaultPackage, name_of, new_package_with_cat_thin}
use luet.Artifact.{runtime}
use luet.Samples.{in_order}
use luet.Solver.{Solver, Searcher}
use luet.Solver.SystemMap.{first_of_names}
use luet.Solver.Orphans.{orphans}
use luet.Solver.Orphans.Answers.{search_fails, is_missing, orphans-Perm}

abbrev kept : DefaultPackage
kept = new_package_with_cat_thin "cat" "kept" "1"

abbrev gone : DefaultPackage
gone = new_package_with_cat_thin "cat" "gone" "1"

abbrev fresh : Solver
fresh = record {
  opts = record {
    ignore_conflicts = false;
    force = false;
    no_deps = false;
    ignore_masks = false;
    deep = false;
  };
  conflicts_map = [];
  system_map = [];
  provides_map = [];
  requires_map = [];
  available_arts_map = [];
  candidates_map = [];
  map_repos = none;
  ticks = 0;
}

abbrev repositories : Searcher
repositories opts = some (
    if any (λ p. name_of p == "cat/kept") opts.packages
    then record { path = ""; packages = runtime kept none } ∷ []
    else [])

abbrev world : List DefaultPackage
world = kept ∷ gone ∷ []

gone_orphan : (orphans in_order repositories world fresh).1 ≡ ok (gone ∷ [])
unfolding orphans luet.Solver.◌>>=◌ luet.Solver.Conflicts.prepare_conflicts_and_system_map
    luet.GoMap.append_at luet.GoMap.put luet.GoMap.lookup ◌==◌ name_of
    luet.Package.Names.package_name
gone_orphan = refl

orphans-Perm_example :
    (any (search_fails repositories fresh.opts) (first_of_names [] world) ≡ true
      → (orphans in_order repositories world fresh).1 ≡ err orphans_interrupted)
    × (any (search_fails repositories fresh.opts) (first_of_names [] world) ≡ false
        → (ans : List DefaultPackage) × ((orphans in_order repositories world fresh).1 ≡ ok ans)
          × Perm ans (keep (is_missing repositories fresh.opts) (first_of_names [] world)))
orphans-Perm_example = orphans-Perm in_order repositories world fresh
