-- ===== src/Solver/Orphans.antt =====
-- pkg/v2/solver/orphans.go: checkOrphanPackage and Orphans. A goroutine runs for each package of the
-- system map, and sends one response.

pub mod Answers
mod Tests
use luet.Prelude.{
  String, Bool, true, false, none, some, List, [], ◌∷◌, ◌++◌, if◌then◌else◌, is_empty, map,
}
use luet.GoMap.{Map}
use luet.Runtime.{GoRuntime}
use luet.Result.{Result, ok, err, orphans_interrupted}
use luet.Package.Default.{DefaultPackage}
use luet.Operations.{first}
use luet.Solver.{
  SolverOpts, SearchOpts, Searcher, PkgsMapList, Solving, give, ◌>>=◌, ◌>>◌, get, modify, lift,
  next_tick,
}
use luet.Solver.Conflicts.{prepare_conflicts_and_system_map}

-- helpers.ChannelError: an error with its package, a package, or neither.
pub data Response : Type 0 where
  failed : DefaultPackage → Response
  orphan : DefaultPackage → Response
  available : Response

-- The search for the package in the repositories, hidden ones included.
abbrev pub orphan_search : SolverOpts → DefaultPackage → SearchOpts
orphan_search opts p = record {
  packages = p ∷ [];
  hidden = true;
  with_files = false;
  full = false;
  ignore_masks = opts.ignore_masks;
}

-- The loop that receives the responses: whether one failed, and the packages behind `ans`.
unfoldable pub receive :
    List Response → (fail : Bool) → (ans : List DefaultPackage) → Bool × List DefaultPackage
receive [] fail ans = (fail, ans)
receive (failed p ∷ resps) fail ans = receive resps true ans
receive (orphan p ∷ resps) fail ans = receive resps fail (ans ++ p ∷ [])
receive (available ∷ resps) fail ans = receive resps fail ans

-- p[0] of each entry.
unfoldable pub firsts : PkgsMapList → Result (List DefaultPackage)
firsts [] = ok []
firsts ((k, p) ∷ m) =
    luet.Result.◌>>=◌ (first p) (λ q. luet.Result.◌>>=◌ (firsts m) (λ rest. ok (q ∷ rest)))

module _ (rt : GoRuntime) (searcher : Searcher) where
  unfoldable pub check_orphan_package : SolverOpts → DefaultPackage → Response
  check_orphan_package opts p = elim (searcher (orphan_search opts p)) [
    | none ↦ failed p
    | some repos_artifacts ↦ if is_empty repos_artifacts then orphan p else available
  ]

  unfoldable pub orphans : (world : List DefaultPackage) → Solving (List DefaultPackage)
  unfolding receive firsts check_orphan_package
  orphans world = do
    modify (prepare_conflicts_and_system_map world false)
    s ← get
    n ← next_tick
    pkgs ← lift (firsts (rt.range n s.system_map))
    n ← next_tick
    let (fail, ans) = receive (rt.deliver n (map (check_orphan_package s.opts) pkgs)) false []
    if fail then lift (err orphans_interrupted) else give ans
