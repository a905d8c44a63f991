-- ===== src/Solver.antt =====
-- The solver of pkg/v2/solver/solver.go: its options and maps, and the monad of its methods. A
-- method changes the maps also when it returns an error, so it gives back both.
pub mod Sorting
pub mod Conflicts
pub mod Resolve
pub mod Install
pub mod Refusal
pub mod Ranking
pub mod Calls
pub mod Selected
pub mod Frame
pub mod Candidates
pub mod Queue
pub mod Named
pub mod Depth
pub mod Upgrade
pub mod Orphans
pub mod SystemMap
mod Tests
use luet.Prelude.{ℕ, ◌+◌, ℤ, Bool, true, false, Option, none, List}
use luet.GoMap.{Map}
use luet.Result.{Result, Error, ok, err, panic, out_of_fuel}
use luet.Package.Default.{DefaultPackage}
use luet.Artifact.{PackageArtifact, ArtifactsMap}

pub record SolverOpts : Type 0 where
  pub ignore_conflicts : Bool
  pub force : Bool
  pub no_deps : Bool
  pub ignore_masks : Bool
  pub deep : Bool

-- PkgsMapList of pkg/package/map.go. Its Add is `append_at`.
abbrev pub PkgsMapList : Type 0
PkgsMapList = Map (List DefaultPackage)

-- `map_repos` holds the priorities of the repositories; `none` is a nil map. `ticks` counts the
-- `range` loops over maps.
pub record Solver : Type 0 where
  pub opts : SolverOpts
  pub conflicts_map : PkgsMapList
  pub system_map : PkgsMapList
  pub provides_map : PkgsMapList
  pub requires_map : PkgsMapList
  pub available_arts_map : ArtifactsMap
  pub candidates_map : ArtifactsMap
  pub map_repos : Option (Map ℤ)
  pub ticks : ℕ

-- The fields of StonesSearchOpts that the solver's searches differ in.
pub record SearchOpts : Type 0 where
  pub packages : List DefaultPackage
  pub hidden : Bool
  pub with_files : Bool
  pub full : Bool
  pub ignore_masks : Bool

-- (s *Searcher) SearchArtifacts. `none` is a returned error.
abbrev pub Searcher : Type 0
Searcher = SearchOpts → Option (List PackageArtifact)

-- The search of Install and of the dependencies.
abbrev pub search_opts : SolverOpts → List DefaultPackage → SearchOpts
search_opts opts pkgs = record {
  packages = pkgs;
  hidden = false;
  with_files = true;
  full = true;
  ignore_masks = opts.ignore_masks;
}

abbrev pub Solving : Type 0 → Type 0
Solving A = Solver → Solver × Result A

abbrev pub give : {A : Type 0} → A → Solving A
give a s = (s, ok a)

-- The rest of a method after the result of a call.
abbrev pub continue : {A B : Type 0} → (A → Solving B) → Solver × Result A → Solver × Result B
continue f (s, ok a) = f a s
continue f (s, err e) = (s, err e)
continue f (s, panic) = (s, panic)
continue f (s, out_of_fuel) = (s, out_of_fuel)

infixl 5 ◌>>=◌ ◌>>◌
-- Shut, so that a proof goes through a method call by call.
unfoldable pub ◌>>=◌ : {A B : Type 0} → Solving A → (A → Solving B) → Solving B
(m >>= f) s = continue f (m s)

abbrev pub ◌>>◌ : {B : Type 0} → Solving (Unit {0}) → Solving B → Solving B
m >> k = m >>= λ _. k

abbrev pub get : Solving Solver
get s = (s, ok s)

abbrev pub modify : (Solver → Solver) → Solving (Unit {0})
modify f s = (f s, ok tt)

-- A result that the maps have no part in.
abbrev pub lift : {A : Type 0} → Result A → Solving A
lift r s = (s, r)

-- The number of the next `range` loop.
abbrev pub next_tick : Solving ℕ
next_tick s = (record s { ticks = s.ticks + 1 }, ok s.ticks)
