-- ===== src/Lib.antt =====
-- The package solver of luet (pkg/v2/solver), with the packages, artefacts and installed packages that
-- it works on.
--
-- luet installs, upgrades and removes binary packages. A command collects the packages that a user
-- asks for; the solver finds a version and the dependencies of each (Install), and turns the
-- packages to install, to update and to remove into one sequence of operations (OrderOperations),
-- which the installer carries out in that order.
--
-- The files and the code that they model:
--   GoMap           maps of Go, and PkgsMapList.Add of pkg/package/map.go
--   Runtime         what Go leaves open: orders of `range` and of goroutines, ties of `sort.Slice`
--   Result          returned errors, run-time panics, and the end of the model's fuel
--   Gentoo          the version library github.com/geaaru/pkgs-checker, as an interface
--   Package         pkg/package/package.go (Default, Admit) and pkg/package/package_thin.go (Thin)
--                   Package/Database: InMemoryDatabase of pkg/package/database_mem.go, and clone of
--                   pkg/package/database_common.go
--   Artifact        pkg/v2/compiler/types/artifact: PackageArtifact, ArtifactsPack, ArtifactsMap
--   Sort            sortPkgsThinArr of pkg/v2/solver/solver.go; Sort/Detector: depCycleDetector and
--                   recursiveCheckDeps; Sort/Less: SortPackageThinList4Requires
--   Operations      OrderOperations and createThinPkgsPlist of pkg/v2/solver/solver.go
--   Solver          the solver's state; Solver/Conflicts: prepareConflictsAndSystemMap,
--                   artefactIsInConflict, artefactAdmitByQueue; Solver/Resolve: resolvePackage and
--                   processArtefactDeps; Solver/Install: Install; Solver/Sorting:
--                   pkg/v2/repository/artifact_sort.go, GetSortedArtifactsByKey, SortOperationsByName
--                   Solver/Frame, Solver/Calls: relations that the steps of the methods keep
--                   Solver/Upgrade and its files: pkg/v2/solver/solver_upgrade.go
--                   Solver/Orphans: pkg/v2/solver/orphans.go; Solver/SystemMap: the system map
--   Installer       pkg/v2/installer: Rdepends (rdepend.go) and Stack (stack.go)
--   Mask            pkg/v2/repository/mask/file.go, and IsMasked of its manager.go
--   Config          pkg/config/config_protect.go
--   Prelude         shared names and lemmas; Samples: a concrete runtime and version library
--
-- State and aliasing: the sort's queue holds pointers to packages, through which the cycle detector
-- changes them; the model keeps the packages in the queue and reads them again where the code
-- follows a pointer. The methods of the solver are functions from its maps to its maps and a
-- result, since they change maps also when they return an error.
--
-- Every `range` over a map takes its order from the interface GoRuntime, with the number of the
-- loop as an argument, so that what holds for every such interface holds for every order that Go
-- may choose. Goroutines that take one lock, or send on one channel, run one after the other in an
-- order that the interface gives too; the context of their semaphore is never cancelled. A sort by
-- `sort.Slice` gives some permutation that is sorted if the test is a strict weak order.
--
-- Fuel: the second loop of sortPkgsThinArr has 6 n + 6 rounds for a queue of n packages (each round
-- without progress counts up to 4, the detector runs once), and recursiveCheckDeps a depth of 2 n +
-- 1 for n packages (a package is entered a second time at most once, as its cycle is broken then);
-- that is enough where the packages have distinct names and a require has the category and the name
-- of the package that it names; see Sort/Total. resolvePackage takes the depth of its calls as an argument; one more than the
-- number of the names that the repositories have is enough where each key at hand holds artefacts of
-- its own name, since each call has one more of them on its stack (Solver/Depth). Install keeps its
-- keys so, Upgrade does not: there no depth need be enough. recursiveResolveRdep has a depth of n + 2 for n installed packages,
-- since each call resolves one more name. FindPackage and getProvide of InMemoryDatabase call each
-- other without a bound, so they take the depth as an argument.
--
-- Not modelled: reading and writing of files, repositories and databases on disk, the searcher (a
-- parameter), log output, the SAT solver of pkg/solver, the compiler, the files and downloads of
-- the installer and the commands. An artefact with neither a runtime nor a build package has no
-- place in the model; the code panics on it.
pub mod Prelude
pub mod GoMap
pub mod Runtime
pub mod Result
pub mod Gentoo
pub mod Package
pub mod Sort
pub mod Artifact
pub mod Operations
pub mod Solver
pub mod Installer
mod Samples
pub mod Config
pub mod Mask
