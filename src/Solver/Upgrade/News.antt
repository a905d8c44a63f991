-- ===== src/Solver/Upgrade/News.antt =====
-- checkInstalledPackage of pkg/v2/solver/solver_upgrade.go: whether the repositories
-- have something newer for an installed package.
use luet.Prelude.{
  ℤ, String, Bool, true, false, Option, none, some, List, [], ◌∷◌, ◌==◌, not, if◌then◌else◌,
  is_empty, contains_elem,
}
use luet.GoMap.{Map}
use luet.Runtime.{GoRuntime}
use luet.Result.{Result, ok, err, gentoo_error, search_error, without_provides, ◌>>=◌}
use luet.Gentoo.{Gentoo}
use luet.Package.Thin.{Thin}
use luet.Package.Default.{
  DefaultPackage, pkg, name_of, get_version, atom_matches, get_provide_package,
  human_readable_string, to_gentoo_package, to_package_thin,
}
use luet.Artifact.{PackageArtifact, get_package}
use luet.Solver.{SolverOpts, SearchOpts, Searcher}
use luet.Solver.Sorting.{sort_artifact_list_4_version_and_repos}

-- The digest of a thin package: GenerateHash is the hexadecimal MD5 of its JSON text.
abbrev pub Digest : Type 0
Digest = Thin → String

unfoldable pub get_comparition_hash : Digest → DefaultPackage → String
get_comparition_hash generate_hash p = generate_hash (to_package_thin p)

-- The clone of the package with the version ">=0".
abbrev pub any_version : DefaultPackage → DefaultPackage
any_version (pkg f requires conflicts provides) =
    pkg (record f { version = ">=0" }) requires conflicts provides

abbrev pub upgrade_search : SolverOpts → DefaultPackage → SearchOpts
upgrade_search opts p = record {
  packages = any_version p ∷ [];
  hidden = true;
  with_files = false;
  full = true;
  ignore_masks = opts.ignore_masks;
}

-- The package of the artefact that stands for `p`: its own, or the one that it provides.
unfoldable pub stands_for : DefaultPackage → DefaultPackage → Option DefaultPackage
stands_for p ap = if atom_matches ap p then some ap else get_provide_package ap (name_of p)

-- A test of the version library whose error is returned, and one whose error counts as false.
abbrev pub answered : Option Bool → Result Bool
answered none = err gentoo_error
answered (some b) = ok b

abbrev pub holds : Option Bool → Bool
holds none = false
holds (some b) = b

module _ (g : Gentoo) (generate_hash : Digest) where
  open g use {GentooPackage, greater_than, less_than, equal}

  -- The tests of the loop on the package `ap` of an artefact `a` whose version is not seen before.
  unfoldable pub is_news :
      (deep is_first : Bool)
      → (p : DefaultPackage) → (gp_i : GentooPackage) → PackageArtifact
      → (ap : DefaultPackage) → Result Bool
  is_news deep is_first p gp_i a ap = do
    gp_r ← to_gentoo_package g ap
    val ← answered (greater_than gp_r gp_i)
    ok (
        if val
        then true
        else if holds (equal gp_r gp_i)
        then not (
            get_comparition_hash generate_hash p
            == get_comparition_hash generate_hash (get_package a))
        else if deep
        then (if is_first then holds (less_than gp_r gp_i) else false)
        else false)

  -- The loop over the sorted artefacts, up to the first that makes the package worth an analysis.
  unfoldable pub find_news :
      (deep is_first : Bool)
      → (p : DefaultPackage) → (gp_i : GentooPackage) → (elab_version : List String)
      → List PackageArtifact
      → Result Bool
  unfolding is_news stands_for
  find_news deep is_first p gp_i elab_version [] = ok false
  find_news deep is_first p gp_i elab_version (a ∷ arts) = elim (stands_for p (get_package a)) [
    | none ↦
        err (without_provides (human_readable_string p) (human_readable_string (get_package a)))
    | some ap ↦
        let seen = find_news deep false p gp_i elab_version arts in
        let rest = find_news deep false p gp_i (get_version ap ∷ elab_version) arts in
        if contains_elem elab_version (get_version ap)
        then seen
        else do found ← is_news deep is_first p gp_i a ap; if found then ok true else rest
  ]

  module _ (rt : GoRuntime) (searcher : Searcher) where
    -- The artefacts that checkInstalledPackage stores for the package, if any.
    unfoldable pub check_installed_package :
        SolverOpts → (map_repos : Map ℤ) → DefaultPackage → Result (Option (List PackageArtifact))
    unfolding find_news
    check_installed_package opts map_repos p = elim (searcher (upgrade_search opts p)) [
      | none ↦ err search_error
      | some repos_artifacts ↦ if is_empty repos_artifacts then ok none else do
        gp_i ← to_gentoo_package g p
        sorted ← sort_artifact_list_4_version_and_repos g rt true map_repos repos_artifacts
        found ← find_news opts.deep true p gp_i [] sorted
        ok (if found then some sorted else none)
    ]
