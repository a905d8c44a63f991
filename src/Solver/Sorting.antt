-- ===== src/Solver/Sorting.antt =====
-- The orders of artefacts: pkg/v2/repository/artifact_sort.go, GetSortedArtifactsByKey of
-- pkg/v2/compiler/types/artifact/map.go, and SortOperationsByName of pkg/v2/solver/common.go.
use Prim.Native.String.{◌++◌ as str_append}
use luet.Prelude.{
  ℕ, String, Bool, true, false, Option, none, some, List, [], ◌∷◌, ◌&&◌, ◌==◌, not, any,
  if◌then◌else◌, length, ltb, nat_eq, ℤ, pos, int_lt,
}
use luet.GoMap.{Map, lookup}
use luet.Runtime.{GoRuntime}
use luet.Result.{Result, ok, err, panic, gentoo_error, not_found_on_map, ◌>>=◌}
use luet.Gentoo.{Gentoo}
use luet.Package.Default.{
  DefaultPackage, fields, has_requires, get_requires, to_gentoo_package, human_readable_string,
}
use luet.Artifact.{PackageArtifact, ArtifactsMap, get_package, artifact_name}
use luet.Sort.Less.{str_lt}
use luet.Operations.{
  Action, update_package, add_package, remove_package, downgrade_package, Operation, operation_name,
}

-- A repository that is not in the map has priority 100.
unfoldable pub priority : Map ℤ → DefaultPackage → ℤ
priority map_repos p = elim (lookup (fields p).repository map_repos) [ none ↦ pos 100 | some r ↦ r ]

abbrev pub requires_of : PackageArtifact → List DefaultPackage
requires_of a = get_requires (get_package a)

-- The test of SortArtifactList4RequiresAndRepos.
unfoldable pub requires_and_repos : Map ℤ → PackageArtifact → PackageArtifact → Bool
requires_and_repos map_repos arti artj =
    let ireq = has_requires (get_package arti) in
    let jreq = has_requires (get_package artj) in
    let lower =
      int_lt (priority map_repos (get_package arti)) (priority map_repos (get_package artj)) in
    let ni = length (requires_of arti) in
    let nj = length (requires_of artj) in
    if ireq && jreq
    then (if nat_eq ni nj then lower else ltb ni nj)
    else if not ireq && not jreq
    then lower
    else not ireq

-- The test of SortArtifactList4ReposAndRequires.
unfoldable pub repos_and_requires : Map ℤ → PackageArtifact → PackageArtifact → Bool
repos_and_requires map_repos arti artj =
    let ireq = has_requires (get_package arti) in
    let jreq = has_requires (get_package artj) in
    let irprio = priority map_repos (get_package arti) in
    let jrprio = priority map_repos (get_package artj) in
    let named = str_lt (artifact_name arti) (artifact_name artj) in
    let ni = length (requires_of arti) in
    let nj = length (requires_of artj) in
    if int_lt irprio jrprio
    then true
    else if int_lt jrprio irprio
    then false
    else if ireq && jreq
    then (if nat_eq ni nj then named else ltb ni nj)
    else if not ireq && not jreq
    then named
    else not ireq

module _ (rt : GoRuntime) where
  unfoldable pub sort_artifact_list_4_requires_and_repos :
      Map ℤ → List PackageArtifact → List PackageArtifact
  unfolding requires_and_repos
  sort_artifact_list_4_requires_and_repos map_repos arts =
      rt.sort_slice (requires_and_repos map_repos) arts

  unfoldable pub sort_artifact_list_4_repos_and_requires :
      Map ℤ → List PackageArtifact → List PackageArtifact
  unfolding repos_and_requires
  sort_artifact_list_4_repos_and_requires map_repos arts =
      rt.sort_slice (repos_and_requires map_repos) arts

-- The texts of the actions.
abbrev pub action_text : Action → String
action_text update_package = "U"
action_text add_package = "N"
action_text remove_package = "D"
action_text downgrade_package = "u"

-- The test of SortOperationsByName.
unfoldable pub by_name : (reverse : Bool) → Operation → Operation → Bool
by_name reverse oi oj =
    if operation_name oi == operation_name oj
    then (if reverse
        then str_lt (action_text oj.action) (action_text oi.action)
        else str_lt (action_text oi.action) (action_text oj.action))
    else if reverse
    then str_lt (operation_name oj) (operation_name oi)
    else str_lt (operation_name oi) (operation_name oj)

unfoldable pub sort_operations_by_name : GoRuntime → List Operation → Bool → List Operation
unfolding by_name
sort_operations_by_name rt ops reverse = rt.sort_slice (by_name reverse) ops

module _ (g : Gentoo) where
  open g use {GentooPackage, parse_package_str, sort_reverse, to_str, version_build}

  -- The answers of Equal and LessThan, where an error counts as the zero value.
  abbrev sure : Option Bool → Bool
  sure none = false
  sure (some b) = b

  abbrev parsed_less : (reverse higher lower : Bool) → GentooPackage → GentooPackage → Bool
  parsed_less reverse higher lower pi pj =
      if sure (g.equal pi pj)
      then (if reverse then higher else lower)
      else if reverse
      then not (sure (g.less_than pi pj))
      else sure (g.less_than pi pj)

  -- The test of SortArtifactList4VersionAndRepos on packages whose versions parse.
  unfoldable pub version_and_repos :
      (reverse : Bool) → Map ℤ → PackageArtifact → PackageArtifact → Bool
  version_and_repos reverse map_repos arti artj =
      let irprio = priority map_repos (get_package arti) in
      let jrprio = priority map_repos (get_package artj) in
      elim (to_gentoo_package g (get_package arti)) [
        | ok pi ↦ elim (to_gentoo_package g (get_package artj)) [
          | ok pj ↦ parsed_less reverse (int_lt jrprio irprio) (int_lt irprio jrprio) pi pj
          | _ ↦ false
        ]
        | _ ↦ false
      ]

  abbrev unparsed : PackageArtifact → Bool
  unparsed a = elim (to_gentoo_package g (get_package a)) [ ok p ↦ false | _ ↦ true ]

  -- The test reads a field of a nil pointer when a version does not parse, and of two elements or
  -- more each is compared.
  unfoldable pub sort_artifact_list_4_version_and_repos :
      GoRuntime → (reverse : Bool) → Map ℤ → List PackageArtifact → Result (List PackageArtifact)
  unfolding version_and_repos
  sort_artifact_list_4_version_and_repos rt reverse map_repos arts =
      if ltb 1 (length arts) && any unparsed arts
      then panic
      else ok (rt.sort_slice (version_and_repos reverse map_repos) arts)

  unfoldable pub parse_all : List PackageArtifact → Result (List GentooPackage)
  parse_all [] = ok []
  parse_all (p ∷ val) = elim (parse_package_str (human_readable_string (get_package p))) [
    | none ↦ err gentoo_error
    | some gpkg ↦ (do glist ← parse_all val; ok (gpkg ∷ glist))
  ]

  abbrev pub package_text : GentooPackage → String
  package_text gpkg =
      if version_build gpkg == ""
      then to_str gpkg
      else str_append (to_str gpkg) (str_append "+" (version_build gpkg))

  abbrev pub first_readable : String → List PackageArtifact → List PackageArtifact
  first_readable pstr [] = []
  first_readable pstr (p ∷ val) =
      let rest = first_readable pstr val in
      if human_readable_string (get_package p) == pstr then p ∷ [] else rest

  -- The loop over the sorted versions: each takes the first artefact of its text.
  unfoldable pub pick_all : List PackageArtifact → List GentooPackage → List PackageArtifact
  pick_all val [] = []
  pick_all val (gpkg ∷ glist) =
      luet.Prelude.◌++◌ (first_readable (package_text gpkg) val) (pick_all val glist)

  unfoldable pub get_sorted_artifacts_by_key : ArtifactsMap → String → Result (List PackageArtifact)
  unfolding parse_all pick_all
  get_sorted_artifacts_by_key am k = elim (lookup k am) [
    | none ↦ err (not_found_on_map k)
    | some val ↦
        if nat_eq (length val) 1
        then ok val
        else do glist ← parse_all val; ok (pick_all val (sort_reverse glist))
  ]
