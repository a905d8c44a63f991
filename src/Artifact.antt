-- ===== src/Artifact.antt =====
-- The artefacts of pkg/v2/compiler/types/artifact: PackageArtifact (artifact.go) with the fields that
-- the solver reads, ArtifactsPack and ArtifactsMap (map.go). A pack is the list of its artefacts, a
-- map is the Go map that it wraps.
pub mod Grouping
mod Tests
use luet.Prelude.{
  ℕ, String, Bool, true, false, Option, none, some, List, [], ◌∷◌, ◌++◌, ◌==◌, if◌then◌else◌, any,
}
use luet.GoMap.{Map, lookup, has, put, values, append_at}
use luet.Runtime.{GoRuntime}
use luet.Result.{Result, ok, err, not_found, not_found_on_map}
use luet.Package.Default.{DefaultPackage, Fields, fields, name_of, get_version, get_provide_package}

-- The fields Runtime and CompileSpec.Package of an artefact that has a package. GetPackage of an
-- artefact with neither is nil, and the solver's use of it is a run-time panic.
pub data Packages : Type 0 where
  runtime : DefaultPackage → (compile_spec : Option DefaultPackage) → Packages
  compile_spec_only : DefaultPackage → Packages

pub record PackageArtifact : Type 0 where
  pub path : String
  pub packages : Packages

abbrev package_of : Packages → DefaultPackage
package_of (runtime p compile_spec) = p
package_of (compile_spec_only p) = p

unfoldable pub get_package : PackageArtifact → DefaultPackage
get_package a = package_of a.packages

-- The body that GetRepository and GetVersion share, for one field.
abbrev first_text : (DefaultPackage → String) → Packages → String
first_text f (runtime p none) = f p
first_text f (runtime p (some c)) = if f p == "" then f c else f p
first_text f (compile_spec_only c) = f c

unfoldable pub get_repository : PackageArtifact → String
get_repository a = first_text (λ p. (fields p).repository) a.packages

unfoldable pub artifact_version : PackageArtifact → String
artifact_version a = first_text get_version a.packages

-- a.GetPackage().PackageName(), which is also the key of an artefact in a map.
unfoldable pub artifact_name : PackageArtifact → String
artifact_name a = name_of (package_of a.packages)

abbrev pub ArtifactsPack : Type 0
ArtifactsPack = List PackageArtifact

abbrev pub ArtifactsMap : Type 0
ArtifactsMap = Map (List PackageArtifact)

unfoldable pub add : PackageArtifact → ArtifactsMap → ArtifactsMap
add p am = append_at (artifact_name p) p am

unfoldable pub add_all : ArtifactsPack → ArtifactsMap → ArtifactsMap
unfolding add
add_all [] am = am
add_all (a ∷ arts) am = add_all arts (add a am)

unfoldable pub to_map : ArtifactsPack → ArtifactsMap
unfolding add_all
to_map arts = add_all arts []

unfoldable pub is_present : ArtifactsPack → PackageArtifact → Bool
is_present arts p = any (λ a. artifact_name a == artifact_name p) arts

abbrev first_with_version : String → List PackageArtifact → Option PackageArtifact
first_with_version v [] = none
first_with_version v (pp ∷ val) =
    let rest = first_with_version v val in if artifact_version pp == v then some pp else rest

unfoldable pub match_version : ArtifactsMap → PackageArtifact → Result PackageArtifact
match_version am p =
    let version = artifact_version p in
    let missing = err (not_found (artifact_name p) version) in
    elim (lookup (artifact_name p) am) [
      | none ↦ missing
      | some val ↦ elim (first_with_version version val) [ none ↦ missing | some pp ↦ ok pp ]
    ]

unfoldable pub has_key : String → ArtifactsMap → Bool
has_key k am = has k am

unfoldable pub get_artifacts_by_key : ArtifactsMap → String → Result (List PackageArtifact)
get_artifacts_by_key am k = elim (lookup k am) [
  | none ↦ err (not_found_on_map k)
  | some val ↦ ok val
]

abbrev pub concat : List (List PackageArtifact) → List PackageArtifact
concat [] = []
concat (v ∷ vs) = v ++ concat vs

-- Some artefact of the list provides the package named `p`.
unfoldable pub any_provides : String → List PackageArtifact → Bool
any_provides p =
    any (λ a. elim (get_provide_package (get_package a) p) [ none ↦ false | some _ ↦ true ])

-- The loop of GetProvides: the last entry of the range that provides `p` is the answer.
unfoldable pub last_provider : String → List PackageArtifact → ArtifactsMap → List PackageArtifact
unfolding any_provides
last_provider p ans [] = ans
last_provider p ans ((k, arts) ∷ am) =
    last_provider p (if any_provides p arts then arts else ans) am

-- `tick` names the `range` loop.
module _ (rt : GoRuntime) (tick : ℕ) where
  open rt use {range}

  unfoldable pub artifacts_list : ArtifactsMap → List PackageArtifact
  artifacts_list am = concat (values (range tick am))

  unfoldable pub get_provides_of : ArtifactsMap → String → List PackageArtifact
  unfolding last_provider
  get_provides_of am p = last_provider p [] (range tick am)
