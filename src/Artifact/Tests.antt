-- ===== src/Artifact/Tests.antt =====
-- The map of a pack with two versions of one package.
use luet.Prelude.{◌≡◌, String, none, [], ◌∷◌}
use luet.GoMap.{lookup}
use luet.Package.Default.{new_package_with_cat_thin}
use luet.Artifact.{PackageArtifact, ArtifactsPack, runtime, to_map}
use luet.Artifact.Grouping.{named, extended, lookup-to_map}

abbrev art : String → String → PackageArtifact
art n v = record { path = ""; packages = runtime (new_package_with_cat_thin "cat" n v) none }

abbrev pack : ArtifactsPack
pack = art "a" "1" ∷ art "b" "1" ∷ art "a" "2" ∷ []

lookup-to_map_example : lookup "cat/a" (to_map pack) ≡ extended none (named "cat/a" pack)
lookup-to_map_example = lookup-to_map "cat/a" pack
