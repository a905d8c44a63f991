-- ===== src/Mask/Tests.antt =====
-- A mask file with rules for two packages, the first one for another repository.
use luet.Prelude.{String, ◌≡◌, refl, true, List, [], ◌∷◌, ◌==◌, if◌then◌else◌}
use luet.GoMap.{put, lookup}
use luet.Result.{ok}
use luet.Samples.{plain_gentoo}
use luet.Mask.{MaskFields, PackageMaskFile, new_package_mask_file, build_map, mask}
use luet.Mask.Rules.{search, mask-build_map}

-- Packages are texts here: the name is the text, and the texts of "far" have a repository.
abbrev text_fields : MaskFields plain_gentoo
text_fields = record {
  category = λ p. "cat";
  slot = λ p. "0";
  name = λ p. if p == "far" then "near" else p;
  repository = λ p. if p == "far" then "elsewhere" else "";
}

abbrev rules : List String
rules = "far" ∷ "other" ∷ "near" ∷ []

abbrev file : PackageMaskFile plain_gentoo text_fields
file = record (new_package_mask_file plain_gentoo text_fields "masks.yml") { rules = rules }

abbrev built : PackageMaskFile plain_gentoo text_fields
built = record file {
  pkgs_map = ("cat/near", "far" ∷ "near" ∷ []) ∷ ("cat/other", "other" ∷ []) ∷ [];
}

build_file : build_map plain_gentoo text_fields file ≡ ok built
unfolding build_map luet.GoMap.append_at put lookup ◌==◌ luet.Mask.get_pkg_str
build_file = refl

mask_near : mask plain_gentoo text_fields built "main" "near" ≡ ok true
unfolding mask lookup ◌==◌ luet.Mask.get_pkg_str luet.Package.Admit.gentoo_admit
mask_near = refl

mask-build_map_example :
    mask plain_gentoo text_fields built "main" "near"
    ≡ search plain_gentoo text_fields "main" "near" rules
mask-build_map_example =
    mask-build_map plain_gentoo text_fields "main" "near" file built refl build_file
