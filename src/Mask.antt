-- ===== src/Mask.antt =====
-- pkg/v2/repository/mask: the files that mask packages (file.go), and the manager's IsMasked (manager.go).
pub mod Rules
mod Tests
use Prim.Native.String.{◌++◌ as str_append}
use luet.Prelude.{
  String, Bool, true, false, Option, none, some, List, [], ◌∷◌, ◌||◌, ◌==◌, not, ◌&&◌,
  if◌then◌else◌,
}
use luet.GoMap.{Map, lookup, append_at}
use luet.Result.{Result, ok, err, gentoo_error, ◌>>=◌}
use luet.Gentoo.{Gentoo}
use luet.Package.Admit.{gentoo_admit}

-- The fields of a package of the version library that the masks read.
pub record MaskFields (g : Gentoo) : Type 0 where
  pub category : g.GentooPackage → String
  pub slot : g.GentooPackage → String
  pub name : g.GentooPackage → String
  pub repository : g.GentooPackage → String

module _ (g : Gentoo) (f : MaskFields g) where
  open g use {GentooPackage, parse_package_str}
  open f use {category, slot, name, repository}

  pub record PackageMaskFile : Type 0 where
    pub file : String
    pub enabled : Bool
    pub rules : List String
    pub pkgs_map : Map (List GentooPackage)

  abbrev pub new_package_mask_file : String → PackageMaskFile
  new_package_mask_file file = record { file = file; enabled = true; rules = []; pkgs_map = [] }

  unfoldable pub get_pkg_str : GentooPackage → String
  get_pkg_str p =
      str_append
        (if not (slot p == "") && not (slot p == "0")
          then str_append (category p) (str_append "-" (slot p))
          else category p)
        (str_append "/" (name p))

  abbrev pub parsed_rule : String → Result GentooPackage
  parsed_rule rule = elim (parse_package_str rule) [ none ↦ err gentoo_error | some p ↦ ok p ]

  -- The loop of BuildMap.
  unfoldable pub add_rules :
      List String → Map (List GentooPackage) → Result (Map (List GentooPackage))
  add_rules [] m = ok m
  add_rules (rule ∷ rules) m = do
    p ← parsed_rule rule
    add_rules rules (append_at (get_pkg_str p) p m)

  unfoldable pub build_map : PackageMaskFile → Result PackageMaskFile
  unfolding add_rules
  build_map m = do pkgs_map ← add_rules m.rules m.pkgs_map; ok (record m { pkgs_map = pkgs_map })

  abbrev is_elsewhere : String → GentooPackage → Bool
  is_elsewhere repo pm = not (repository pm == "") && not (repository pm == repo)

  -- The loop over the rules of the package's name.
  unfoldable pub masked_by : String → GentooPackage → List GentooPackage → Result Bool
  masked_by repo p [] = ok false
  masked_by repo p (pm ∷ pkgs) =
      let rest = masked_by repo p pkgs in
      if is_elsewhere repo pm
      then rest
      else do admitted ← gentoo_admit g pm p; if admitted then ok true else rest

  abbrev pub listed : Option (List GentooPackage) → List GentooPackage
  listed none = []
  listed (some pkgs) = pkgs

  -- Mask, of a package that is not nil.
  unfoldable pub mask : PackageMaskFile → String → GentooPackage → Result Bool
  unfolding masked_by
  mask m repo p = masked_by repo p (listed (lookup (get_pkg_str p) m.pkgs_map))

  -- IsMasked over the files of the manager.
  unfoldable pub is_masked : List PackageMaskFile → String → GentooPackage → Result Bool
  unfolding mask
  is_masked [] repo p = ok false
  is_masked (m ∷ files) repo p =
      let rest = is_masked files repo p in
      do masked ← mask m repo p; if masked then ok true else rest
