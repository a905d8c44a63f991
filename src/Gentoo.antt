-- ===== src/Gentoo.antt =====
-- The version library github.com/geaaru/pkgs-checker/pkg/gentoo, as an interface: the solver parses
-- package texts with it and compares the results. `none` stands for a returned error.
use luet.Prelude.{String, Bool, Option, List}

-- The values of gentoo.PackageCond that luet sets. `invalid` is its zero value.
pub data PackageCond : Type 0 where
  invalid greater_equal less_equal not_equal equal_to greater less : PackageCond

pub record Gentoo : Type 1 where
  pub GentooPackage : Type 0
  -- gentoo.ParsePackageStr
  pub parse_package_str : String → Option GentooPackage
  -- assigns Condition, Repository, License and UseFlags
  pub set_fields :
      PackageCond → (repository license : String) → List String → GentooPackage → GentooPackage
  -- (p *GentooPackage) Admit, GreaterThan, LessThan and Equal
  pub admit : GentooPackage → GentooPackage → Option Bool
  pub greater_than : GentooPackage → GentooPackage → Option Bool
  pub less_than : GentooPackage → GentooPackage → Option Bool
  -- sort.Sort(sort.Reverse(gentoo.GentooPackageSorter(l)))
  pub sort_reverse : List GentooPackage → List GentooPackage
  -- (p GentooPackage) String, and the field VersionBuild
  pub to_str : GentooPackage → String
  pub version_build : GentooPackage → String
  pub equal : GentooPackage → GentooPackage → Option Bool
