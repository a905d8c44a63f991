-- ===== src/Package/Admit.antt =====
-- (p *DefaultPackage) Admit of pkg/package/package.go: whether the requires and the conflicts of `p`
-- let the package `a` in.
use luet.Prelude.{Bool, true, false, none, some, List, [], ◌∷◌, ◌&&◌, not, if◌then◌else◌, is_empty}
use luet.Result.{Result, ok, err, gentoo_error, ◌>>=◌}
use luet.Gentoo.{Gentoo}
use luet.Package.Default.{
  DefaultPackage, get_requires, get_conflicts, get_provides, has_provides, atom_matches,
  to_gentoo_package,
}

module _ (g : Gentoo) where
  open g use {GentooPackage}

  -- greq.Admit(agentoo)
  unfoldable pub gentoo_admit : GentooPackage → GentooPackage → Result Bool
  gentoo_admit p i = elim (g.admit p i) [ none ↦ err gentoo_error | some b ↦ ok b ]

  -- The loop over a.Provides: `false` when a provided package that `r` names fails. `wanted` is what
  -- Admit must answer: true for a require, false for a conflict.
  unfoldable pub provides_pass : Bool → DefaultPackage → List DefaultPackage → Result Bool
  unfolding gentoo_admit
  provides_pass wanted r [] = ok true
  provides_pass wanted r (prov ∷ provides) =
      let rest = provides_pass wanted r provides in
      if atom_matches r prov
      then (do
        greq ← to_gentoo_package g r
        gprov ← to_gentoo_package g prov
        admitted ← gentoo_admit greq gprov
        if (if wanted then admitted else not admitted) then rest else ok false)
      else rest

  -- The loop over PackageRequires, and the one over PackageConflicts.
  unfoldable pub selectors_pass :
      Bool → DefaultPackage → GentooPackage → List DefaultPackage → Result Bool
  unfolding gentoo_admit provides_pass
  selectors_pass wanted a agentoo [] = ok true
  selectors_pass wanted a agentoo (r ∷ rs) =
      let rest = selectors_pass wanted a agentoo rs in
      if atom_matches r a
      then (do
        greq ← to_gentoo_package g r
        admitted ← gentoo_admit greq agentoo
        if (if wanted then admitted else not admitted) then rest else ok false)
      else if has_provides a
      then (do pass ← provides_pass wanted r (get_provides a); if pass then rest else ok false)
      else rest

  unfoldable pub admit : DefaultPackage → DefaultPackage → Result Bool
  unfolding selectors_pass
  admit p a = if is_empty (get_requires p) && is_empty (get_conflicts p) then ok true else do
    agentoo ← to_gentoo_package g a
    requires ← selectors_pass true a agentoo (get_requires p)
    if requires then selectors_pass false a agentoo (get_conflicts p) else ok false
