-- ===== src/Solver/Conflicts.antt =====
-- prepareConflictsAndSystemMap, artefactIsInConflict and artefactAdmitByQueue of
-- pkg/v2/solver/solver.go.
use luet.Prelude.{Bool, true, false, none, some, List, [], ◌∷◌, not, any, if◌then◌else◌}
use luet.GoMap.{lookup, append_at}
use luet.Runtime.{GoRuntime}
use luet.Result.{Result, ok, ◌>>=◌}
use luet.Gentoo.{Gentoo}
use luet.Package.Default.{
  DefaultPackage, name_of, get_conflicts, get_provides, get_requires, get_provide_package,
}
use luet.Package.Admit.{admit}
use luet.Artifact.{PackageArtifact, ArtifactsMap, get_package}
use luet.Operations.{first}
use luet.Solver.{Solver, PkgsMapList}

-- The loops that add `p` under the names of some of its packages.
unfoldable pub add_named : List DefaultPackage → DefaultPackage → PkgsMapList → PkgsMapList
add_named [] p m = m
add_named (c ∷ cs) p m = add_named cs p (append_at (name_of c) p m)

-- The body of the loop over the installed packages.
unfoldable pub register : (with_reverse_requires : Bool) → DefaultPackage → Solver → Solver
unfolding add_named
register with_reverse_requires p s = record s {
  conflicts_map =
      if s.opts.ignore_conflicts
      then s.conflicts_map
      else add_named (get_conflicts p) p s.conflicts_map;
  provides_map = add_named (get_provides p) p s.provides_map;
  requires_map =
      if with_reverse_requires then add_named (get_requires p) p s.requires_map else s.requires_map;
  system_map = append_at (name_of p) p s.system_map;
}

unfoldable pub register_all : Bool → List DefaultPackage → Solver → Solver
unfolding register
register_all with_reverse_requires [] s = s
register_all with_reverse_requires (p ∷ ps) s =
    register_all with_reverse_requires ps (register with_reverse_requires p s)

unfoldable pub prepare_conflicts_and_system_map :
    (system_pkgs : List DefaultPackage) → (with_reverse_requires : Bool) → Solver → Solver
unfolding register_all
prepare_conflicts_and_system_map system_pkgs with_reverse_requires s =
    register_all with_reverse_requires system_pkgs (record s {
      conflicts_map = [];
      system_map = [];
      provides_map = [];
      requires_map = if with_reverse_requires then [] else s.requires_map;
    })

-- `valid, _ := …`: an error counts as not valid.
abbrev pub valid : Result Bool → Bool
valid r = elim r [ ok b ↦ b | _ ↦ false ]

module _ (g : Gentoo) where
  -- The loop over the conflicts of the artefact's package. `val[0]` of an entry is there, since
  -- entries are made by Add only.
  unfoldable pub conflicts_with_system : Solver → DefaultPackage → List DefaultPackage → Result Bool
  conflicts_with_system s p [] = ok false
  conflicts_with_system s p (c ∷ cs) =
      let rest = conflicts_with_system s p cs in
      elim (lookup (name_of c) s.system_map) [
        | none ↦ rest
        | some val ↦ (do
          v ← first val
          if valid (admit g p v)
              then rest
              else elim (get_provide_package p (name_of v)) [ none ↦ ok true | some _ ↦ rest ])
      ]

  -- An installed package that has a conflict with the name does not admit `p`.
  unfoldable pub refused_by : Solver → DefaultPackage → Bool
  refused_by s p = elim (lookup (name_of p) s.conflicts_map) [
    | none ↦ false
    | some refusing ↦ any (λ c. not (valid (admit g c p))) refusing
  ]

  unfoldable pub artefact_is_in_conflict : Solver → PackageArtifact → Result Bool
  unfolding conflicts_with_system refused_by
  artefact_is_in_conflict s art =
      let p = get_package art in
      if refused_by s p then ok true else conflicts_with_system s p (get_conflicts p)

  -- The loop over the candidates in the order of the range.
  unfoldable pub admitted_by : DefaultPackage → ArtifactsMap → Result Bool
  admitted_by p [] = ok true
  admitted_by p ((k, arts) ∷ queue) = do
    art_in_queue ← first arts
    admitted ← admit g (get_package art_in_queue) p
    if admitted then admitted_by p queue else ok false

  unfoldable pub artefact_admit_by_queue : GoRuntime → Solver → PackageArtifact → Result Bool
  unfolding admitted_by
  artefact_admit_by_queue rt s art =
      admitted_by (get_package art) (rt.range s.ticks s.candidates_map)
