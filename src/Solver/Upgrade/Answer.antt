-- ===== src/Solver/Upgrade/Answer.antt =====
-- The lists that Upgrade of pkg/v2/solver/solver_upgrade.go makes from the candidates.
use luet.Prelude.{String, Option, none, some, List, [], ◌∷◌, ◌++◌, ◌==◌, if◌then◌else◌}
use luet.GoMap.{lookup, has}
use luet.Result.{Result, ok, ◌>>=◌}
use luet.Package.Default.{DefaultPackage, name_of, get_provides}
use luet.Artifact.{
  PackageArtifact, ArtifactsMap, ArtifactsPack, runtime, get_package, artifact_name, is_present,
}
use luet.Operations.{first}
use luet.Solver.{PkgsMapList}

-- The three packs that Upgrade returns.
pub record Answers : Type 0 where
  pub remove : ArtifactsPack
  pub update : ArtifactsPack
  pub install : ArtifactsPack

abbrev pub no_answers : Answers
no_answers = record { remove = []; update = []; install = [] }

-- An artefact with a Runtime alone.
abbrev pub to_remove : DefaultPackage → PackageArtifact
to_remove p = record { path = ""; packages = runtime p none }

unfoldable pub add_remove : PackageArtifact → Answers → Answers
add_remove a ans = record ans { remove = ans.remove ++ a ∷ [] }

unfoldable pub add_remove_once : PackageArtifact → Answers → Answers
unfolding add_remove
add_remove_once a ans = if is_present ans.remove a then ans else add_remove a ans

unfoldable pub add_update : PackageArtifact → Answers → Answers
add_update a ans = record ans { update = ans.update ++ a ∷ [] }

unfoldable pub add_install : PackageArtifact → Answers → Answers
add_install a ans = record ans { install = ans.install ++ a ∷ [] }

abbrev pub listed : Option (List PackageArtifact) → List PackageArtifact
listed none = []
listed (some plist) = plist

module _ (system_map : PkgsMapList) (candidates : ArtifactsMap) where
  -- A candidate that replaces an installed package of another name, unless it stands under its own
  -- name as well.
  unfoldable pub add_replacing : PackageArtifact → Answers → Answers
  unfolding add_install
  add_replacing a ans = if has (artifact_name a) candidates then ans else add_install a ans

  -- The loop over the provides of a candidate: the installed packages among them.
  unfoldable pub remove_provided : List DefaultPackage → Answers → Result Answers
  unfolding add_remove_once
  remove_provided [] ans = ok ans
  remove_provided (prov ∷ provs) ans = elim (lookup (name_of prov) system_map) [
    | none ↦ remove_provided provs ans
    | some pr ↦ (do p ← first pr; remove_provided provs (add_remove_once (to_remove p) ans))
  ]

  -- The body of the loop over the candidates.
  unfoldable pub sort_out : String → List PackageArtifact → Answers → Result Answers
  unfolding add_replacing remove_provided add_update
  sort_out pname plist ans = do
    acandidate ← first plist
    let provides = get_provides (get_package acandidate)
    elim (lookup pname system_map) [
      | some val ↦ (do
        p ← first val
        remove_provided provides (
            if artifact_name acandidate == pname
            then add_update acandidate (add_remove (to_remove p) ans)
            else add_replacing acandidate (add_remove_once (to_remove p) ans)))
      | none ↦ (do ans' ← remove_provided provides ans; ok (add_install acandidate ans'))
    ]

  unfoldable pub sort_out_all : ArtifactsMap → Answers → Result Answers
  unfolding sort_out
  sort_out_all [] ans = ok ans
  sort_out_all ((pname, plist) ∷ m) ans = do ans' ← sort_out pname plist ans; sort_out_all m ans'

  -- The loop of the option NoDeps.
  unfoldable pub sort_out_named : List String → Answers → Result Answers
  sort_out_named [] ans = ok ans
  sort_out_named (pname ∷ p_list) ans = do
    ans' ← elim (lookup pname system_map) [
      | some val ↦ (do
        p ← first val
        a ← first (listed (lookup pname candidates))
        ok (
            if artifact_name a == pname
            then add_update a (add_remove (to_remove p) ans)
            else add_replacing a (add_remove (to_remove p) ans)))
      | none ↦ (do a ← first (listed (lookup pname candidates)); ok (add_install a ans))
    ]
    sort_out_named p_list ans'
