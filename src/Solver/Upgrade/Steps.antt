-- ===== src/Solver/Upgrade/Steps.antt =====
-- Relations between the solver's maps before and after checkCandidate2Upgrade of
-- pkg/v2/solver/solver_upgrade.go, from the changes that it is made of.
use luet.Prelude.{ℕ, String, Bool, false, List, [], ◌∷◌, contains_elem, Option-cases, inl, inr}
use luet.GoMap.{has, lookup, put}
use luet.Runtime.{GoRuntime}
use luet.Gentoo.{Gentoo}
use luet.Artifact.{PackageArtifact}
use luet.Package.Default.{DefaultPackage, name_of}
use luet.Solver.{Solver, Searcher, Solving, PkgsMapList, modify}
use luet.Solver.Resolve.{is_provided, accept, resolve_package}
use luet.Solver.Frame.{
  IsFrame, Respects, Respects-bind, Respects-if, Respects-lift, Respects-give, Respects-get,
  Respects-tick, resolve_package-Respects,
}
use luet.Solver.Upgrade.News.{Digest, stands_for}
use luet.Solver.Upgrade.Candidate.{
  Verdict, banned, skipped, matched, unchanged, Age, newer, equal, downgrade, older,
  search_dependency_4_upgrade, process_requires_4_upgrade, judge_deps,
  process_artefact_deps_4_upgrade, judge_version, judge_newer, judge_4_upgrade, select_4_upgrade,
  selected_4_upgrade, check_candidate_2_upgrade,
}

-- A relation that holds across the changes of resolvePackage, and across new candidates of a key.
pub record IsUpgradeFrame (R : Solver → Solver → Type 0) : Type 0 where
  pub frame : IsFrame R
  pub accepts_any :
      (s : Solver) (provided : PkgsMapList) (k : String) (arts : List PackageArtifact)
      → R s (record s { provides_map = provided; candidates_map = put k arts s.candidates_map })

module _ {R : Solver → Solver → Type 0} (upgrade_frame : IsUpgradeFrame R) (g : Gentoo)
    (rt : GoRuntime) (searcher : Searcher) where
  open upgrade_frame use {frame, accepts_any}

  search_dependency_4_upgrade-Respects :
      (p : DefaultPackage) → Respects R (search_dependency_4_upgrade g rt searcher p)
  unfolding search_dependency_4_upgrade
  search_dependency_4_upgrade-Respects p = Respects-bind frame _ _ (Respects-get frame) (λ s.
      Respects-bind frame _ _ (Respects-lift frame _) (λ arts.
        Respects-bind frame _ _ (record { relates = λ t. frame.finds t _ })
          (λ u. Respects-give frame _)))

  module _ (resolve : String → List String → Solving (Unit {0}))
      (kept : (k : String) (stack : List String) → Respects R (resolve k stack)) where
    process_requires_4_upgrade-Respects :
        (candidate : DefaultPackage) (stack : List String) (ps : List DefaultPackage)
        → Respects R (process_requires_4_upgrade g rt searcher resolve candidate stack ps)
    unfolding process_requires_4_upgrade
    process_requires_4_upgrade-Respects candidate stack [] = Respects-give frame _
    process_requires_4_upgrade-Respects candidate stack (p ∷ ps) =
        let rest = process_requires_4_upgrade-Respects candidate stack ps in
        Respects-bind frame _ _ (Respects-get frame) (λ s.
          elim (Option-cases (lookup (name_of p) s.system_map)) [
            | inr (val, e) ↦ rw e (
                Respects-bind frame _ _ (Respects-lift frame _) (λ v.
                  Respects-bind frame _ _ (Respects-lift frame _) (λ admitted.
                    Respects-if frame admitted _ _ rest
                      (Respects-if frame _ _ _ rest (Respects-give frame _)))))
            | inl e ↦ rw e (
                Respects-if frame (is_provided g rt searcher s candidate p) _ _ rest (
                  Respects-if frame (has (name_of p) s.candidates_map) _ _ rest (
                    Respects-if frame (contains_elem stack (name_of p)) _ _ rest (
                      Respects-bind frame _ _ (search_dependency_4_upgrade-Respects p)
                        (λ key. Respects-bind frame _ _ (kept key stack) (λ u. rest))))))
          ])

    judge_deps-Respects :
        (failing : Verdict) (stack : List String) (art : PackageArtifact)
        → Respects R (judge_deps g rt searcher resolve failing stack art)
    unfolding judge_deps process_artefact_deps_4_upgrade
    judge_deps-Respects failing stack art =
        Respects-bind frame _ _ (process_requires_4_upgrade-Respects _ _ _)
          (λ b. Respects-give frame _)

    judge_version-Respects :
        (failing : Verdict) (stack : List String) (art : PackageArtifact)
        → Respects R (judge_version g rt searcher resolve failing stack art)
    unfolding judge_version
    judge_version-Respects failing stack art = Respects-bind frame _ _ (Respects-get frame) (λ s.
        Respects-bind frame _ _
          (Respects-if frame _ _ _ (Respects-give frame _) (Respects-lift frame _))
          (λ in_conflict. Respects-if frame in_conflict _ _ (Respects-give frame _) (
            Respects-bind frame _ _ (Respects-lift frame _) (λ admitted.
              Respects-bind frame _ _ (Respects-tick frame) (λ n.
                Respects-if frame _ _ _ (Respects-give frame _)
                  (judge_deps-Respects failing stack art))))))

    judge_newer-Respects :
        (stack : List String) (art : PackageArtifact) (candidate : DefaultPackage)
        → Respects R (judge_newer g rt searcher resolve stack art candidate)
    unfolding judge_newer
    judge_newer-Respects stack art candidate = Respects-bind frame _ _ (Respects-get frame) (λ s.
        Respects-bind frame _ _ (Respects-lift frame _) (λ b.
          Respects-if frame b _ _ (judge_version-Respects skipped stack art)
            (Respects-give frame _)))

    judge_4_upgrade-Respects :
        (generate_hash : Digest) (dp : DefaultPackage) (gp_i : _) (stack : List String) (age : Age)
        (art : PackageArtifact) (candidate : DefaultPackage)
        → Respects R
            (judge_4_upgrade g rt searcher resolve generate_hash dp gp_i stack age art candidate)
    unfolding judge_4_upgrade
    judge_4_upgrade-Respects h dp gp_i stack newer art candidate =
        judge_newer-Respects stack art candidate
    judge_4_upgrade-Respects h dp gp_i stack equal art candidate =
        Respects-if frame _ _ _ (Respects-give frame _) (judge_deps-Respects banned stack art)
    judge_4_upgrade-Respects h dp gp_i stack downgrade art candidate =
        judge_version-Respects banned stack art
    judge_4_upgrade-Respects h dp gp_i stack older art candidate = Respects-give frame _

    Respects-verdict :
        {A : Type 0} (v : Verdict) (a b c d : Solving A)
        → Respects R a
        → Respects R b
        → Respects R c
        → Respects R d
        → Respects R (elim v [ banned ↦ a | skipped ↦ b | matched ↦ c | unchanged ↦ d ])
    Respects-verdict banned a b c d h k l m = h
    Respects-verdict skipped a b c d h k l m = k
    Respects-verdict matched a b c d h k l m = l
    Respects-verdict unchanged a b c d h k l m = m

    select_4_upgrade-Respects :
        (generate_hash : Digest) (dp : DefaultPackage) (gp_i : _) (stack : List String)
        (arts : List PackageArtifact) (found_equal : Bool) (banned_version : List String)
        → Respects R (
            select_4_upgrade g rt searcher resolve generate_hash dp gp_i stack arts found_equal
              banned_version)
    unfolding select_4_upgrade
    select_4_upgrade-Respects h dp gp_i stack [] found_equal banned_version = Respects-give frame _
    select_4_upgrade-Respects h dp gp_i stack (art ∷ arts) found_equal banned_version =
        let rest = select_4_upgrade-Respects h dp gp_i stack arts in
        elim (Option-cases (stands_for dp (luet.Artifact.get_package art))) [
          | inl e ↦ rw (select_4_upgrade, e) (rest found_equal banned_version)
          | inr (candidate, e) ↦
              rw (select_4_upgrade, e)
                (Respects-bind frame _ _ (Respects-lift frame _) (λ gp_s.
                  Respects-if frame _ _ _ (rest found_equal banned_version) (
                    Respects-bind frame _ _ (Respects-get frame) (λ s.
                      Respects-bind frame _ _ (Respects-lift frame _) (λ age.
                        Respects-bind frame _ _
                          (judge_4_upgrade-Respects h dp gp_i stack age art candidate)
                          (λ verdict.
                            Respects-verdict verdict _ _ _ _ (rest _ _) (rest _ _)
                              (Respects-give frame _) (Respects-give frame _)))))))
        ]

  selected_4_upgrade-Respects :
      (pkgstr : String) → Respects R (selected_4_upgrade g rt searcher pkgstr)
  unfolding selected_4_upgrade
  selected_4_upgrade-Respects pkgstr = Respects-bind frame _ _ (Respects-get frame) (λ s.
      elim (Option-cases s.map_repos) [
        | inl e ↦ rw e (Respects-lift frame _)
        | inr (m, e) ↦ rw e (
            Respects-bind frame _ _ (Respects-lift frame _) (λ arts.
              Respects-bind frame _ _ (Respects-lift frame _) (λ sorted.
                Respects-bind frame _ _ (record { relates = λ t. frame.finds t _ })
                  (λ u. Respects-give frame _))))
      ])

  accept-relates :
      (k : String) (arts : List PackageArtifact) → Respects R (modify (accept g rt searcher k arts))
  unfolding accept
  accept-relates k arts = record { relates = λ s. accepts_any s _ k arts }

  -- The relation holds across checkCandidate2Upgrade, whatever it returns.
  pub check_candidate_2_upgrade-Respects :
      (generate_hash : Digest) (depth : ℕ) (pkgstr : String) (stack : List String)
      → Respects R (
          check_candidate_2_upgrade g rt searcher generate_hash
            (resolve_package g rt searcher depth)
            pkgstr
            stack)
  unfolding check_candidate_2_upgrade
  check_candidate_2_upgrade-Respects h depth pkgstr stack =
      Respects-if frame _ _ _ (Respects-give frame _) (
        Respects-bind frame _ _ (Respects-get frame) (λ s.
          Respects-if frame _ _ _ (Respects-give frame _) (
            Respects-bind frame _ _ (selected_4_upgrade-Respects pkgstr) (λ arts.
              Respects-bind frame _ _ (Respects-get frame) (λ s1.
                elim (Option-cases (lookup pkgstr s1.system_map)) [
                  | inl e ↦ rw e (Respects-lift frame _)
                  | inr (val, e) ↦ rw e (
                      Respects-bind frame _ _ (Respects-lift frame _) (λ dp.
                        Respects-bind frame _ _
                          (select_4_upgrade-Respects (resolve_package g rt searcher depth)
                            (resolve_package-Respects frame g rt searcher depth) h dp _ stack arts
                            false [])
                          (λ found.
                            Respects-if frame _ _ _ (accept-relates pkgstr _)
                              (Respects-give frame _))))
                ])))))
