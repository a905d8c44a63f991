-- ===== src/Solver/Upgrade/Correct.antt =====
-- Upgrade of pkg/v2/solver/solver_upgrade.go as a whole.
use luet.Prelude.{
  ℕ, ℤ, ◌≡◌, refl, sym, ◌∙◌, ap, subst, String, true, false, none, some, List, [], ◌∷◌,
  if◌then◌else◌, is_empty, Bool-cases, inl, inr, ◌⊎◌,
}
use luet.GoMap.{Map}
use luet.Runtime.{GoRuntime}
use luet.Result.{Result, ok}
use luet.Gentoo.{Gentoo}
use luet.Package.Default.{DefaultPackage}
use luet.Artifact.{ArtifactsMap}
use luet.Solver.{Solver, Searcher, Solving, modify}
use luet.Solver.Calls.{
  bind-returns, get-bind, modify-bind, ok-bind, tick-bind, give-returns, lift-returns,
}
use luet.Solver.Conflicts.{prepare_conflicts_and_system_map}
use luet.Solver.Frame.{
  IsFrame, Respects, Respects-bind, Respects-if, Respects-lift, Respects-give, Respects-get,
  Respects-tick,
}
use luet.Solver.Upgrade.{check_candidates, to_answers, check_found, upgrade}
use luet.Solver.Upgrade.News.{Digest}
use luet.Solver.Upgrade.Analysis.{analyze_installed_packages}
use luet.Solver.Upgrade.Answer.{Answers, no_answers, sort_out_all, sort_out_named}
use luet.Solver.Upgrade.Steps.{IsUpgradeFrame, check_candidate_2_upgrade-Respects}

-- The system map and the options stay.
pub record SameSystem (s t : Solver) : Type 0 where
  pub system : t.system_map ≡ s.system_map
  pub options : t.opts ≡ s.opts

SameSystem-frame : IsUpgradeFrame SameSystem
SameSystem-frame = record {
  frame = record {
    stays = λ s. record { system = refl; options = refl };
    joins = λ s t u h k. record { system = k.system ∙ h.system; options = k.options ∙ h.options };
    counts = λ s n. record { system = refl; options = refl };
    finds = λ s am. record { system = refl; options = refl };
    accepts = λ s provided k arts e. record { system = refl; options = refl };
  };
  accepts_any = λ s provided k arts. record { system = refl; options = refl };
}

abbrev frame : IsFrame SameSystem
frame = SameSystem-frame.frame

module _ (g : Gentoo) (generate_hash : Digest) (rt : GoRuntime) (searcher : Searcher) where
  analyze_installed_packages-Respects :
      Respects SameSystem (analyze_installed_packages g generate_hash rt searcher)
  unfolding analyze_installed_packages
  analyze_installed_packages-Respects =
      let found : (am : Solver → ArtifactsMap)
          → Respects SameSystem (modify (λ s. record s { available_arts_map = am s })) =
        λ am. record { relates = λ s. frame.finds s (am s) } in
      Respects-bind frame _ _ (found _) (λ u. Respects-bind frame _ _ (Respects-get frame) (λ s.
        Respects-bind frame _ _ (Respects-tick frame) (λ n.
          Respects-bind frame _ _ (Respects-lift frame _) (λ pkgs.
            Respects-bind frame _ _ (Respects-tick frame) (λ n'.
              Respects-if frame _ _ _ (Respects-lift frame _) (
                Respects-bind frame _ _ (found _) (λ u'.
                  Respects-if frame _ _ _ (Respects-lift frame _) (Respects-give frame _))))))))

  check_candidates-Respects :
      (depth : ℕ) (pnames : List String)
      → Respects SameSystem (check_candidates g generate_hash rt searcher depth pnames)
  unfolding check_candidates
  check_candidates-Respects depth [] = Respects-give frame _
  check_candidates-Respects depth (pname ∷ pnames) =
      Respects-bind frame _ _
        (check_candidate_2_upgrade-Respects SameSystem-frame g rt searcher generate_hash depth pname
          [])
        (λ u. check_candidates-Respects depth pnames)

  returned :
      {A : Type 0} (m : Solving A)
      → Respects SameSystem m
      → (s t : Solver) (a : A) → m s ≡ (t, ok a)
      → SameSystem s t
  returned m h s t a e = subst (λ x. SameSystem s x.0) e (h.relates s)

  -- The state that the analysis starts from.
  abbrev pub prepared : List DefaultPackage → Map ℤ → Solver → Solver
  prepared world repos s = record (prepare_conflicts_and_system_map world true s) {
    map_repos = some repos;
  }

  -- The end of Upgrade on the packages to analyze.
  abbrev sorted_out : List String → Solver → Result Answers
  sorted_out pnames u =
      if u.opts.no_deps
      then sort_out_named u.system_map u.candidates_map pnames no_answers
      else sort_out_all u.system_map u.candidates_map (rt.range u.ticks u.candidates_map) no_answers

  -- The packs come from the candidates at the end.
  pub record Sorted (from t : Solver) (ans : Answers) : Type 0 where
    pub end : Solver
    pub pnames : List String
    pub same : SameSystem from end
    pub packs : sorted_out pnames end ≡ ok ans
    pub candidates : end.candidates_map ≡ t.candidates_map

  to_answers-Sorted :
      (pnames : List String) (b t : Solver) (ans : Answers)
      → to_answers g generate_hash rt searcher pnames b ≡ (t, ok ans)
      → Sorted b t ans
  unfolding to_answers
  to_answers-Sorted pnames b t ans e =
      let e1 = sym (modify-bind _ _ b) ∙ e in
      let e2 = sym (get-bind _ (record b { map_repos = none })) ∙ e1 in
      let e3 = sym (tick-bind _ (record b { map_repos = none })) ∙ e2 in
      let (last, packs) = lift-returns _ _ e3 in
      record {
        end = record b { map_repos = none };
        pnames = pnames;
        same = record { system = refl; options = refl };
        packs = packs;
        candidates = ap (λ x. x.candidates_map) last;
      }

  -- What follows the analysis: it found nothing, or the packs come from the candidates.
  check_found-Sorted :
      (depth : ℕ) (a t : Solver) (ans : Answers)
      → check_found g generate_hash rt searcher depth a ≡ (t, ok ans)
      → ((is_empty a.available_arts_map ≡ true) × (no_answers ≡ ans))
        ⊎ ((is_empty a.available_arts_map ≡ false) × Sorted a t ans)
  unfolding check_found
  check_found-Sorted depth a t ans e =
      let e1 = sym (get-bind _ a) ∙ e in
      elim (Bool-cases (is_empty a.available_arts_map)) [
        | inl y ↦ inl (y, (give-returns no_answers a (rw y at e1)).1)
        | inr n ↦
            let (b, u, checked, e2) = bind-returns _ _ _ (sym (tick-bind _ a) ∙ rw n at e1) in
            let kept = returned _ (check_candidates-Respects depth _) _ _ _ checked in
            let sorted = to_answers-Sorted _ b t ans e2 in
            inr (
              n,
              record {
                end = sorted.end;
                pnames = sorted.pnames;
                same = record {
                  system = sorted.same.system ∙ kept.system;
                  options = sorted.same.options ∙ kept.options;
                };
                packs = sorted.packs;
                candidates = sorted.candidates;
              },
            )
      ]

  -- A run that returns.
  pub record Run (world : List DefaultPackage) (repos : Map ℤ) (s t : Solver) (ans : Answers)
      : Type 0 where
    pub analyzed : Solver
    pub analysis :
        analyze_installed_packages g generate_hash rt searcher (prepared world repos s)
        ≡ (analyzed, ok tt)
    pub ends :
        ((is_empty analyzed.available_arts_map ≡ true) × (no_answers ≡ ans))
        ⊎ ((is_empty analyzed.available_arts_map ≡ false) × Sorted (prepared world repos s) t ans)

  after_analysis :
      {t : Solver} {ans : Answers} (p a : Solver)
      → SameSystem p a
      → ((is_empty a.available_arts_map ≡ true) × (no_answers ≡ ans))
        ⊎ ((is_empty a.available_arts_map ≡ false) × Sorted a t ans)
      → ((is_empty a.available_arts_map ≡ true) × (no_answers ≡ ans))
        ⊎ ((is_empty a.available_arts_map ≡ false) × Sorted p t ans)
  after_analysis p a h (inl x) = inl x
  after_analysis p a h (inr (n, sorted)) = inr (
    n,
    record {
      end = sorted.end;
      pnames = sorted.pnames;
      same = record {
        system = sorted.same.system ∙ h.system;
        options = sorted.same.options ∙ h.options;
      };
      packs = sorted.packs;
      candidates = sorted.candidates;
    },
  )

  pub upgrade-Run :
      (depth : ℕ) (world : List DefaultPackage) (repos : Map ℤ) (s t : Solver) (ans : Answers)
      → upgrade g generate_hash rt searcher depth (some world) (ok repos) s ≡ (t, ok ans)
      → Run world repos s t ans
  unfolding upgrade
  upgrade-Run depth world repos s t ans e =
      let e1 = sym (modify-bind _ _ s) ∙ e in
      let e2 = sym (modify-bind _ _ _) ∙ e1 in
      let e3 = sym (ok-bind repos _ _) ∙ e2 in
      let e4 = sym (modify-bind _ _ _) ∙ e3 in
      let (a, u, analysis, e5) = bind-returns _ _ (prepared world repos s) e4 in
      record {
        analyzed = a;
        analysis = analysis;
        ends =
            after_analysis (prepared world repos s) a
              (returned _ analyze_installed_packages-Respects _ _ _ analysis)
              (check_found-Sorted depth a t ans e5);
      }
