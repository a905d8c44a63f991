-- ===== src/Solver/Upgrade/Promises.antt =====
-- What Upgrade of pkg/v2/solver/solver_upgrade.go returns, against the installed packages and the
-- candidates.
use luet.Prelude.{
  All-weaken, ℕ, ℤ, ◌≡◌, refl, sym, ◌∙◌, ap, subst, String, Bool, true, false, Option, some, List,
  [], ◌∷◌, arith, not, ◌&&◌, ◌==◌, any, all, is_empty, Bool-cases, inl, inr, Member, all-perm, All,
  ==_refl,
}
use luet.GoMap.{Map, lookup, has}
use luet.Runtime.{GoRuntime}
use luet.Result.{Result, ok, panic-ne-ok, err-ne-ok}
use luet.Gentoo.{Gentoo}
use luet.Package.Default.{DefaultPackage, name_of}
use luet.Artifact.{PackageArtifact, ArtifactsMap, artifact_name}
use luet.Operations.{first}
use luet.Solver.{Solver, Searcher}
use luet.Solver.Orphans.Answers.{opts-prepare}
use luet.Solver.SystemMap.{first_of_names, system_map-IsFilled, has-system_map, Member-system_map}
use luet.Solver.Calls.{bind-eq-rest, modify-bind, ok-bind, get-bind}
use luet.Solver.Upgrade.{check_found, upgrade}
use luet.Solver.Upgrade.News.{Digest, check_installed_package}
use luet.Solver.Upgrade.Analysis.{analyze_installed_packages, news, panicked, failed}
use luet.Solver.Upgrade.Analyzed.{is_some, analyze_installed_packages-has}
use luet.Solver.Upgrade.Answer.{Answers, no_answers, to_remove}
use luet.Solver.Upgrade.Handled.{is_handled}
use luet.Solver.Upgrade.Covered.{sort_out_all-Grown}
use luet.Solver.Upgrade.Removed.{IsOfSystem, IsOfSystem-sort_out_all, IsOfSystem-sort_out_named}
use luet.Solver.Upgrade.Correct.{Sorted, upgrade-Run, prepared}

module _ (new : DefaultPackage → Bool) where
  any_new-named :
      (ps : List DefaultPackage)
      → any new ps ≡ true
      → (k : String) × (any (λ p. name_of p == k && new p) ps ≡ true)
  any_new-named [] h = cc
  any_new-named (p ∷ ps) h = elim (Bool-cases (new p)) [
    | inl y ↦ (name_of p, rw (==_refl (name_of p), y) refl)
    | inr n ↦ let (k, e) = any_new-named ps (rw n at h) in (k, ground arith)
  ]

  any_new-of_named :
      (k : String) (ps : List DefaultPackage)
      → any (λ p. name_of p == k && new p) ps ≡ true
      → any new ps ≡ true
  any_new-of_named k [] h = cc
  any_new-of_named k (p ∷ ps) h = ground (arith, any_new-of_named k ps)

  -- A map with the names of the new packages is empty exactly if there are none.
  is_empty-any_new :
      (ps : List DefaultPackage) (am : ArtifactsMap)
      → ((k : String) → has k am ≡ any (λ p. name_of p == k && new p) ps)
      → is_empty am ≡ not (any new ps)
  unfolding has
  is_empty-any_new ps [] h = elim (Bool-cases (any new ps)) [
    | inl y ↦ let (k, e) = any_new-named ps y in cc (h k)
    | inr n ↦ rw n refl
  ]
  is_empty-any_new ps ((j, v) ∷ am) h =
      rw (any_new-of_named j ps (sym (h j) ∙ rw (==_refl j) refl)) refl

module _ (g : Gentoo) (generate_hash : Digest) (rt : GoRuntime) (searcher : Searcher) (depth : ℕ)
    (world : List DefaultPackage) (repos : Map ℤ) (s : Solver) where
  abbrev installed : List DefaultPackage
  installed = first_of_names [] world

  abbrev start : Solver
  start = prepared g generate_hash rt searcher world repos s

  -- checkInstalledPackage finds something newer for the package.
  abbrev pub has_news : DefaultPackage → Bool
  has_news p =
      is_some (news (check_installed_package g generate_hash rt searcher start.opts repos p))

  abbrev checked_at : DefaultPackage → Result (Option (List PackageArtifact))
  checked_at p = check_installed_package g generate_hash rt searcher start.opts repos p

  analysis-returns :
      (a : Solver)
      → analyze_installed_packages g generate_hash rt searcher start ≡ (a, ok tt)
      → (k : String)
      → has k a.available_arts_map ≡ any (λ p. name_of p == k && has_news p) installed
  analysis-returns a e =
      let (on_panic, on_error, otherwise) =
        analyze_installed_packages-has g generate_hash rt searcher start installed
          (system_map-IsFilled true world s) in
      let value = ap (λ x. x.1) e in
      elim (Bool-cases (any (λ p. panicked (p, checked_at p)) installed)) [
        | inl y ↦ let stop = on_panic y in absurd (panic-ne-ok (sym stop ∙ value))
        | inr n ↦ elim (Bool-cases (any (λ p. failed (p, checked_at p)) installed)) [
          | inl y ↦ let stop = on_error n y in absurd (err-ne-ok (sym stop ∙ value))
          | inr m ↦ λ k. ap (λ x. has k x.0.available_arts_map) (sym e) ∙ (otherwise n m).1 k
        ]
      ]

  nothing-any :
      (a : Solver)
      → analyze_installed_packages g generate_hash rt searcher start ≡ (a, ok tt)
      → is_empty a.available_arts_map ≡ not (any has_news installed)
  nothing-any a e = is_empty-any_new has_news installed a.available_arts_map (analysis-returns a e)

  -- Removed packages are installed ones, and updates have the names of installed ones.
  abbrev OfWorld : Answers → Type 0
  OfWorld ans =
      All (λ r. (q : DefaultPackage) × Member q world × (r ≡ to_remove q)) ans.remove
      × All (λ u. any (λ q. name_of q == artifact_name u) world ≡ true) ans.update

  packs-OfWorld :
      (t : Solver) (ans : Answers) → Sorted g generate_hash rt searcher start t ans → OfWorld ans
  packs-OfWorld t ans sorted =
      let u = sorted.end in
      let system = u.system_map in
      let held : (k : String) (val : List DefaultPackage) (q : DefaultPackage)
          → lookup k system ≡ some val
          → first val ≡ ok q
          → Member q world =
        λ k val q e f.
          Member-system_map true world s k val q (ap (lookup k) (sym sorted.same.system) ∙ e) f in
      let none_yet : IsOfSystem system u.candidates_map (λ q. Member q world) held no_answers =
        record { removed = tt; updated = tt } in
      let done : IsOfSystem system u.candidates_map (λ q. Member q world) held ans =
        elim (Bool-cases u.opts.no_deps) [
          | inl y ↦
              IsOfSystem-sort_out_named system u.candidates_map _ held sorted.pnames no_answers ans
                (rw y at sorted.packs) none_yet
          | inr n ↦
              IsOfSystem-sort_out_all system u.candidates_map _ held _ no_answers ans
                (rw n at sorted.packs) none_yet
        ] in
      (
        done.removed,
        All-weaken ans.update
            (λ a h.
              sym (has-system_map true world s (artifact_name a))
              ∙ ap (has (artifact_name a)) (sym sorted.same.system)
              ∙ h)
            done.updated,
      )

  -- What Upgrade returns, if it does, with or without the option NoDeps: each artefact to remove
  -- stands for an installed package, and each update has the name of one.
  pub upgrade-removes :
      (t : Solver) (ans : Answers)
      → upgrade g generate_hash rt searcher depth (some world) (ok repos) s ≡ (t, ok ans)
      → All (λ r. (q : DefaultPackage) × Member q world × (r ≡ to_remove q)) ans.remove
        × All (λ u. any (λ q. name_of q == artifact_name u) world ≡ true) ans.update
  upgrade-removes t ans e =
      let run = upgrade-Run g generate_hash rt searcher depth world repos s t ans e in
      elim run.ends [
        | inl (y, nothing) ↦ subst OfWorld nothing (tt, tt)
        | inr (n, sorted) ↦ packs-OfWorld t ans sorted
      ]

  packs-is_handled :
      (t : Solver) (ans : Answers)
      → Sorted g generate_hash rt searcher start t ans
      → s.opts.no_deps ≡ false
      → all (is_handled start.system_map t.candidates_map ans) t.candidates_map ≡ true
  packs-is_handled t ans sorted d =
      let u = sorted.end in
      let off : u.opts.no_deps ≡ false =
        ap (λ o. o.no_deps) (sorted.same.options ∙ opts-prepare true world s) ∙ d in
      let handled =
        (sort_out_all-Grown u.system_map u.candidates_map (rt.range u.ticks u.candidates_map)
          no_answers ans (rw off at sorted.packs)).1 in
      let everywhere =
        sym (
          all-perm (is_handled u.system_map u.candidates_map ans)
            (rt.range_perm u.ticks u.candidates_map))
        ∙ handled in
      rw (sym sorted.same.system, sym sorted.candidates) everywhere

  -- If an installed package has something newer in the repositories and Upgrade returns, without the
  -- option NoDeps, then each key of the candidates at the end is dealt with: the installed package
  -- of that name and the installed packages of the names that its first candidate provides are among
  -- those to remove, and that candidate is an update if it has the name of the key and that is
  -- installed, and otherwise an install, unless it replaces an installed package of another name and
  -- stands under its own name as well.
  pub upgrade-is_handled :
      (t : Solver) (ans : Answers)
      → upgrade g generate_hash rt searcher depth (some world) (ok repos) s ≡ (t, ok ans)
      → s.opts.no_deps ≡ false
      → any has_news installed ≡ true
      → all (is_handled start.system_map t.candidates_map ans) t.candidates_map ≡ true
  upgrade-is_handled t ans e d y =
      let run = upgrade-Run g generate_hash rt searcher depth world repos s t ans e in
      elim run.ends [
        | inl (empty, nothing) ↦
            let found : false ≡ true =
              ap not (sym y) ∙ sym (nothing-any run.analyzed run.analysis) ∙ empty in
            cc
        | inr (n, sorted) ↦ packs-is_handled t ans sorted d
      ]

  -- If checkInstalledPackage neither fails nor panics for an installed package, and finds nothing
  -- newer for any, then Upgrade returns three empty packs.
  pub upgrade-no_answers :
      any (λ p. panicked (p, checked_at p)) installed ≡ false
      → any (λ p. failed (p, checked_at p)) installed ≡ false
      → any has_news installed ≡ false
      → (upgrade g generate_hash rt searcher depth (some world) (ok repos) s).1 ≡ ok no_answers
  unfolding upgrade check_found
  upgrade-no_answers n m q =
      let (on_panic, on_error, otherwise) =
        analyze_installed_packages-has g generate_hash rt searcher start installed
          (system_map-IsFilled true world s) in
      let (returns, names) = otherwise n m in
      let a = (analyze_installed_packages g generate_hash rt searcher start).0 in
      let empty : is_empty a.available_arts_map ≡ true =
        is_empty-any_new has_news installed a.available_arts_map names ∙ ap not q in
      let rest : (check_found g generate_hash rt searcher depth a).1 ≡ ok no_answers =
        ap (λ x. x.1) (get-bind _ a) ∙ rw empty refl in
      ap (λ x. x.1)
        (modify-bind _ _ s
          ∙ modify-bind _ _ _
          ∙ ok-bind repos _ _
          ∙ modify-bind _ _ _
          ∙ bind-eq-rest _ _ start returns)
      ∙ rest
