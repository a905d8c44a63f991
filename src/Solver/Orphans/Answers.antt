-- ===== src/Solver/Orphans/Answers.antt =====
-- Orphans of pkg/v2/solver/orphans.go, for every order of the range and of the responses.
use mathlib.Core.List.{Perm, filter_map, append-nil, append_assoc}
use mathlib.Core.List.Perm
use luet.Prelude.{
  ◌≡◌, refl, ◌∙◌, subst, Bool, true, false, Option, none, some, List, [], ◌∷◌, ◌++◌, ◌+◌, arith,
  if◌then◌else◌, ◌||◌, any, keep, is_empty, map, Bool-cases, Option-cases, inl, inr, any-perm, ℕ,
}
use luet.Runtime.{GoRuntime}
use luet.Result.{ok, err, orphans_interrupted}
use luet.Package.Default.{DefaultPackage}
use luet.Artifact.{PackageArtifact}
use luet.Solver.{Solver, SolverOpts, Searcher, Solving, give, lift, ◌>>=◌}
use luet.Solver.Conflicts.{register, register_all, prepare_conflicts_and_system_map}
use luet.Solver.SystemMap.{first_of_names, system_map-IsFilled, firsts-range}
use luet.Solver.Orphans.{
  Response, failed, orphan, available, orphan_search, receive, check_orphan_package, orphans,
}

abbrev is_error : Option (List PackageArtifact) → Bool
is_error none = true
is_error (some arts) = false

abbrev is_nothing : Option (List PackageArtifact) → Bool
is_nothing none = false
is_nothing (some arts) = is_empty arts

-- The search for the package ends with an error, or with no artefact.
abbrev pub search_fails : Searcher → SolverOpts → DefaultPackage → Bool
search_fails searcher opts p = is_error (searcher (orphan_search opts p))

abbrev pub is_missing : Searcher → SolverOpts → DefaultPackage → Bool
is_missing searcher opts p = is_nothing (searcher (orphan_search opts p))

abbrev is_failed : Response → Bool
is_failed (failed p) = true
is_failed (orphan p) = false
is_failed available = false

abbrev closure : Response → Option DefaultPackage
closure (failed p) = none
closure (orphan p) = some p
closure available = none

receive-all :
    (resps : List Response) (fail : Bool) (ans : List DefaultPackage)
    → receive resps fail ans ≡ (fail || any is_failed resps, ans ++ filter_map closure resps)
unfolding receive filter_map
receive-all [] fail ans = rw append-nil (ground arith)
receive-all (failed p ∷ resps) fail ans = rw (receive-all resps true ans) (ground arith)
receive-all (orphan p ∷ resps) fail ans =
    rw (receive-all resps fail (ans ++ p ∷ []), append_assoc) refl
receive-all (available ∷ resps) fail ans = rw (receive-all resps fail ans) refl

opts-register_all :
    (b : Bool) (world : List DefaultPackage) (s : Solver) → (register_all b world s).opts ≡ s.opts
unfolding register_all register
opts-register_all b [] s = refl
opts-register_all b (p ∷ world) s = opts-register_all b world (register b p s)

pub opts-prepare :
    (b : Bool) (world : List DefaultPackage) (s : Solver)
    → (prepare_conflicts_and_system_map world b s).opts ≡ s.opts
unfolding prepare_conflicts_and_system_map
opts-prepare b world s = opts-register_all b world _

-- The end of Orphans.
abbrev answer : Bool × List DefaultPackage → Solving (List DefaultPackage)
answer r = if r.0 then lift (err orphans_interrupted) else give r.1

module _ (rt : GoRuntime) (searcher : Searcher) (opts : SolverOpts) where
  any-failed :
      (ps : List DefaultPackage)
      → any is_failed (map (check_orphan_package rt searcher opts) ps)
        ≡ any (search_fails searcher opts) ps
  unfolding check_orphan_package
  any-failed [] = refl
  any-failed (p ∷ ps) = elim (Option-cases (searcher (orphan_search opts p))) [
    | inl e ↦ rw (check_orphan_package, e) (ground (arith, any-failed ps))
    | inr (arts, e) ↦ elim (Bool-cases (is_empty arts)) [
      | inl y ↦ rw (check_orphan_package, e, y) (any-failed ps)
      | inr n ↦ rw (check_orphan_package, e, n) (any-failed ps)
    ]
  ]

  closures :
      (ps : List DefaultPackage)
      → filter_map closure (map (check_orphan_package rt searcher opts) ps)
        ≡ keep (is_missing searcher opts) ps
  unfolding check_orphan_package filter_map
  closures [] = refl
  closures (p ∷ ps) = elim (Option-cases (searcher (orphan_search opts p))) [
    | inl e ↦ rw (check_orphan_package, e) (closures ps)
    | inr (arts, e) ↦ elim (Bool-cases (is_empty arts)) [
      | inl y ↦ rw (check_orphan_package, e, y) (cc (closures ps))
      | inr n ↦ rw (check_orphan_package, e, n) (closures ps)
    ]
  ]

  abbrev responses : ℕ → List DefaultPackage → List Response
  responses n ps = rt.deliver n (map (check_orphan_package rt searcher opts) ps)

  any-responses :
      (n : ℕ) (ps qs : List DefaultPackage)
      → Perm ps qs
      → any is_failed (responses n ps) ≡ any (search_fails searcher opts) qs
  any-responses n ps qs h =
      any-perm is_failed (rt.deliver_perm n _)
      ∙ any-failed ps
      ∙ any-perm (search_fails searcher opts) h

  closures-responses :
      (n : ℕ) (ps qs : List DefaultPackage)
      → Perm ps qs
      → Perm (filter_map closure (responses n ps)) (keep (is_missing searcher opts) qs)
  closures-responses n ps qs h = subst (Perm (filter_map closure (responses n ps))) (closures qs) (
      Perm.filter_map closure
        (Perm.trans (rt.deliver_perm n _) (Perm.map (check_orphan_package rt searcher opts) h)))

  received :
      (resps : List Response) (t : Solver) (b : Bool) (qs : List DefaultPackage)
      → any is_failed resps ≡ b
      → Perm (filter_map closure resps) qs
      → (b ≡ true → (answer (receive resps false []) t).1 ≡ err orphans_interrupted)
        × (b ≡ false
            → (ans : List DefaultPackage) × ((answer (receive resps false []) t).1 ≡ ok ans)
              × Perm ans qs)
  received resps t b qs e h =
      rw (receive-all resps false [], e)
        (λ y. rw y refl, λ n. (filter_map closure resps, rw n refl, h))

module _ (rt : GoRuntime) (searcher : Searcher) (world : List DefaultPackage) (s : Solver) where
  abbrev installed : List DefaultPackage
  installed = first_of_names [] world

  -- Orphans, in whatever order the goroutines run and the map is visited: it ends with an error
  -- exactly if the search for one of the installed packages fails; otherwise its answer is, up to
  -- order, the installed packages for which the search finds nothing. A name that is installed twice
  -- counts with its first package.
  pub orphans-Perm :
      (any (search_fails searcher s.opts) installed ≡ true
        → (orphans rt searcher world s).1 ≡ err orphans_interrupted)
      × (any (search_fails searcher s.opts) installed ≡ false
          → (ans : List DefaultPackage) × ((orphans rt searcher world s).1 ≡ ok ans)
            × Perm ans (keep (is_missing searcher s.opts) installed))
  unfolding orphans ◌>>=◌
  orphans-Perm =
      let prepared = prepare_conflicts_and_system_map world false s in
      let (got, perm) =
        firsts-range rt prepared.ticks prepared.system_map installed
          (system_map-IsFilled false world s) in
      rw (got, opts-prepare false world s)
        (received rt searcher s.opts (responses rt searcher s.opts (prepared.ticks + 1) _) _ _ _
          (any-responses rt searcher s.opts (prepared.ticks + 1) _ installed perm)
          (closures-responses rt searcher s.opts (prepared.ticks + 1) _ installed perm))
