-- ===== src/Solver/Queue.antt =====
-- The candidates of pkg/v2/solver/solver.go as the queue that artefactAdmitByQueue reads: k[0] of
-- every entry.
use luet.Prelude.{
  ◌≡◌, ◌∙◌, String, Bool, true, false, List, [], ◌∷◌, arith, ◌&&◌, not, all, all-perm, is_empty,
  if◌then◌else◌, ℕ, inl, inr, Option-cases,
}
use luet.GoMap.{put}
use luet.Runtime.{GoRuntime}
use luet.Result.{ok, Answered, Answered-bind, Answered-if}
use luet.Gentoo.{Gentoo}
use Prim.Native.String.{◌++◌ as str_append}
use luet.Package.Names.{trim_selector}
use luet.Package.Default.{
  DefaultPackage, atom_matches, has_provides, name_of, get_version, get_provides, get_requires,
  get_conflicts, to_gentoo_package,
}
use luet.Package.Admit.{gentoo_admit, provides_pass, selectors_pass, admit}
use luet.Artifact.{PackageArtifact, ArtifactsMap, get_package}
use luet.Solver.{Solver, Searcher}
use luet.Solver.Conflicts.{artefact_admit_by_queue, admitted_by}
use luet.Solver.Frame.{IsFrame, resolve_package-Respects}
use luet.Solver.Resolve.{resolve_package}

abbrev has_first : String × List PackageArtifact → Bool
has_first e = not (is_empty e.1)

-- Every key of the candidates has an artefact.
abbrev pub IsFull : Solver → Type 0
IsFull s = all has_first s.candidates_map ≡ true

full-put :
    (k : String) (arts : List PackageArtifact) (m : ArtifactsMap)
    → is_empty arts ≡ false
    → all has_first m ≡ true
    → all has_first (put k arts m) ≡ true
unfolding put
full-put k arts [] n h = ground arith
full-put k arts ((j, v) ∷ m) n h = ground (arith, full-put k arts m)

IsFull-frame : IsFrame (λ s t. IsFull s → IsFull t)
IsFull-frame = record {
  stays = λ s h. h;
  joins = λ s t u h k e. k (h e);
  counts = λ s n h. h;
  finds = λ s am h. h;
  accepts = λ s provided k arts n h. full-put k arts s.candidates_map n h;
}

module _ (g : Gentoo) where
  gentoo_admit-Answered : (p i : g.GentooPackage) → Answered (gentoo_admit g p i)
  unfolding gentoo_admit
  gentoo_admit-Answered p i = elim (Option-cases (g.admit p i)) [
    | inl e ↦ rw (gentoo_admit, e) tt
    | inr (b, e) ↦ rw (gentoo_admit, e) tt
  ]

  to_gentoo_package-Answered : (p : DefaultPackage) → Answered (to_gentoo_package g p)
  unfolding to_gentoo_package
  to_gentoo_package-Answered p =
      elim (Option-cases (
        g.parse_package_str
          (str_append (name_of p) (str_append "-" (trim_selector (get_version p)))))) [
            | inl e ↦ rw (to_gentoo_package, e) tt
            | inr (b, e) ↦ rw (to_gentoo_package, e) tt
          ]

  provides_pass-Answered :
      (wanted : Bool) (r : DefaultPackage) (provides : List DefaultPackage)
      → Answered (provides_pass g wanted r provides)
  unfolding provides_pass
  provides_pass-Answered wanted r [] = tt
  provides_pass-Answered wanted r (prov ∷ provides) =
      let rest = provides_pass-Answered wanted r provides in
      Answered-if _ _ _
        (Answered-bind _ _ (to_gentoo_package-Answered r) (λ greq.
          Answered-bind _ _ (to_gentoo_package-Answered prov) (λ gprov.
            Answered-bind _ _ (gentoo_admit-Answered greq gprov) (λ admitted.
              Answered-if (if wanted then admitted else not admitted) _ (ok false) rest tt))))
        rest

  selectors_pass-Answered :
      (wanted : Bool) (a : DefaultPackage) (agentoo : g.GentooPackage) (rs : List DefaultPackage)
      → Answered (selectors_pass g wanted a agentoo rs)
  unfolding selectors_pass
  selectors_pass-Answered wanted a agentoo [] = tt
  selectors_pass-Answered wanted a agentoo (r ∷ rs) =
      let rest = selectors_pass-Answered wanted a agentoo rs in
      Answered-if (atom_matches r a) _ _
        (Answered-bind _ _ (to_gentoo_package-Answered r) (λ greq.
          Answered-bind _ _ (gentoo_admit-Answered greq agentoo) (λ admitted.
            Answered-if (if wanted then admitted else not admitted) _ (ok false) rest tt)))
        (Answered-if (has_provides a) _ _
          (Answered-bind _ _ (provides_pass-Answered wanted r (get_provides a))
            (λ pass. Answered-if pass _ (ok false) rest tt))
          rest)

  pub admit-Answered : (p a : DefaultPackage) → Answered (admit g p a)
  unfolding admit
  admit-Answered p a =
      Answered-if (is_empty (get_requires p) && is_empty (get_conflicts p)) (ok true) _ tt (
        Answered-bind _ _ (to_gentoo_package-Answered a) (λ agentoo.
          Answered-bind _ _ (selectors_pass-Answered true a agentoo (get_requires p)) (λ requires.
            Answered-if requires _ (ok false)
              (selectors_pass-Answered false a agentoo (get_conflicts p)) tt)))

  admitted_by-Answered :
      (p : DefaultPackage) (m : ArtifactsMap)
      → all has_first m ≡ true
      → Answered (admitted_by g p m)
  unfolding admitted_by
  admitted_by-Answered p [] h = tt
  admitted_by-Answered p ((k, []) ∷ m) h = cc
  admitted_by-Answered p ((k, art ∷ arts) ∷ m) h =
      Answered-bind _ _ (admit-Answered (get_package art) p)
        (λ admitted. Answered-if admitted _ (ok false) (admitted_by-Answered p m (ground arith)) tt)

module _ (g : Gentoo) (rt : GoRuntime) (searcher : Searcher) where
  -- resolvePackage keeps every key of the candidates with an artefact at least, whatever it returns,
  -- and with such candidates artefactAdmitByQueue, which reads the first artefact of each key, does
  -- not panic, neither before resolvePackage nor after it.
  pub artefact_admit_by_queue-Answered :
      (fuel : ℕ) (pkgstr : String) (stack : List String) (art : PackageArtifact) (s : Solver)
      → IsFull s
      → Answered (artefact_admit_by_queue g rt s art)
        × IsFull (resolve_package g rt searcher fuel pkgstr stack s).0
        × Answered
            (artefact_admit_by_queue g rt (resolve_package g rt searcher fuel pkgstr stack s).0 art)
  unfolding artefact_admit_by_queue
  artefact_admit_by_queue-Answered fuel pkgstr stack art s h =
      let kept =
        (resolve_package-Respects IsFull-frame g rt searcher fuel pkgstr stack).relates s h in
      (by_queue s h, kept, by_queue (resolve_package g rt searcher fuel pkgstr stack s).0 kept)
    where
      by_queue : (t : Solver) → IsFull t → Answered (artefact_admit_by_queue g rt t art)
      by_queue t i =
          admitted_by-Answered g (get_package art) (rt.range t.ticks t.candidates_map)
            (all-perm has_first (rt.range_perm t.ticks t.candidates_map) ∙ i)
