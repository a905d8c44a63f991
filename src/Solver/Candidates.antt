-- ===== src/Solver/Candidates.antt =====
-- The candidates of pkg/v2/solver/solver.go under resolvePackage and the calls below it.
use luet.Prelude.{
  ℕ, zero, suc, ◌≡◌, ◌∙◌, ap, sym, subst, String, true, false, List, arith, if◌then◌else◌,
  contains_elem, is_empty, Bool-cases, inl, inr,
}
use luet.GoMap.{has, has-put}
use luet.Runtime.{GoRuntime}
use luet.Result.{ok, no_valid_candidate, no_valid_dependency}
use luet.Gentoo.{Gentoo}
use luet.Solver.{Solver, Searcher, Solving}
use luet.Solver.Calls.{bind-returns, get-bind, modified, here}
use luet.Solver.Frame.{IsFrame, Respects, resolve_package-Respects}
use luet.Solver.Resolve.{accept, valid_arts, resolve_with, resolve_package}

-- The candidates of `s` are candidates of `t`.
abbrev pub Grows : Solver → Solver → Type 0
Grows s t = (k : String) → has k s.candidates_map ≡ true → has k t.candidates_map ≡ true

pub Grows-frame : IsFrame Grows
Grows-frame = record {
  stays = λ s j h. h;
  joins = λ s t u h k j e. k j (h j e);
  counts = λ s n j h. h;
  finds = λ s am j h. h;
  accepts = λ s provided k arts e j h. ground (arith, has-put k j arts s.candidates_map);
}

-- The method keeps every candidate.
abbrev pub Keeps : {A : Type 0} → Solving A → Type 0
Keeps m = Respects Grows m

module _ (g : Gentoo) (rt : GoRuntime) (searcher : Searcher) where
  -- Whatever it returns, an error too, resolvePackage takes no candidate away: what was a key of the
  -- candidates is one afterwards.
  pub resolve_package-Keeps :
      (fuel : ℕ) (pkgstr : String) (stack : List String)
      → Keeps (resolve_package g rt searcher fuel pkgstr stack)
  resolve_package-Keeps = resolve_package-Respects Grows-frame g rt searcher

module _ (g : Gentoo) (rt : GoRuntime) (searcher : Searcher) where
  -- If resolvePackage succeeds for a package that is not on the stack, then the package is a key of
  -- the candidates afterwards.
  pub resolve_package-has :
      (fuel : ℕ) (pkgstr : String) (stack : List String) (s t : Solver)
      → contains_elem stack pkgstr ≡ false
      → resolve_package g rt searcher fuel pkgstr stack s ≡ (t, ok tt)
      → has pkgstr t.candidates_map ≡ true
  unfolding resolve_package resolve_with accept
  resolve_package-has zero pkgstr stack s t c e = cc
  resolve_package-has (suc fuel) pkgstr stack s t c e =
      elim (Bool-cases (has pkgstr s.candidates_map)) [
        | inl y ↦
            subst (λ u. has pkgstr u.candidates_map ≡ true)
              (ap (λ x. x.0) (rw (c, y) at (sym (get-bind _ s) ∙ e))) y
        | inr n ↦
            let e' = rw (c, n) at (sym (get-bind _ s) ∙ e) in
            let (s1, selected_arts, sorted, e1) = bind-returns _ _ s e' in
            let (s2, found, selected, e2) = bind-returns _ _ s1 e1 in
            let arts = valid_arts g rt searcher found.1 selected_arts in
            let accepted =
              modified found.0 (accept g rt searcher pkgstr arts)
                (if is_empty stack then no_valid_candidate pkgstr else no_valid_dependency pkgstr)
                s2 t e2 in
            subst (λ u. has pkgstr u.candidates_map ≡ true) accepted
              (has-put pkgstr pkgstr arts s2.candidates_map
                ∙ here pkgstr (has pkgstr s2.candidates_map))
      ]
