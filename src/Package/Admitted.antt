-- ===== src/Package/Admitted.antt =====
-- The positive answer of Admit (pkg/package/package.go).
use luet.Prelude.{
  ◌≡◌, refl, Bool, true, false, List, [], ◌∷◌, arith, ◌&&◌, ◌||◌, not, all, if◌then◌else◌, is_empty,
  Bool-cases, inl, inr, ◌∙◌,
}
use luet.Result.{Result, ok, ◌>>=◌, bind-eq-ok}
use luet.Gentoo.{Gentoo}
use luet.Package.Default.{
  DefaultPackage, get_requires, get_conflicts, get_provides, has_provides, atom_matches,
  to_gentoo_package,
}
use luet.Package.Admit.{gentoo_admit, provides_pass, selectors_pass, admit}

-- The answer is the one wanted.
abbrev says : Bool → Result Bool → Bool
says wanted r = elim r [ ok b ↦ (if wanted then b else not b) | _ ↦ false ]

ok_false : ok false ≡ ok true → ⊥
ok_false h = cc

all_empty :
    (l : List DefaultPackage) (p : DefaultPackage → Bool) → is_empty l ≡ true → all p l ≡ true
all_empty [] p h = refl
all_empty (x ∷ l) p h = cc

module _ (g : Gentoo) where
  -- The version library's answer on a selector and a package.
  abbrev pub version_admits : DefaultPackage → DefaultPackage → Result Bool
  version_admits r a =
      to_gentoo_package g r >>= λ greq. to_gentoo_package g a >>= gentoo_admit g greq

  -- A require that names `a` must let its version in, a conflict must not.
  abbrev pub lets_in : Bool → DefaultPackage → DefaultPackage → Bool
  lets_in wanted a r = not (atom_matches r a) || says wanted (version_admits r a)

  -- The end of an iteration: it goes on only when the answer is the one wanted.
  goes_on :
      (wanted admitted : Bool) (rest : Result Bool)
      → (if (if wanted then admitted else not admitted) then rest else ok false) ≡ ok true
      → ((if wanted then admitted else not admitted) ≡ true) × (rest ≡ ok true)
  goes_on true true rest h = (refl, h)
  goes_on true false rest h = absurd (ok_false h)
  goes_on false true rest h = absurd (ok_false h)
  goes_on false false rest h = (refl, h)

  passed :
      (pass : Bool) (rest : Result Bool)
      → (if pass then rest else ok false) ≡ ok true
      → rest ≡ ok true
  passed true rest h = h
  passed false rest h = absurd (ok_false h)

  selectors_pass-lets_in :
      (wanted : Bool) (a : DefaultPackage) (agentoo : g.GentooPackage) (rs : List DefaultPackage)
      → to_gentoo_package g a ≡ ok agentoo
      → selectors_pass g wanted a agentoo rs ≡ ok true
      → all (lets_in wanted a) rs ≡ true
  unfolding selectors_pass
  selectors_pass-lets_in wanted a agentoo [] e h = refl
  selectors_pass-lets_in wanted a agentoo (r ∷ rs) e h = elim (Bool-cases (atom_matches r a)) [
    | inl y ↦
        let (greq, e1, k1) = bind-eq-ok (to_gentoo_package g r) _ (rw y at h) in
        let (admitted, e2, k2) = bind-eq-ok (gentoo_admit g greq agentoo) _ k1 in
        let (sure, k3) = goes_on wanted admitted _ k2 in
        let rest = selectors_pass-lets_in wanted a agentoo rs e k3 in
        let here : says wanted (version_admits r a) ≡ true = rw (e1, e, e2) sure in
        ground (arith, here, rest)
    | inr n ↦ elim (Bool-cases (has_provides a)) [
      | inr none_there ↦
          let rest = selectors_pass-lets_in wanted a agentoo rs e (rw (n, none_there) at h) in
          ground (arith, rest)
      | inl some_there ↦
          let (pass, e1, k1) =
            bind-eq-ok (provides_pass g wanted r (get_provides a)) _ (rw (n, some_there) at h) in
          let rest = selectors_pass-lets_in wanted a agentoo rs e (passed pass _ k1) in
          ground (arith, rest)
    ]
  ]

  pass_true :
      (pass : Bool) (rest : Result Bool)
      → (if pass then rest else ok false) ≡ ok true
      → ok pass ≡ ok true
  pass_true true rest h = refl
  pass_true false rest h = absurd (ok_false h)

  -- If Admit of `p` answers true for `a`, then every require of `p` that has the category and name
  -- of `a` admits its version, and the answer on each conflict of `p` with them is false.
  pub admit_sound :
      (p a : DefaultPackage)
      → admit g p a ≡ ok true
      → (all (lets_in true a) (get_requires p) ≡ true)
        × (all (lets_in false a) (get_conflicts p) ≡ true)
  unfolding admit
  admit_sound p a h = elim (Bool-cases (is_empty (get_requires p) && is_empty (get_conflicts p))) [
    | inl e ↦
        (all_empty (get_requires p) _ (ground arith), all_empty (get_conflicts p) _ (ground arith))
    | inr e ↦
        let (agentoo, e1, k1) = bind-eq-ok (to_gentoo_package g a) _ (rw e at h) in
        let (requires, e2, k2) =
          bind-eq-ok (selectors_pass g true a agentoo (get_requires p)) _ k1 in
        let conflicts = passed requires _ k2 in
        (
          selectors_pass-lets_in true a agentoo (get_requires p) e1 (e2 ∙ pass_true requires _ k2),
          selectors_pass-lets_in false a agentoo (get_conflicts p) e1 conflicts,
        )
  ]
