-- ===== src/Mask/Rules.antt =====
-- BuildMap and Mask of pkg/v2/repository/mask/file.go together, against a search through the rules.
use luet.Prelude.{
  ◌≡◌, refl, sym, ◌∙◌, ap, String, Bool, true, false, Option, none, some, List, [], ◌∷◌, ◌++◌, ◌==◌,
  if◌then◌else◌, Bool-cases, inl, inr, not, ◌&&◌,
}
use luet.GoMap.{Map, lookup, append_at, with_last, lookup-append_at}
use luet.Result.{Result, ok, ◌>>=◌, bind-eq-ok, ok_injective}
use luet.Gentoo.{Gentoo}
use luet.Package.Admit.{gentoo_admit}
use luet.Mask.{
  MaskFields, PackageMaskFile, get_pkg_str, parsed_rule, add_rules, build_map, masked_by, listed,
  mask,
}

module _ (g : Gentoo) (f : MaskFields g) (repo : String) (p : g.GentooPackage) where
  -- The rules in the order of the file: the first of the package's category, slot and name, for this
  -- repository or for any, that admits the package decides.
  abbrev pub search : List String → Result Bool
  search [] = ok false
  search (rule ∷ rules) =
      let rest = search rules in
      do
        pm ← parsed_rule g f rule
        if get_pkg_str g f pm == get_pkg_str g f p
            then (if not (f.repository pm == "") && not (f.repository pm == repo)
                then rest
                else do admitted ← gentoo_admit g pm p; if admitted then ok true else rest)
            else rest

  abbrev at_name : Map (List g.GentooPackage) → List g.GentooPackage
  at_name m = listed g f (lookup (get_pkg_str g f p) m)

  -- The second search runs where the first finds no match.
  abbrev or_else : Result Bool → Result Bool → Result Bool
  or_else r rest = r >>= (λ b. if b then ok true else rest)

  or_else-false : (r : Result Bool) → or_else r (ok false) ≡ r
  or_else-false (ok true) = refl
  or_else-false (ok false) = refl
  or_else-false (luet.Result.err e) = refl
  or_else-false luet.Result.panic = refl
  or_else-false luet.Result.out_of_fuel = refl

  or_else_assoc : (a b c : Result Bool) → or_else (or_else a b) c ≡ or_else a (or_else b c)
  or_else_assoc (ok true) b c = refl
  or_else_assoc (ok false) b c = refl
  or_else_assoc (luet.Result.err e) b c = refl
  or_else_assoc luet.Result.panic b c = refl
  or_else_assoc luet.Result.out_of_fuel b c = refl

  masked_by-append :
      (xs ys : List g.GentooPackage)
      → masked_by g f repo p (xs ++ ys)
        ≡ or_else (masked_by g f repo p xs) (masked_by g f repo p ys)
  unfolding masked_by
  masked_by-append [] ys = refl
  masked_by-append (pm ∷ xs) ys =
      elim (Bool-cases (not (f.repository pm == "") && not (f.repository pm == repo))) [
        | inl e ↦ rw e (masked_by-append xs ys)
        | inr e ↦ rw e (after (gentoo_admit g pm p) _ _ _ (masked_by-append xs ys))
      ]
    where
      after :
          (r whole first second : Result Bool)
          → whole ≡ or_else first second
          → (r >>= (λ b. if b then ok true else whole))
            ≡ or_else (r >>= (λ b. if b then ok true else first)) second
      after (ok true) whole first second h = refl
      after (ok false) whole first second h = h
      after (luet.Result.err e) whole first second h = refl
      after luet.Result.panic whole first second h = refl
      after luet.Result.out_of_fuel whole first second h = refl

  search-one :
      (pm : g.GentooPackage) (rest : Result Bool)
      → (if not (f.repository pm == "") && not (f.repository pm == repo)
          then rest
          else (gentoo_admit g pm p >>= (λ b. if b then ok true else rest)))
        ≡ or_else (masked_by g f repo p (pm ∷ [])) rest
  unfolding masked_by
  search-one pm rest =
      elim (Bool-cases (not (f.repository pm == "") && not (f.repository pm == repo))) [
        | inl e ↦ rw e refl
        | inr e ↦ rw e (after (gentoo_admit g pm p))
      ]
    where
      after :
          (r : Result Bool)
          → (r >>= (λ b. if b then ok true else rest))
            ≡ or_else (r >>= (λ b. if b then ok true else ok false)) rest
      after (ok true) = refl
      after (ok false) = refl
      after (luet.Result.err e) = refl
      after luet.Result.panic = refl
      after luet.Result.out_of_fuel = refl

  at_name-append_at :
      (k : String) (pm : g.GentooPackage) (m : Map (List g.GentooPackage))
      → at_name (append_at k pm m)
        ≡ (if k == get_pkg_str g f p then at_name m ++ pm ∷ [] else at_name m)
  at_name-append_at k pm m = elim (Bool-cases (k == get_pkg_str g f p)) [
    | inl e ↦
        rw (lookup-append_at k (get_pkg_str g f p) pm m, e) (last (lookup (get_pkg_str g f p) m))
    | inr e ↦ rw (lookup-append_at k (get_pkg_str g f p) pm m, e) refl
  ]
    where
      last :
          (o : Option (List g.GentooPackage))
          → listed g f (some (with_last pm o)) ≡ listed g f o ++ pm ∷ []
      last none = refl
      last (some l) = refl

  search-named :
      (rule : String) (rules : List String) (pm : g.GentooPackage)
      → parsed_rule g f rule ≡ ok pm
      → (get_pkg_str g f pm == get_pkg_str g f p) ≡ true
      → search (rule ∷ rules) ≡ or_else (masked_by g f repo p (pm ∷ [])) (search rules)
  search-named rule rules pm e y = rw (e, y) (search-one pm (search rules))

  search-other :
      (rule : String) (rules : List String) (pm : g.GentooPackage)
      → parsed_rule g f rule ≡ ok pm
      → (get_pkg_str g f pm == get_pkg_str g f p) ≡ false
      → search (rule ∷ rules) ≡ search rules
  search-other rule rules pm e n = rw (e, n) refl

  -- The rules behind one rule, and the map with that rule.
  masked_by-rule :
      (rule : String) (rules : List String) (pm : g.GentooPackage) (m : Map (List g.GentooPackage))
      → parsed_rule g f rule ≡ ok pm
      → or_else
          (masked_by g f repo p (at_name (append_at (get_pkg_str g f pm) pm m)))
          (search rules)
        ≡ or_else (masked_by g f repo p (at_name m)) (search (rule ∷ rules))
  masked_by-rule rule rules pm m e = elim (Bool-cases (get_pkg_str g f pm == get_pkg_str g f p)) [
    | inl y ↦
        ap (λ l. or_else (masked_by g f repo p l) (search rules))
          (at_name-append_at (get_pkg_str g f pm) pm m ∙ rw y refl)
        ∙ ap (λ r. or_else r (search rules)) (masked_by-append (at_name m) (pm ∷ []))
        ∙ or_else_assoc (masked_by g f repo p (at_name m)) (masked_by g f repo p (pm ∷ []))
            (search rules)
        ∙ ap (or_else (masked_by g f repo p (at_name m))) (sym (search-named rule rules pm e y))
    | inr n ↦
        ap (λ l. or_else (masked_by g f repo p l) (search rules))
          (at_name-append_at (get_pkg_str g f pm) pm m ∙ rw n refl)
        ∙ ap (or_else (masked_by g f repo p (at_name m))) (sym (search-other rule rules pm e n))
  ]

  masked_by-add_rules :
      (rules : List String) (m m' : Map (List g.GentooPackage))
      → add_rules g f rules m ≡ ok m'
      → masked_by g f repo p (at_name m')
        ≡ or_else (masked_by g f repo p (at_name m)) (search rules)
  unfolding add_rules
  masked_by-add_rules [] m m' e =
      ap (λ x. masked_by g f repo p (at_name x)) (sym (ok_injective e)) ∙ sym (or_else-false _)
  masked_by-add_rules (rule ∷ rules) m m' e =
      let (pm, parsed, rest) = bind-eq-ok (parsed_rule g f rule) _ e in
      masked_by-add_rules rules (append_at (get_pkg_str g f pm) pm m) m' rest
      ∙ masked_by-rule rule rules pm m parsed

  -- If BuildMap returns for a file with an empty map, Mask answers as the search through the rules in
  -- the order of the file does: the first rule of the package's category, slot and name, for this
  -- repository or for any, that admits the package masks it, and an error of a rule before that is
  -- returned.
  pub mask-build_map :
      (m m' : PackageMaskFile g f)
      → m.pkgs_map ≡ []
      → build_map g f m ≡ ok m'
      → mask g f m' repo p ≡ search m.rules
  unfolding build_map mask masked_by lookup
  mask-build_map m m' empty e =
      let (pkgs_map, built, last) = bind-eq-ok (add_rules g f m.rules m.pkgs_map) _ e in
      ap (λ x. masked_by g f repo p (at_name x.pkgs_map)) (sym (ok_injective last))
      ∙ masked_by-add_rules m.rules [] pkgs_map (ap (add_rules g f m.rules) (sym empty) ∙ built)
