-- ===== src/Solver/Named.antt =====
-- The packages at hand of pkg/v2/solver/solver.go: each key has artefacts of its name, from a finite
-- list of names.
use luet.Prelude.{
  ℕ, ◌≡◌, refl, ◌∙◌, sym, ap, String, Bool, true, false, Option, none, some, List, [], ◌∷◌, ◌++◌,
  arith, ◌&&◌, ◌==◌, nat_eq, ltb, length, any, ◌||◌, all, all-perm, contains_elem, if◌then◌else◌,
  Bool-cases, Option-cases, inl, inr, ==_refl, some_injective,
}
use luet.GoMap.{lookup, put, append_at, with_last}
use luet.Runtime.{GoRuntime}
use luet.Result.{ok, panic, Ends, Ends-bind}
use luet.Gentoo.{Gentoo}
use luet.Package.Default.{human_readable_string}
use luet.Artifact.{PackageArtifact, ArtifactsMap, artifact_name, get_package, add, add_all}
use luet.Solver.Sorting.{
  package_text, first_readable, sort_artifact_list_4_version_and_repos, parse_all, pick_all,
  get_sorted_artifacts_by_key,
}

module _ (names : List String) where
  -- An artefact of the name, which is one of the list.
  abbrev pub is_named : String → PackageArtifact → Bool
  is_named k a = artifact_name a == k && contains_elem names k

  abbrev pub is_known : PackageArtifact → Bool
  is_known a = contains_elem names (artifact_name a)

  abbrev well_named : String × List PackageArtifact → Bool
  well_named e = all (is_named e.0) e.1

  abbrev pub IsNamed : ArtifactsMap → Type 0
  IsNamed am = all well_named am ≡ true

  IsNamed-put :
      (k : String) (arts : List PackageArtifact) (am : ArtifactsMap)
      → all (is_named k) arts ≡ true
      → IsNamed am
      → IsNamed (put k arts am)
  unfolding put
  IsNamed-put k arts [] h i = ground arith
  IsNamed-put k arts ((j, v) ∷ am) h i = elim (Bool-cases (j == k)) [
    | inl e ↦ rw (e, luet.Prelude.==→eq j k e) (ground arith)
    | inr e ↦ rw e (ground (arith, IsNamed-put k arts am h))
  ]

  pub IsNamed-lookup :
      (k : String) (am : ArtifactsMap) (arts : List PackageArtifact)
      → IsNamed am
      → lookup k am ≡ some arts
      → all (is_named k) arts ≡ true
  unfolding lookup
  IsNamed-lookup k [] arts i e = cc
  IsNamed-lookup k ((j, v) ∷ am) arts i e = elim (Bool-cases (j == k)) [
    | inl y ↦
        let same : v ≡ arts = some_injective (rw y at e) in
        rw (sym same, sym (luet.Prelude.==→eq j k y)) (ground arith)
    | inr n ↦ IsNamed-lookup k am arts (ground arith) (rw n at e)
  ]

  all-append :
      (p : PackageArtifact → Bool) (xs ys : List PackageArtifact)
      → all p xs ≡ true
      → all p ys ≡ true
      → all p (xs ++ ys) ≡ true
  all-append p [] ys h i = i
  all-append p (x ∷ xs) ys h i = ground (arith, all-append p xs ys)

  IsNamed-add :
      (a : PackageArtifact) (am : ArtifactsMap)
      → is_known a ≡ true
      → IsNamed am
      → IsNamed (add a am)
  unfolding add append_at
  IsNamed-add a am h i =
      IsNamed-put (artifact_name a) (with_last a (lookup (artifact_name a) am)) am
        (elim (Option-cases (lookup (artifact_name a) am)) [
          | inl e ↦ rw (e, ==_refl (artifact_name a), h) refl
          | inr (v, e) ↦ rw e (
              all-append (is_named (artifact_name a)) v (a ∷ [])
                (IsNamed-lookup (artifact_name a) am v i e)
                (rw (==_refl (artifact_name a), h) refl))
        ])
        i

  pub IsNamed-add_all :
      (arts : List PackageArtifact) (am : ArtifactsMap)
      → all is_known arts ≡ true
      → IsNamed am
      → IsNamed (add_all arts am)
  unfolding add_all
  IsNamed-add_all [] am h i = i
  IsNamed-add_all (a ∷ arts) am h i =
      IsNamed-add_all arts (add a am) (ground arith) (IsNamed-add a am (ground arith) i)

  pub IsNamed-put_sorted :
      (k : String) (arts : List PackageArtifact) (am : ArtifactsMap)
      → all (is_named k) arts ≡ true
      → IsNamed am
      → IsNamed (put k arts am)
  IsNamed-put_sorted = IsNamed-put

module _ (g : Gentoo) (p : PackageArtifact → Bool) where
  -- A sort keeps what holds for all artefacts, and so do the picks of the versions of a key.
  pub sort_artifact_list_4_version_and_repos-Ends :
      (rt : GoRuntime) (b : Bool) (repos : _) (arts : List PackageArtifact)
      → all p arts ≡ true
      → Ends (λ l. all p l ≡ true) (sort_artifact_list_4_version_and_repos g rt b repos arts)
  unfolding sort_artifact_list_4_version_and_repos
  sort_artifact_list_4_version_and_repos-Ends rt b repos arts h =
      by_test _ _ (all-perm p (rt.sort_slice_perm _ arts) ∙ h)
    where
      by_test :
          (test : Bool) (l : List PackageArtifact)
          → all p l ≡ true
          → Ends (λ l. all p l ≡ true) (if test then panic else ok l)
      by_test true l i = tt
      by_test false l i = i

  parse_all-Ends : (arts : List PackageArtifact) → Ends (λ l. Unit {0}) (parse_all g arts)
  unfolding parse_all
  parse_all-Ends [] = tt
  parse_all-Ends (a ∷ arts) =
      elim (Option-cases (g.parse_package_str (human_readable_string (get_package a)))) [
        | inl e ↦ rw (parse_all, e) tt
        | inr (x, e) ↦
            rw (parse_all, e) (Ends-bind _ _ (parse_all g arts) _ (parse_all-Ends arts) (λ l u. tt))
      ]

  pick_all-all :
      (val : List PackageArtifact) (glist : List (g.GentooPackage))
      → all p val ≡ true
      → all p (pick_all g val glist) ≡ true
  unfolding pick_all
  pick_all-all val [] h = refl
  pick_all-all val (x ∷ glist) h =
      all-append [] p _ (pick_all g val glist) (readable val h) (pick_all-all val glist h)
    where
      readable :
          (l : List PackageArtifact)
          → all p l ≡ true
          → all p (first_readable g (package_text g x) l) ≡ true
      readable [] i = refl
      readable (a ∷ l) i =
          elim (Bool-cases (human_readable_string (get_package a) == package_text g x)) [
            | inl e ↦ rw e (ground arith)
            | inr e ↦ rw e (readable l (ground arith))
          ]

  pub get_sorted_artifacts_by_key-Ends :
      (am : ArtifactsMap) (k : String)
      → ((val : List PackageArtifact) → lookup k am ≡ some val → all p val ≡ true)
      → Ends (λ l. all p l ≡ true) (get_sorted_artifacts_by_key g am k)
  unfolding get_sorted_artifacts_by_key
  get_sorted_artifacts_by_key-Ends am k h = elim (Option-cases (lookup k am)) [
    | inl e ↦ rw (get_sorted_artifacts_by_key, e) tt
    | inr (val, e) ↦ elim (Bool-cases (nat_eq (length val) 1)) [
      | inl y ↦ rw (get_sorted_artifacts_by_key, e, y) (h val e)
      | inr n ↦
          rw (get_sorted_artifacts_by_key, e, n)
            (Ends-bind _ _ (parse_all g val) _ (parse_all-Ends val)
              (λ l u. pick_all-all val _ (h val e)))
    ]
  ]
