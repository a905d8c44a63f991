-- ===== src/Solver/Upgrade/Handled.antt =====
-- The loop of Upgrade (pkg/v2/solver/solver_upgrade.go) over the candidates: what its packs have for
-- each of them.
use luet.Prelude.{
  ◌≡◌, refl, sym, subst, String, Bool, true, false, Option, none, some, List, [], ◌∷◌, ◌++◌, arith,
  if◌then◌else◌, ◌&&◌, ◌||◌, ◌==◌, any, any-append, all, map, Bool-cases, Option-cases, inl, inr,
  ==_refl,
}
use luet.GoMap.{lookup, has}
use luet.Result.{ok, bind-eq-ok, ok_injective}
use luet.Package.Default.{DefaultPackage, name_of, get_provides}
use luet.Artifact.{
  PackageArtifact, ArtifactsMap, ArtifactsPack, get_package, artifact_name, artifact_version,
  is_present,
}
use luet.Operations.{first}
use luet.Solver.{PkgsMapList}
use luet.Solver.Upgrade.Answer.{
  Answers, to_remove, add_remove, add_remove_once, add_update, add_install, remove_provided,
}

-- An artefact of the pack has the name and the version of `a`.
abbrev pub has_artifact : PackageArtifact → ArtifactsPack → Bool
has_artifact a =
    any (λ b. artifact_name b == artifact_name a && artifact_version b == artifact_version a)

-- The pack has an artefact of the package's name.
abbrev removes : DefaultPackage → ArtifactsPack → Bool
removes q = any (λ r. artifact_name r == name_of q)

-- What is installed under the key, if anything, is among the packages to remove.
abbrev pub first_removed : Answers → Option (List DefaultPackage) → Bool
first_removed ans none = true
first_removed ans (some []) = true
first_removed ans (some (q ∷ l)) = removes q ans.remove

abbrev pub is_gone : PkgsMapList → Answers → String → Bool
is_gone system ans key = first_removed ans (lookup key system)

-- The candidate of the key is in the pack where it belongs: with the updates, if it replaces an
-- installed package of its own name; with the installs otherwise, unless it replaces a package of
-- another name and is a candidate under its own name too.
abbrev pub is_placed : PkgsMapList → ArtifactsMap → Answers → String → PackageArtifact → Bool
is_placed system candidates ans key a =
    if has key system
    then (if artifact_name a == key
        then has_artifact a ans.update
        else has (artifact_name a) candidates || has_artifact a ans.install)
    else has_artifact a ans.install

abbrev pub is_handled : PkgsMapList → ArtifactsMap → Answers → String × List PackageArtifact → Bool
is_handled system candidates ans (key, plist) = elim plist [
  | [] ↦ false
  | a ∷ _ ↦
      all (is_gone system ans) (key ∷ map name_of (get_provides (get_package a)))
      && is_placed system candidates ans key a
]

-- Nothing that is in the packs gets lost.
pub record Grown (x y : Answers) : Type 0 where
  pub in_remove :
      (test : PackageArtifact → Bool) → any test x.remove ≡ true → any test y.remove ≡ true
  pub in_update :
      (test : PackageArtifact → Bool) → any test x.update ≡ true → any test y.update ≡ true
  pub in_install :
      (test : PackageArtifact → Bool) → any test x.install ≡ true → any test y.install ≡ true

pub Grown-refl : (x : Answers) → Grown x x
Grown-refl x = record { in_remove = λ test h. h; in_update = λ test h. h; in_install = λ test h. h }

pub Grown-trans : (x y z : Answers) → Grown x y → Grown y z → Grown x z
Grown-trans x y z h k = record {
  in_remove = λ test e. k.in_remove test (h.in_remove test e);
  in_update = λ test e. k.in_update test (h.in_update test e);
  in_install = λ test e. k.in_install test (h.in_install test e);
}

any-behind :
    {A : Type 0} (test : A → Bool) (l : List A) (a : A)
    → any test l ≡ true
    → any test (l ++ a ∷ []) ≡ true
any-behind test l a h = rw (any-append test l (a ∷ [])) (ground arith)

pub Grown-add_remove : (a : PackageArtifact) (x : Answers) → Grown x (add_remove a x)
unfolding add_remove
Grown-add_remove a x = record {
  in_remove = λ test h. any-behind test x.remove a h;
  in_update = λ test h. h;
  in_install = λ test h. h;
}

pub Grown-add_update : (a : PackageArtifact) (x : Answers) → Grown x (add_update a x)
unfolding add_update
Grown-add_update a x = record {
  in_remove = λ test h. h;
  in_update = λ test h. any-behind test x.update a h;
  in_install = λ test h. h;
}

pub Grown-add_install : (a : PackageArtifact) (x : Answers) → Grown x (add_install a x)
unfolding add_install
Grown-add_install a x = record {
  in_remove = λ test h. h;
  in_update = λ test h. h;
  in_install = λ test h. any-behind test x.install a h;
}

pub Grown-add_remove_once : (a : PackageArtifact) (x : Answers) → Grown x (add_remove_once a x)
unfolding add_remove_once
Grown-add_remove_once a x = elim (Bool-cases (is_present x.remove a)) [
  | inl e ↦ rw e (Grown-refl x)
  | inr e ↦ rw e (Grown-add_remove a x)
]

pub removes-add_remove :
    (q : DefaultPackage) (x : Answers) → removes q (add_remove (to_remove q) x).remove ≡ true
unfolding add_remove artifact_name
removes-add_remove q x =
    rw
      (
        any-append (λ r. artifact_name r == name_of q) x.remove (to_remove q ∷ []),
        ==_refl (name_of q),
      )
      (ground arith)

pub removes-add_remove_once :
    (q : DefaultPackage) (x : Answers) → removes q (add_remove_once (to_remove q) x).remove ≡ true
unfolding add_remove_once is_present artifact_name
removes-add_remove_once q x = elim (Bool-cases (is_present x.remove (to_remove q))) [
  | inl e ↦ rw e e
  | inr e ↦ rw e (removes-add_remove q x)
]

module _ (system : PkgsMapList) where
  pub first_removed-Grown :
      (x y : Answers) (o : Option (List DefaultPackage))
      → Grown x y
      → first_removed x o ≡ true
      → first_removed y o ≡ true
  first_removed-Grown x y none h e = refl
  first_removed-Grown x y (some []) h e = refl
  first_removed-Grown x y (some (q ∷ l)) h e = h.in_remove (λ r. artifact_name r == name_of q) e

  pub all_gone-Grown :
      (x y : Answers) (keys : List String)
      → Grown x y
      → all (is_gone system x) keys ≡ true
      → all (is_gone system y) keys ≡ true
  all_gone-Grown x y [] h e = refl
  all_gone-Grown x y (k ∷ keys) h e =
      ground (arith, first_removed-Grown x y (lookup k system) h, all_gone-Grown x y keys h)

  pub first_removed-first :
      (val : List DefaultPackage) (q : DefaultPackage) (y : Answers)
      → first val ≡ ok q
      → removes q y.remove ≡ true
      → first_removed y (some val) ≡ true
  first_removed-first [] q y e r = cc
  first_removed-first (p ∷ l) q y e r =
      subst (λ u. removes u y.remove ≡ true) (sym (ok_injective e)) r

  pub remove_provided-Grown :
      (candidates : ArtifactsMap) (provs : List DefaultPackage) (x y : Answers)
      → remove_provided system candidates provs x ≡ ok y
      → Grown x y × (all (is_gone system y) (map name_of provs) ≡ true)
  unfolding remove_provided
  remove_provided-Grown candidates [] x y e =
      (subst (Grown x) (ok_injective e) (Grown-refl x), refl)
  remove_provided-Grown candidates (prov ∷ provs) x y e =
      elim (Option-cases (lookup (name_of prov) system)) [
        | inl n ↦
            let (grown, gone) =
              remove_provided-Grown candidates provs x y (rw (remove_provided, n) at e) in
            (grown, rw n gone)
        | inr (pr, f) ↦
            let (q, got, rest) = bind-eq-ok (first pr) _ (rw (remove_provided, f) at e) in
            let step = add_remove_once (to_remove q) x in
            let (grown, gone) = remove_provided-Grown candidates provs step y rest in
            let there =
              first_removed-first pr q y got (
                grown.in_remove (λ r. artifact_name r == name_of q)
                  (removes-add_remove_once q x)) in
            (
              Grown-trans x step y (Grown-add_remove_once (to_remove q) x) grown,
              rw f (ground arith),
            )
      ]
