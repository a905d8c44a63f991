-- ===== src/Operations/Behind.antt =====
-- The requires of the packages to install and to update, as OrderOperations takes them, and the
-- order of operations that respects them.
use mathlib.Core.List.{append_assoc}
use luet.Prelude.{
  ◌≤◌, ◌<◌, ◌≡◌, refl, sym, ◌∙◌, ap, subst, String, Bool, true, false, List, [], ◌∷◌, ◌++◌, arith,
  ◌&&◌, ◌||◌, not, all, map, keep, ltb, ◌==◌, ==_refl, ==→eq, Bool-cases, inl, inr, All,
}
use luet.GoMap.{has, occurs}
use luet.Package.Default.{
  DefaultPackage, PackageList, nil, cons, pkg, to_list, name_of, get_requires, to_package_thin,
  to_thins,
}
use luet.Package.Thin.{Thin, thin_name, set_requires, to_list-of_list}
use luet.Artifact.{PackageArtifact, ArtifactsPack, ArtifactsMap, get_package, artifact_name, to_map}
use luet.Artifact.Grouping.{artifact_names, has-to_map}
use luet.Operations.{Operation, operation_name, thin_of, create_thin_pkgs_plist}
use luet.Operations.Plan.{operation_names, thin_name-thin_of}
use luet.Operations.Merging.{occurs-append}
use luet.Sort.Conserve.{thin_names}
use luet.Sort.Order.{IsOrdered}

-- The names of the requires of a package, as far as the pack has packages of those names.
abbrev pub required : ArtifactsPack → PackageArtifact → List String
required arts a =
    keep (λ n. ltb 0 (occurs n (artifact_names arts))) (map name_of (get_requires (get_package a)))

-- The requires of the packages of a name, as far as the pack has them, are all `seen`.
abbrev pub all_seen : ArtifactsPack → List String → String → Bool
all_seen arts seen k =
    all (λ a. not (artifact_name a == k) || all (λ n. ltb 0 (occurs n seen)) (required arts a)) arts

-- The operations on the requires of each operation's package stand before it, or are `seen`.
abbrev pub IsBehind : ArtifactsPack → List String → List Operation → Type 0
IsBehind arts seen [] = Unit
IsBehind arts seen (o ∷ ops) =
    (all_seen arts seen (operation_name o) ≡ true)
    × IsBehind arts (seen ++ operation_name o ∷ []) ops

abbrev pub same_texts : List String → List String → Bool
same_texts [] [] = true
same_texts [] (t ∷ ts) = false
same_texts (s ∷ ss) [] = false
same_texts (s ∷ ss) (t ∷ ts) = s == t && same_texts ss ts

same_texts-eq : (ss ts : List String) → same_texts ss ts ≡ true → ss ≡ ts
same_texts-eq [] [] h = refl
same_texts-eq [] (t ∷ ts) h = cc
same_texts-eq (s ∷ ss) [] h = cc
same_texts-eq (s ∷ ss) (t ∷ ts) h =
    let head = ==→eq s t (ground arith) in let tail = same_texts-eq ss ts (ground arith) in cc

same_texts_refl : (ss : List String) → same_texts ss ss ≡ true
same_texts_refl [] = refl
same_texts_refl (s ∷ ss) = ground (arith, ==_refl s, same_texts_refl ss)

-- The thin package has the requires of the package of its name: none is lost by the sort.
abbrev pub whole_requires : ArtifactsPack → Thin → Bool
whole_requires arts t =
    all
      (λ a.
        not (artifact_name a == thin_name t)
        || same_texts (thin_names (luet.Package.Thin.get_requires t)) (required arts a))
      arts

set_requires-get :
    (rs : List Thin) (t : Thin) → luet.Package.Thin.get_requires (set_requires rs t) ≡ rs
set_requires-get rs (luet.Package.Thin.thin n c v rq cf pv) = to_list-of_list rs

thin_name-to_thin : (p : DefaultPackage) → thin_name (to_package_thin p) ≡ name_of p
unfolding thin_name to_package_thin name_of
thin_name-to_thin (pkg f requires conflicts provides) = refl

keep-to_thins :
    (m : ArtifactsMap) (rs : PackageList)
    → thin_names (keep (λ r. has (thin_name r) m) (luet.Package.Thin.to_list (to_thins rs)))
      ≡ keep (λ n. has n m) (map name_of (to_list rs))
unfolding to_thins
keep-to_thins m nil = refl
keep-to_thins m (cons p rs) = elim (Bool-cases (has (name_of p) m)) [
  | inl e ↦ rw (thin_name-to_thin p, e) (cc (thin_name-to_thin p, keep-to_thins m rs))
  | inr e ↦ rw (thin_name-to_thin p, e) (keep-to_thins m rs)
]

keep-cong :
    (p q : String → Bool) (ns : List String) → ((n : String) → p n ≡ q n) → keep p ns ≡ keep q ns
keep-cong p q [] h = refl
keep-cong p q (n ∷ ns) h = rw (h n, keep-cong p q ns h) refl

requires-to_package_thin :
    (m : ArtifactsMap) (p : DefaultPackage)
    → thin_names
        (keep (λ r. has (thin_name r) m) (luet.Package.Thin.get_requires (to_package_thin p)))
      ≡ keep (λ n. has n m) (map name_of (get_requires p))
unfolding to_package_thin
requires-to_package_thin m (pkg f requires conflicts provides) = keep-to_thins m requires

-- createThinPkgsPlist keeps the requires that the pack has.
requires-thin_of :
    (arts : ArtifactsPack) (a : PackageArtifact)
    → thin_names (luet.Package.Thin.get_requires (thin_of (to_map arts) a)) ≡ required arts a
unfolding thin_of
requires-thin_of arts a =
    ap thin_names (set_requires-get _ (to_package_thin (get_package a)))
    ∙ requires-to_package_thin (to_map arts) (get_package a)
    ∙ keep-cong _ _ _ (λ n. has-to_map n arts)

-- No artefact of the list has the name.
all-absent :
    (k : String) (q : PackageArtifact → Bool) (arts : ArtifactsPack)
    → occurs k (artifact_names arts) ≡ 0
    → all (λ a. not (artifact_name a == k) || q a) arts ≡ true
all-absent k q [] h = refl
all-absent k q (a ∷ arts) h = ground (arith, all-absent k q arts)

all-middle :
    (p : PackageArtifact → Bool) (before after : ArtifactsPack) (a : PackageArtifact)
    → all p before ≡ true
    → p a ≡ true
    → all p after ≡ true
    → all p (before ++ a ∷ after) ≡ true
all-middle p [] after a h k l = ground arith
all-middle p (b ∷ before) after a h k l = ground (arith, all-middle p before after a)

all-names :
    (seen : List String) (rs : List Thin)
    → All (λ r. 0 < occurs (thin_name r) seen) rs
    → all (λ n. ltb 0 (occurs n seen)) (thin_names rs) ≡ true
all-names seen [] h = refl
all-names seen (r ∷ rs) h = let here = h.0 in ground (arith, all-names seen rs h.1)

-- What holds of the thin package's requires holds of those of the packages of its name.
all_seen-whole :
    (arts base : ArtifactsPack) (seen : List String) (t : Thin)
    → all
        (λ a.
          not (artifact_name a == thin_name t)
          || same_texts (thin_names (luet.Package.Thin.get_requires t)) (required base a))
        arts
      ≡ true
    → all (λ n. ltb 0 (occurs n seen)) (thin_names (luet.Package.Thin.get_requires t)) ≡ true
    → all
        (λ a.
          not (artifact_name a == thin_name t)
          || all (λ n. ltb 0 (occurs n seen)) (required base a))
        arts
      ≡ true
all_seen-whole [] base seen t w h = refl
all_seen-whole (a ∷ arts) base seen t w h =
    let rest = all_seen-whole arts base seen t (ground arith) h in
    elim (Bool-cases (artifact_name a == thin_name t)) [
      | inl e ↦
          let same =
            same_texts-eq (thin_names (luet.Package.Thin.get_requires t)) (required base a)
              (ground arith) in
          let here : all (λ n. ltb 0 (occurs n seen)) (required base a) ≡ true =
            subst (λ l. all (λ n. ltb 0 (occurs n seen)) l ≡ true) same h in
          rw (e, here) rest
      | inr e ↦ rw e rest
    ]

module _ (arts : ArtifactsPack) where
  pub plist-whole_requires :
      (before after : ArtifactsPack)
      → before ++ after ≡ arts
      → ((k : String) → occurs k (artifact_names arts) ≤ 1)
      → all (whole_requires arts) (create_thin_pkgs_plist after (to_map arts)) ≡ true
  unfolding create_thin_pkgs_plist
  plist-whole_requires before [] e d = refl
  plist-whole_requires before (a ∷ after) e d =
      let k = artifact_name a in
      let t = thin_of (to_map arts) a in
      let test : (b : PackageArtifact) → Bool = λ b.
        not (artifact_name b == k)
        || same_texts (thin_names (luet.Package.Thin.get_requires t)) (required arts b) in
      let one = subst (λ l. occurs k (artifact_names l) ≤ 1) (sym e) (d k) in
      let split = occurs-append k before (a ∷ after) in
      let in_front : all test before ≡ true =
        all-absent k _ before (ground (arith, ==_refl (artifact_name a))) in
      let at_a : test a ≡ true =
        rw (requires-thin_of arts a, same_texts_refl (required arts a)) (ground arith) in
      let behind : all test after ≡ true =
        all-absent k _ after (ground (arith, ==_refl (artifact_name a))) in
      let everywhere : all test arts ≡ true =
        subst (λ l. all test l ≡ true) e (all-middle test before after a in_front at_a behind) in
      let here : whole_requires arts t ≡ true = rw (thin_name-thin_of (to_map arts) a) everywhere in
      let rest =
        plist-whole_requires (before ++ a ∷ []) after (append_assoc before (a ∷ []) after ∙ e) d in
      ground (arith, here, rest)

  -- What the order of the thin packages says of operations with their names.
  pub IsBehind-IsOrdered :
      (seen : List String) (order : List Thin) (ops : List Operation)
      → operation_names ops ≡ thin_names order
      → all (whole_requires arts) order ≡ true
      → IsOrdered seen order
      → IsBehind arts seen ops
  IsBehind-IsOrdered seen [] [] e w h = tt
  IsBehind-IsOrdered seen [] (o ∷ ops) e w h = cc
  IsBehind-IsOrdered seen (t ∷ order) [] e w h = cc
  IsBehind-IsOrdered seen (t ∷ order) (o ∷ ops) e w h =
      let name : operation_name o ≡ thin_name t = cc in
      let rest : operation_names ops ≡ thin_names order = cc in
      let names = all-names seen (luet.Package.Thin.get_requires t) h.0 in
      let here = all_seen-whole arts arts seen t (ground arith) names in
      let behind =
        IsBehind-IsOrdered (seen ++ thin_name t ∷ []) order ops rest (ground arith) h.1 in
      (
        subst (λ n. all_seen arts seen n ≡ true) (sym name) here,
        subst (λ n. IsBehind arts (seen ++ n ∷ []) ops) (sym name) behind,
      )
