-- ===== src/Artifact/Grouping.antt =====
-- ToMap of pkg/v2/compiler/types/artifact/map.go.
use mathlib.Core.List.{append_assoc, append-nil}
use luet.Prelude.{
  String, ◌≡◌, refl, sym, subst, ap, map, ltb, ◌∙◌, Bool, Option, none, some, List, [], ◌∷◌, ◌++◌,
  ◌==◌, if◌then◌else◌, keep, arith, Bool-cases, inl, inr, ==→eq, true, false,
}
use luet.GoMap.{occurs, lookup, has, with_last, lookup-append_at}
use luet.Artifact.{
  PackageArtifact, ArtifactsPack, ArtifactsMap, artifact_name, add, add_all, to_map,
}

-- The artefacts of the name, in the pack's order.
abbrev pub named : String → ArtifactsPack → List PackageArtifact
named k = keep (λ a. artifact_name a == k)

-- What a key holds after the artefacts `xs` are added to what it held.
abbrev pub extended :
    Option (List PackageArtifact) → List PackageArtifact → Option (List PackageArtifact)
extended none [] = none
extended none (x ∷ xs) = some (x ∷ xs)
extended (some v) xs = some (v ++ xs)

extended-cons :
    (o : Option (List PackageArtifact)) (x : PackageArtifact) (xs : List PackageArtifact)
    → extended (some (with_last x o)) xs ≡ extended o (x ∷ xs)
extended-cons none x xs = refl
extended-cons (some v) x xs = rw append_assoc refl

extended-nil : (o : Option (List PackageArtifact)) → extended o [] ≡ o
extended-nil none = refl
extended-nil (some v) = rw append-nil refl

lookup-add_all :
    (k : String) (arts : ArtifactsPack) (am : ArtifactsMap)
    → lookup k (add_all arts am) ≡ extended (lookup k am) (named k arts)
unfolding add_all add
lookup-add_all k [] am = rw (extended-nil (lookup k am)) refl
lookup-add_all k (a ∷ arts) am = elim (Bool-cases (artifact_name a == k)) [
  | inl e ↦
      rw (lookup-add_all k arts (add a am), lookup-append_at (artifact_name a) k a am, e)
        (extended-cons (lookup k am) a (named k arts))
  | inr e ↦ rw (lookup-add_all k arts (add a am), lookup-append_at (artifact_name a) k a am, e) refl
]

-- The key `k` of the map of a pack holds the artefacts of that name, in the order of the pack, and
-- is absent when there are none.
pub lookup-to_map :
    (k : String) (arts : ArtifactsPack) → lookup k (to_map arts) ≡ extended none (named k arts)
unfolding to_map lookup
lookup-to_map k arts = lookup-add_all k arts []

named-first :
    (k : String) (arts : ArtifactsPack) (val : List PackageArtifact)
    → extended none (named k arts) ≡ some val
    → (a : PackageArtifact) × (rest : List PackageArtifact) × (val ≡ a ∷ rest)
      × (artifact_name a ≡ k)
named-first k [] val h = cc
named-first k (a ∷ arts) val h = elim (Bool-cases (artifact_name a == k)) [
  | inl e ↦ (
    a,
    named k arts,
    cc (subst (λ b. extended none (if b then a ∷ named k arts else named k arts) ≡ some val) e h),
    ==→eq (artifact_name a) k e,
  )
  | inr e ↦
      named-first k arts val
        (subst (λ b. extended none (if b then a ∷ named k arts else named k arts) ≡ some val) e h)
]

-- What a key of the map of a pack holds starts with an artefact of that name.
pub lookup-to_map-first :
    (k : String) (arts : ArtifactsPack) (val : List PackageArtifact)
    → lookup k (to_map arts) ≡ some val
    → (a : PackageArtifact) × (rest : List PackageArtifact) × (val ≡ a ∷ rest)
      × (artifact_name a ≡ k)
lookup-to_map-first k arts val h = named-first k arts val (sym (lookup-to_map k arts) ∙ h)

abbrev pub artifact_names : ArtifactsPack → List String
artifact_names = map artifact_name

abbrev pub is_some {ℓ} : {A : Type ℓ} → Option A → Bool
is_some none = false
is_some (some a) = true

has-lookup : (k : String) (am : ArtifactsMap) → has k am ≡ is_some (lookup k am)
unfolding has lookup
has-lookup k [] = refl
has-lookup k ((j, v) ∷ am) = elim (Bool-cases (j == k)) [
  | inl e ↦ rw e refl
  | inr e ↦ rw e (has-lookup k am)
]

-- The map of a pack has the names of the pack.
pub has-to_map :
    (k : String) (arts : ArtifactsPack)
    → has k (to_map arts) ≡ ltb 0 (occurs k (artifact_names arts))
has-to_map k arts = has-lookup k (to_map arts) ∙ ap is_some (lookup-to_map k arts) ∙ any_named arts
  where
    any_named :
        (l : ArtifactsPack)
        → is_some (extended none (named k l)) ≡ ltb 0 (occurs k (artifact_names l))
    any_named [] = refl
    any_named (a ∷ l) = elim (Bool-cases (artifact_name a == k)) [
      | inl e ↦ rw e (ground arith)
      | inr e ↦ rw e (ground (arith, any_named l))
    ]
