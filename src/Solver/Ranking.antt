-- ===== src/Solver/Ranking.antt =====
-- The test of SortArtifactList4RequiresAndRepos of pkg/v2/repository/artifact_sort.go: the number of
-- requires, and then the priority of the repository.
use mathlib.Core.List.{Perm}
use luet.Prelude.{
  All-weaken, ℕ, ◌≡◌, refl, ◌∙◌, sym, Bool, true, false, List, [], ◌∷◌, arith, ◌&&◌, ◌||◌, ltb, leb,
  nat_eq, length, ℤ, pos, negsuc, int_lt, All, String, ◌==◌, if◌then◌else◌, Bool-cases, inl, inr,
}
use luet.GoMap.{Map, lookup}
use luet.Runtime.{GoRuntime, IsStrictWeak, IsSortedBy}
use luet.Package.Default.{DefaultPackage, fields, has_requires, get_requires}
use luet.Artifact.{PackageArtifact, get_package}
use luet.Solver.Sorting.{
  priority, requires_and_repos, requires_of, sort_artifact_list_4_requires_and_repos,
}

int_lt_irrefl : (i : ℤ) → int_lt i i ≡ false
int_lt_irrefl (pos m) = ground arith
int_lt_irrefl (negsuc m) = ground arith

int_lt_trans : (i j k : ℤ) → int_lt i j ≡ true → int_lt j k ≡ true → int_lt i k ≡ true
int_lt_trans (pos a) (pos b) (pos c) h l = ground arith
int_lt_trans (pos a) (pos b) (negsuc c) h l = cc
int_lt_trans (pos a) (negsuc b) k h l = cc
int_lt_trans (negsuc a) (pos b) (pos c) h l = refl
int_lt_trans (negsuc a) (pos b) (negsuc c) h l = cc
int_lt_trans (negsuc a) (negsuc b) (pos c) h l = refl
int_lt_trans (negsuc a) (negsuc b) (negsuc c) h l = ground arith

int_lt_ties : (i j k : ℤ) → int_lt j i ≡ false → int_lt k j ≡ false → int_lt k i ≡ false
int_lt_ties (pos a) (pos b) (pos c) h l = ground arith
int_lt_ties (pos a) (pos b) (negsuc c) h l = cc
int_lt_ties (pos a) (negsuc b) k h l = cc
int_lt_ties (negsuc a) (pos b) (pos c) h l = refl
int_lt_ties (negsuc a) (pos b) (negsuc c) h l = cc
int_lt_ties (negsuc a) (negsuc b) (pos c) h l = refl
int_lt_ties (negsuc a) (negsuc b) (negsuc c) h l = ground arith

-- The order on the number of requires and the priority.
abbrev before : (m n : ℕ) → (i j : ℤ) → Bool
before m n i j = ltb m n || (nat_eq m n && int_lt i j)

module _ (map_repos : Map ℤ) where
  abbrev count_of : PackageArtifact → ℕ
  count_of a = length (requires_of a)

  abbrev rank_of : PackageArtifact → ℤ
  rank_of a = priority map_repos (get_package a)

  requires_and_repos-before :
      (a b : PackageArtifact)
      → requires_and_repos map_repos a b ≡ before (count_of a) (count_of b) (rank_of a) (rank_of b)
  unfolding requires_and_repos has_requires
  requires_and_repos-before a b = ground arith

  requires_and_repos-IsStrictWeak : IsStrictWeak (requires_and_repos map_repos)
  requires_and_repos-IsStrictWeak = record {
    irrefl = λ a. requires_and_repos-before a a ∙ ground (arith, int_lt_irrefl (rank_of a));
    trans = λ a b c h k.
        requires_and_repos-before a c
        ∙ ground (
          arith,
          sym (requires_and_repos-before a b) ∙ h,
          sym (requires_and_repos-before b c) ∙ k,
          int_lt_trans (rank_of a) (rank_of b) (rank_of c),
        );
    ties = λ a b c h k.
        requires_and_repos-before c a
        ∙ ground (
          arith,
          sym (requires_and_repos-before b a) ∙ h,
          sym (requires_and_repos-before c b) ∙ k,
          int_lt_ties (rank_of a) (rank_of b) (rank_of c),
        );
  }

-- The order on the integers, with equality.
abbrev int_le : ℤ → ℤ → Bool
int_le (pos m) (pos n) = leb m n
int_le (pos m) (negsuc n) = false
int_le (negsuc m) (pos n) = true
int_le (negsuc m) (negsuc n) = leb n m

not-int_lt : (i j : ℤ) → int_lt j i ≡ false → int_le i j ≡ true
not-int_lt (pos m) (pos n) h = ground arith
not-int_lt (pos m) (negsuc n) h = cc
not-int_lt (negsuc m) (pos n) h = refl
not-int_lt (negsuc m) (negsuc n) h = ground arith

-- The priority of a repository, 100 where the map does not know it.
abbrev pub priority_of : Map ℤ → String → ℤ
priority_of [] repository = pos 100
priority_of ((name, r) ∷ map_repos) repository =
    if name == repository then r else priority_of map_repos repository

-- The first artefact needs fewer packages, or as many and its repository has no higher number.
abbrev pub ranks : Map ℤ → PackageArtifact → PackageArtifact → Bool
ranks map_repos a b =
    let m = length (get_requires (get_package a)) in
    let n = length (get_requires (get_package b)) in
    ltb m n
    || (nat_eq m n
        && int_le (priority_of map_repos (fields (get_package a)).repository)
            (priority_of map_repos (fields (get_package b)).repository))

-- Each artefact ranks before those behind it.
abbrev pub IsRanked : Map ℤ → List PackageArtifact → Type 0
IsRanked map_repos [] = Unit
IsRanked map_repos (a ∷ l) = All (λ b. ranks map_repos a b ≡ true) l × IsRanked map_repos l

priority-priority_of :
    (map_repos : Map ℤ) (p : DefaultPackage)
    → priority map_repos p ≡ priority_of map_repos (fields p).repository
unfolding priority lookup
priority-priority_of [] p = refl
priority-priority_of ((name, r) ∷ map_repos) p = elim (Bool-cases (name == (fields p).repository)) [
  | inl e ↦ rw (priority, lookup, e) refl
  | inr e ↦ rw (priority, lookup, e) (priority-priority_of map_repos p)
]

ranks-requires_and_repos :
    (map_repos : Map ℤ) (a b : PackageArtifact)
    → requires_and_repos map_repos b a ≡ false
    → ranks map_repos a b ≡ true
ranks-requires_and_repos map_repos a b h =
    let test = sym (requires_and_repos-before map_repos b a) ∙ h in
    let lower = not-int_lt (rank_of map_repos a) (rank_of map_repos b) in
    rw
      (
        sym (priority-priority_of map_repos (get_package a)),
        sym (priority-priority_of map_repos (get_package b)),
      )
      (ground (arith, test, lower))

IsRanked-IsSortedBy :
    (map_repos : Map ℤ) (l : List PackageArtifact)
    → IsSortedBy (requires_and_repos map_repos) l
    → IsRanked map_repos l
IsRanked-IsSortedBy map_repos [] h = tt
IsRanked-IsSortedBy map_repos (a ∷ l) h =
    (All-weaken l (ranks-requires_and_repos map_repos a) h.0, IsRanked-IsSortedBy map_repos l h.1)

-- The sort by requires and repositories rearranges the artefacts, and in the answer each artefact has
-- fewer requires than the ones behind it, or as many and a repository whose priority is no larger
-- number, where a repository that is not in the map has priority 100.
pub sort_artifact_list_4_requires_and_repos-IsRanked :
    (rt : GoRuntime) (map_repos : Map ℤ) (arts : List PackageArtifact)
    → Perm (sort_artifact_list_4_requires_and_repos rt map_repos arts) arts
      × IsRanked map_repos (sort_artifact_list_4_requires_and_repos rt map_repos arts)
unfolding sort_artifact_list_4_requires_and_repos
sort_artifact_list_4_requires_and_repos-IsRanked rt map_repos arts = (
  rt.sort_slice_perm (requires_and_repos map_repos) arts,
  IsRanked-IsSortedBy map_repos _ (
      rt.sort_slice_sorted (requires_and_repos map_repos) arts
        (requires_and_repos-IsStrictWeak map_repos)),
)
