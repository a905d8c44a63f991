-- ===== src/Installer/Rdepends/Visits.antt =====
-- The calls of recursiveResolveRdep: what one call and the loop over the users do to the resolved
-- names and to the matches.
use mathlib.Core.List.{map-append}
use luet.Prelude.{
  ℕ, zero, suc, ◌≤◌, ◌<◌, ◌≡◌, ◌∙◌, refl, ap, subst, String, Bool, true, false, List, [], ◌∷◌,
  arith, not, ◌==◌, any, all, if◌then◌else◌, Bool-cases, inl, inr, All, All-append, count,
  count-append, map, ==_refl, ==→eq, Member, at_head, in_tail,
}
use luet.GoMap.{has, occurs, has-put}
use luet.Result.{Result, ok}
use luet.Package.Default.{DefaultPackage, name_of}
use luet.Installer.Rdepends.{
  Resolving, RdepsMap, set_resolved, is_resolved, add_match, resolve_users, recursive_resolve_rdep,
}
use luet.Installer.Rdepends.Users.{users_of}

abbrev pub package_names : List DefaultPackage → List String
package_names = map name_of

-- The names of the list that are not resolved.
abbrev pub room : List DefaultPackage → Resolving → ℕ
room base r = count (λ p. not (has (name_of p) r.resolved_map)) base

-- Each resolved name has one match, and no other name has one.
abbrev pub Once : Resolving → Type 0
Once r = (k : String) → occurs k (package_names r.matches) ≡ (if has k r.resolved_map then 1 else 0)

module _ (m : RdepsMap) where
  -- All users of the resolved names are resolved, but for the names of the open calls.
  abbrev pub Closed : List String → Resolving → Type 0
  Closed open_calls r =
      (k : String)
      → has k r.resolved_map ≡ true
      → any (λ j. j == k) open_calls ≡ false
      → all (λ d. has (name_of d) r.resolved_map) (users_of k m) ≡ true

  -- What a call does, for packages that all satisfy `P`.
  pub record Visited (P : DefaultPackage → Type 0) (base : List DefaultPackage)
      (open_calls : List String) (r r' : Resolving) : Type 0 where
    pub grows : (k : String) → has k r.resolved_map ≡ true → has k r'.resolved_map ≡ true
    pub room_le : room base r' ≤ room base r
    pub closed : Closed open_calls r → Closed open_calls r'
    pub holds : All P r.matches → All P r'.matches
    pub once : Once r → Once r'

-- Fewer elements pass a stronger test, and strictly fewer if one passes only the weaker.
count_le {ℓ} :
    {A : Type ℓ} (p q : A → Bool) (l : List A)
    → ((x : A) → q x ≡ true → p x ≡ true)
    → count q l ≤ count p l
count_le p q [] f = omega arith
count_le p q (x ∷ l) f = ground (arith, f x, count_le p q l f)

count_lt {ℓ} :
    {A : Type ℓ} {x : A} (p q : A → Bool) (l : List A)
    → ((y : A) → q y ≡ true → p y ≡ true)
    → Member x l
    → p x ≡ true
    → q x ≡ false
    → count q l < count p l
count_lt p q [] f h y n = elim h [ ]
count_lt p q (x ∷ l) f at_head y n = ground (arith, count_le p q l f)
count_lt p q (x ∷ l) f (in_tail h) y n = ground (arith, f x, count_lt p q l f h y n)

all-grows :
    (r r' : Resolving) (l : List DefaultPackage)
    → ((k : String) → has k r.resolved_map ≡ true → has k r'.resolved_map ≡ true)
    → all (λ d. has (name_of d) r.resolved_map) l ≡ true
    → all (λ d. has (name_of d) r'.resolved_map) l ≡ true
all-grows r r' [] f h = refl
all-grows r r' (d ∷ l) f h = ground (arith, f (name_of d), all-grows r r' l f)

-- The package is set as resolved and added to the matches.
abbrev mark : DefaultPackage → Resolving → Resolving
mark p r = add_match p (set_resolved p r)

module _ (p : DefaultPackage) (r : Resolving) where
  has-mark :
      (k : String)
      → has k (mark p r).resolved_map ≡ (if name_of p == k then true else has k r.resolved_map)
  unfolding add_match set_resolved
  has-mark k = has-put (name_of p) k true r.resolved_map

  mark-grows : (k : String) → has k r.resolved_map ≡ true → has k (mark p r).resolved_map ≡ true
  mark-grows k h = has-mark k ∙ ground arith

  mark-here : has (name_of p) (mark p r).resolved_map ≡ true
  mark-here = has-mark (name_of p) ∙ rw (==_refl (name_of p)) refl

  room-mark :
      (base : List DefaultPackage)
      → Member p base
      → has (name_of p) r.resolved_map ≡ false
      → room base (mark p r) < room base r
  room-mark base h n =
      count_lt _ _ base (λ q e. ground (arith, mark-grows (name_of q))) h (rw n refl)
        (rw mark-here refl)

  Once-mark : has (name_of p) r.resolved_map ≡ false → Once r → Once (mark p r)
  unfolding add_match set_resolved
  Once-mark n h k =
      let one =
        ap (occurs k) (map-append name_of r.matches (p ∷ []))
        ∙ count-append (λ j. j == k) (package_names r.matches) (name_of p ∷ []) in
      let same : (name_of p == k) ≡ true → has (name_of p) r.resolved_map ≡ has k r.resolved_map =
        λ e. ap (λ j. has j r.resolved_map) (==→eq (name_of p) k e) in
      ground (arith, h k, one, has-put (name_of p) k true r.resolved_map, same)

module _ (m : RdepsMap) (open_calls : List String) (p : DefaultPackage) where
  Closed-mark :
      (r : Resolving) → Closed m open_calls r → Closed m (name_of p ∷ open_calls) (mark p r)
  Closed-mark r h k there closed_call =
      let before : has k r.resolved_map ≡ true = ground (arith, has-mark p r k) in
      all-grows r (mark p r) (users_of k m) (mark-grows p r) (h k before (ground arith))

  -- The call of `p` ends once its users are resolved.
  Closed-users :
      (r : Resolving)
      → Closed m (name_of p ∷ open_calls) r
      → all (λ d. has (name_of d) r.resolved_map) (users_of (name_of p) m) ≡ true
      → Closed m open_calls r
  Closed-users r h users k there closed_call = elim (Bool-cases (name_of p == k)) [
    | inl e ↦
        subst (λ j. all (λ d. has (name_of d) r.resolved_map) (users_of j m) ≡ true)
          (==→eq (name_of p) k e) users
    | inr n ↦ h k there (ground arith)
  ]

marked-All :
    (P : DefaultPackage → Type 0) (p : DefaultPackage) (r : Resolving)
    → P p
    → All P r.matches
    → All P (mark p r).matches
unfolding add_match set_resolved
marked-All P p r h c = All-append P r.matches (p ∷ []) c (h, tt)

-- The next list, and every package on it, stays within the base and `P`.
abbrev Within : (DefaultPackage → Type 0) → List DefaultPackage → List DefaultPackage → Type 0
Within P base = All (λ d. Member d base × P d)

module _ (m : RdepsMap) (P : DefaultPackage → Type 0) (base : List DefaultPackage) where
  Visited-refl : (open_calls : List String) (r : Resolving) → Visited m P base open_calls r r
  Visited-refl open_calls r = record {
    grows = λ k h. h;
    room_le = omega arith;
    closed = λ h. h;
    holds = λ h. h;
    once = λ h. h;
  }

  Visited-trans :
      (open_calls : List String) (r s t : Resolving)
      → Visited m P base open_calls r s
      → Visited m P base open_calls s t
      → Visited m P base open_calls r t
  Visited-trans open_calls r s t h k = record {
    grows = λ j e. k.grows j (h.grows j e);
    room_le = omega (arith, h.room_le, k.room_le);
    closed = λ c. k.closed (h.closed c);
    holds = λ c. k.holds (h.holds c);
    once = λ c. k.once (h.once c);
  }

  -- What a call on `p` gives.
  abbrev Done : List String → (p : DefaultPackage) → Resolving → Result Resolving → Type 0
  Done open_calls p r x =
      (r' : Resolving) × (x ≡ ok r')
      × Visited m P base open_calls r r'
      × (has (name_of p) r'.resolved_map ≡ true)

  resolve_users-Visited :
      (rec : DefaultPackage → Resolving → Result Resolving) (fuel : ℕ) (open_calls : List String)
      (val : List DefaultPackage) (r : Resolving)
      → ((d : DefaultPackage) (s : Resolving)
          → Member d base
          → P d
          → room base s < fuel
          → Done open_calls d s (rec d s))
      → Within P base val
      → room base r < fuel
      → (r' : Resolving) × (resolve_users rec val r ≡ ok r')
        × Visited m P base open_calls r r'
        × (all (λ d. has (name_of d) r'.resolved_map) val ≡ true)
  unfolding resolve_users is_resolved
  resolve_users-Visited rec fuel open_calls [] r call w low =
      (r, refl, Visited-refl open_calls r, refl)
  resolve_users-Visited rec fuel open_calls (d ∷ val) r call w low =
      elim (Bool-cases (has (name_of d) r.resolved_map)) [
        | inl y ↦
            let (r', returned, visited, users) =
              resolve_users-Visited rec fuel open_calls val r call w.1 low in
            (
              r',
              rw (resolve_users, y) returned,
              visited,
              ground (arith, visited.grows (name_of d) y, users),
            )
        | inr n ↦
            let (s, one, first, there) = call d r w.0.0 w.0.1 low in
            let (r', rest, visited, users) =
              resolve_users-Visited rec fuel open_calls val s call w.1
                (omega (arith, first.room_le)) in
            (
              r',
              rw (resolve_users, n, one) rest,
              Visited-trans open_calls r s r' first visited,
              ground (arith, visited.grows (name_of d) there, users),
            )
      ]

  -- With more fuel than names that are not resolved, the call ends.
  pub recursive_resolve_rdep-Visited :
      ((q : DefaultPackage) → P q → Within P base (users_of (name_of q) m))
      → (fuel : ℕ) (open_calls : List String) (p : DefaultPackage) (r : Resolving) → Member p base
      → P p
      → room base r < fuel
      → Done open_calls p r (recursive_resolve_rdep fuel m p r)
  unfolding recursive_resolve_rdep is_resolved
  recursive_resolve_rdep-Visited step zero open_calls p r there h low = absurd (omega arith)
  recursive_resolve_rdep-Visited step (suc fuel) open_calls p r there h low =
      elim (Bool-cases (has (name_of p) r.resolved_map)) [
        | inl y ↦ (r, rw (recursive_resolve_rdep, y) refl, Visited-refl open_calls r, y)
        | inr n ↦
            let (r', returned, visited, users) =
              resolve_users-Visited (recursive_resolve_rdep fuel m) fuel (name_of p ∷ open_calls)
                (users_of (name_of p) m) (mark p r)
                (recursive_resolve_rdep-Visited step fuel (name_of p ∷ open_calls)) (step p h)
                (omega (arith, room-mark p r base there n)) in
            (
              r',
              rw (recursive_resolve_rdep, n) returned,
              record {
                grows = λ k e. visited.grows k (mark-grows p r k e);
                room_le = omega (arith, visited.room_le, room-mark p r base there n);
                closed = λ c.
                    Closed-users m open_calls p r' (visited.closed (Closed-mark m open_calls p r c))
                      users;
                holds = λ c. visited.holds (marked-All P p r h c);
                once = λ c. visited.once (Once-mark p r n c);
              },
              visited.grows (name_of p) (mark-here p r),
            )
      ]
