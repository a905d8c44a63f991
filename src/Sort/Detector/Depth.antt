-- ===== src/Sort/Detector/Depth.antt =====
-- The depth of the calls of recursiveCheckDeps.
use luet.Prelude.{
  ℕ, zero, suc, ◌+◌, ◌*◌, ◌≤◌, ◌<◌, ◌≡◌, refl, String, true, false, some, List, [], ◌∷◌, ◌++◌,
  arith, not, all, count, Bool-cases, Option-cases, inl, inr, All, All-intro, All-keep,
  if◌then◌else◌, ◌==◌, eq→==, ◌∙◌, sym,
}
use luet.GoMap.{lookup, has}
use luet.Result.{Result, Ends, Ends-bind, Ends-weaken}
use luet.Package.Thin.{
  Thin, get_requires, thin_name, atom_matches, package_thin_is_in_list, break_cycles_on_requires,
}
use luet.Package.Atoms.{
  atom_matches_refl, atom_matches_sym, atom_matches_trans, is_in_list_congr, is_in_list-append,
  thin_name-eq, requires-break,
}
use luet.Sort.Detector.{Names, Checking, enter, check_requires, recursive_check_deps}
use luet.Sort.Detector.Queue.{Sound, Sound-put, lookup-keyed, known, resolves, well_required-break}

-- The packages of the base that are not on the stack.
abbrev pub unvisited : List Thin → List Thin → ℕ
unvisited base stack = count (λ b. not (package_thin_is_in_list b stack)) base

abbrev pub Grows : List Thin → List Thin → Type 0
Grows s t = (b : Thin) → package_thin_is_in_list b s ≡ true → package_thin_is_in_list b t ≡ true

pub Grows-append : (s t : List Thin) → Grows s (s ++ t)
Grows-append s t b h = rw (is_in_list-append b s t, h) refl

pub unvisited_mono : (base s t : List Thin) → Grows s t → unvisited base t ≤ unvisited base s
unvisited_mono [] s t g = omega arith
unvisited_mono (b ∷ base) s t g = ground (arith, unvisited_mono base s t g, g b)

-- A known package that comes onto the stack leaves one fewer.
pub unvisited_lt :
    (base s t : List Thin) (x : Thin)
    → Grows s t
    → known base x ≡ true
    → package_thin_is_in_list x s ≡ false
    → package_thin_is_in_list x t ≡ true
    → unvisited base t < unvisited base s
unvisited_lt [] s t x g k out now = cc
unvisited_lt (b ∷ base) s t x g k out now = ground (
  arith,
  unvisited_mono base s t g,
  unvisited_lt base s t x g,
  g b,
  is_in_list_congr b x s,
  is_in_list_congr x b t,
  atom_matches_sym b x,
)

-- The fuel that a call needs: one more where it breaks a cycle.
abbrev pub need : List Thin → List Thin → Thin → ℕ
need base stack p = 2 * unvisited base stack + (if package_thin_is_in_list p stack then 2 else 1)

resolves-known :
    (base : List Thin) (r rq : Thin)
    → resolves base r ≡ true
    → known base rq ≡ true
    → thin_name rq ≡ thin_name r
    → atom_matches r rq ≡ true
resolves-known [] r rq h k e = cc
resolves-known (b ∷ base) r rq h k e = elim (Bool-cases (atom_matches b rq)) [
  | inl m ↦
      let same : (thin_name r == thin_name b) ≡ true =
        eq→== _ _ (sym e ∙ sym (thin_name-eq b rq m)) in
      ground (arith, same, atom_matches_trans r b rq)
  | inr m ↦ resolves-known base r rq (ground arith) (ground arith) e
]

module _ (base : List Thin) (ks : List String) (pinject : Names) where
  -- What a call leaves: a sound queue, and a stack that only grew.
  abbrev pub After : List Thin → Checking → Type 0
  After s c = Sound base ks c.queue × Grows s c.stack

  abbrev Good : ℕ → (Thin → Checking → Result Checking) → Type 0
  Good fuel rec =
      (p : Thin) (c : Checking)
      → Sound base ks c.queue
      → lookup (thin_name p) c.queue ≡ some p
      → need base c.stack p ≤ fuel
      → Ends (After c.stack) (rec p c)

  -- The fuel is enough for the package that the require `r` names, on any stack above `s`.
  abbrev Enough : ℕ → List Thin → Thin → Type 0
  Enough fuel s r =
      (t : List Thin) (rq : Thin)
      → Grows s t
      → known base rq ≡ true
      → atom_matches r rq ≡ true
      → need base t rq ≤ fuel

  check_requires-Ends :
      (fuel : ℕ) (rec : Thin → Checking → Result Checking)
      → Good fuel rec
      → (name : String) (s : List Thin) (rs : List Thin) (c : Checking) → Sound base ks c.queue
      → Grows s c.stack
      → All (Enough fuel s) rs
      → all (resolves base) rs ≡ true
      → Ends (After s) (check_requires rec pinject name rs c)
  unfolding check_requires
  check_requires-Ends fuel rec good name s [] c q g en res = (q, g)
  check_requires-Ends fuel rec good name s (r ∷ rs) c q g en res =
      elim (Option-cases (lookup (thin_name r) c.queue)) [
        | inl e ↦
            rw (e, check_requires)
              (elim (Bool-cases (has (thin_name r) pinject)) [
                | inl y ↦
                    rw y (check_requires-Ends fuel rec good name s rs c q g en.1 (ground arith))
                | inr n ↦ rw n tt
              ])
        | inr (rq, e) ↦
            let named = lookup-keyed c.queue (thin_name r) rq q.keyed e in
            let is_known = q.is_known (thin_name r) rq e in
            let atoms = resolves-known base r rq (ground arith) is_known named in
            rw (e, check_requires)
              (Ends-bind (After c.stack) (After s) (rec rq c) _
                (good rq c q (rw named e) (en.0 c.stack rq g is_known atoms))
                (λ c' h.
                  check_requires-Ends fuel rec good name s rs c' h.0 (λ b m. h.1 b (g b m)) en.1
                    (ground arith)))
      ]

  -- After the push, a package that was on the stack before has requires that were not.
  Enough-cycle :
      (fuel : ℕ) (s u : List Thin)
      → Grows s u
      → 2 * unvisited base s + 1 ≤ fuel
      → (r : Thin) → not (package_thin_is_in_list r s) ≡ true
      → Enough fuel u r
  Enough-cycle fuel s u g n r out t rq h k m =
      let s_to_t : Grows s t = λ b x. h b (g b x) in
      ground (
        arith,
        unvisited_mono base s t s_to_t,
        unvisited_lt base s t rq s_to_t k,
        is_in_list_congr rq r s (atom_matches_sym r rq m),
      )

  Enough-fresh :
      (fuel : ℕ) (u : List Thin) → 2 * unvisited base u + 2 ≤ fuel → (r : Thin) → Enough fuel u r
  Enough-fresh fuel u n r t rq h k m = ground (arith, unvisited_mono base u t h)

  pushed :
      (s : List Thin) (p q : Thin)
      → atom_matches q p ≡ true
      → package_thin_is_in_list p (s ++ q ∷ []) ≡ true
  unfolding package_thin_is_in_list
  pushed s p q m = rw is_in_list-append (ground (arith, atom_matches_sym q p m))

  After-pushed : (s : List Thin) (x : Thin) (a : Checking) → After (s ++ x ∷ []) a → After s a
  After-pushed s x a h = (h.0, λ b m. h.1 b (Grows-append s (x ∷ []) b m))

  pub recursive_check_deps-ends : (fuel : ℕ) → Good fuel (recursive_check_deps pinject fuel)
  unfolding recursive_check_deps
  recursive_check_deps-ends zero p c q here n = absurd (ground arith)
  recursive_check_deps-ends (suc fuel) p c q here n =
      let rec = recursive_check_deps pinject fuel in
      let good = recursive_check_deps-ends fuel in
      let fit = q.required (thin_name p) p here in
      elim (Bool-cases (package_thin_is_in_list p c.stack)) [
        | inl cycle ↦
            let p' = break_cycles_on_requires c.stack p in
            let u = c.stack ++ p' ∷ [] in
            rw (cycle, recursive_check_deps, enter)
              (Ends-weaken (After u) (After c.stack) _
                (check_requires-Ends fuel rec good _ u _ _
                  (Sound-put base ks c.queue p c.stack q here) (λ b m. m)
                  (rw requires-break (
                    All-keep (Enough fuel u) _ (get_requires p) (
                      Enough-cycle fuel c.stack u (Grows-append c.stack (p' ∷ [])) (ground arith))))
                  (well_required-break base c.stack p fit))
                (After-pushed c.stack p'))
        | inr fresh ↦
            let u = c.stack ++ p ∷ [] in
            let fewer =
              unvisited_lt base c.stack u p (Grows-append c.stack (p ∷ []))
                (q.is_known (thin_name p) p here) fresh
                (pushed c.stack p p (atom_matches_refl p)) in
            rw (fresh, recursive_check_deps, enter)
              (Ends-weaken (After u) (After c.stack) _
                (check_requires-Ends fuel rec good _ u _ _ q (λ b m. m)
                  (All-intro (Enough fuel u) (get_requires p) (Enough-fresh fuel u (ground arith)))
                  fit)
                (After-pushed c.stack p))
      ]
