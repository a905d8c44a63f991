-- ===== src/Installer/Rdepends/Reached.antt =====
-- ResolveRuntime of pkg/v2/installer/rdepend.go against reachability: the packages that use a package,
-- directly or through others.
use luet.Prelude.{
  ◌≤◌, ◌≡◌, refl, String, true, List, [], ◌∷◌, arith, not, inl, inr, All, count_le_length, length,
  Member, at_head, in_tail, all-Member, All-of_Member,
}
use luet.GoMap.{has, occurs, lookup}
use luet.Result.{ok}
use luet.Package.Default.{DefaultPackage, name_of}
use luet.Installer.Rdepends.{
  Resolving, RdepsMap, new_task, rdeps_map, recursive_resolve_rdep, enough_calls, resolve_runtime,
}
use luet.Installer.Rdepends.Users.{uses, users_of, rdeps_map-adds, rdeps_map-from}
use luet.Installer.Rdepends.Visits.{
  Visited, Closed, Once, package_names, recursive_resolve_rdep-Visited,
}

-- The installed packages that stand above `root`: each one requires or provides the name of the last.
pub data Reach (root : DefaultPackage) (system : List DefaultPackage)
    : DefaultPackage → Type 0 where
  here : Reach root system root
  next :
      {q d : DefaultPackage}
      → Reach root system q
      → Member d system
      → uses (name_of q) d ≡ true
      → Reach root system d

module _ (root : DefaultPackage) (system : List DefaultPackage) where
  abbrev edges : RdepsMap
  edges = rdeps_map system []

  abbrev base : List DefaultPackage
  base = root ∷ system

  users-Member :
      {d : DefaultPackage} (k : String)
      → Member d (users_of k edges)
      → Member d system × (uses k d ≡ true)
  unfolding lookup
  users-Member k h = elim (rdeps_map-from k system [] h) [ inl m ↦ elim m [ ] | inr u ↦ u ]

  step-Reach :
      (q : DefaultPackage)
      → Reach root system q
      → All (λ d. Member d base × Reach root system d) (users_of (name_of q) edges)
  step-Reach q h =
      All-of_Member _ (users_of (name_of q) edges)
        (λ d m. let (there, u) = users-Member (name_of q) m in (in_tail there, next h there u))

  run :
      (r' : Resolving) × (recursive_resolve_rdep (enough_calls (length system)) edges root new_task
        ≡ ok r')
      × Visited edges (Reach root system) base [] new_task r'
      × (has (name_of root) r'.resolved_map ≡ true)
  run =
      recursive_resolve_rdep-Visited edges (Reach root system) base step-Reach
        (enough_calls (length system)) [] root new_task at_head here
        (omega (arith, count_le_length (λ p. not (has (name_of p) new_task.resolved_map)) base))

  -- Every reachable name is resolved at the end.
  resolved-Reach :
      {q : DefaultPackage} (r : Resolving)
      → Closed edges [] r
      → has (name_of root) r.resolved_map ≡ true
      → Reach root system q
      → has (name_of q) r.resolved_map ≡ true
  resolved-Reach r c h here = h
  resolved-Reach r c h (next {q} {d} there m u) =
      all-Member (λ e. has (name_of e) r.resolved_map) (users_of (name_of q) edges)
        (rdeps_map-adds (name_of q) system [] m u) (c (name_of q) (resolved-Reach r c h there) refl)

  Closed-new : Closed edges [] new_task
  unfolding has
  Closed-new k h e = cc

  Once-new : Once new_task
  unfolding has
  Once-new k = refl

  -- ResolveRuntime ends, whatever cycles the requires form. Each of its matches is the package itself
  -- or an installed package that stands above it through requires and provides, and no name has two
  -- matches.
  pub resolve_runtime-Reach :
      (ans : List DefaultPackage) × (resolve_runtime root system ≡ ok ans)
      × All (Reach root system) ans
      × ((k : String) → occurs k (package_names ans) ≤ 1)
  unfolding resolve_runtime
  resolve_runtime-Reach =
      let (r, returned, visited, there) = run in
      (r.matches, rw returned refl, visited.holds tt, λ k. ground (arith, visited.once Once-new k))

  -- For every package that stands above `root` in that way, ResolveRuntime has one match of its name.
  pub occurs-resolve_runtime :
      {q : DefaultPackage}
      → Reach root system q
      → (ans : List DefaultPackage) × (resolve_runtime root system ≡ ok ans)
        × (occurs (name_of q) (package_names ans) ≡ 1)
  unfolding resolve_runtime
  occurs-resolve_runtime {q} h =
      let (r, returned, visited, there) = run in
      let resolved = resolved-Reach r (visited.closed Closed-new) there h in
      (r.matches, rw returned refl, ground (arith, visited.once Once-new (name_of q), resolved))
