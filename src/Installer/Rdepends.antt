-- ===== src/Installer/Rdepends.antt =====
-- pkg/v2/installer/rdepend.go: ResolveRdependsTask, ResolveRuntime and recursiveResolveRdep.
pub mod Users
pub mod Visits
pub mod Reached
mod Tests
use luet.Prelude.{
  ℕ, zero, suc, String, Bool, true, false, Option, none, some, List, [], ◌∷◌, ◌++◌, if◌then◌else◌,
  length,
}
use luet.GoMap.{Map, lookup, has, put, append_at}
use luet.Result.{Result, ok, out_of_fuel, ◌>>=◌}
use luet.Package.Default.{DefaultPackage, name_of, get_provides, get_requires}

abbrev pub RdepsMap : Type 0
RdepsMap = Map (List DefaultPackage)

-- The fields of the task that the recursion changes: resolvedMap and Matches.
pub record Resolving : Type 0 where
  pub resolved_map : Map Bool
  pub matches : List DefaultPackage

-- NewResolveRdependsTask
abbrev pub new_task : Resolving
new_task = record { resolved_map = []; matches = [] }

unfoldable pub set_resolved : DefaultPackage → Resolving → Resolving
set_resolved p r = record r { resolved_map = put (name_of p) true r.resolved_map }

unfoldable pub is_resolved : DefaultPackage → Resolving → Bool
is_resolved p r = has (name_of p) r.resolved_map

unfoldable pub add_match : DefaultPackage → Resolving → Resolving
add_match p r = record r { matches = r.matches ++ p ∷ [] }

-- AddRdep2Map(p, d): `p` is under the name of `d`.
unfoldable pub add_rdep_2_map : DefaultPackage → DefaultPackage → RdepsMap → RdepsMap
add_rdep_2_map p d m = append_at (name_of d) p m

unfoldable pub add_rdeps : DefaultPackage → List DefaultPackage → RdepsMap → RdepsMap
unfolding add_rdep_2_map
add_rdeps p [] m = m
add_rdeps p (d ∷ ds) m = add_rdeps p ds (add_rdep_2_map p d m)

-- The loop over the installed packages.
unfoldable pub rdeps_map : List DefaultPackage → RdepsMap → RdepsMap
unfolding add_rdeps
rdeps_map [] m = m
rdeps_map (p ∷ system) m =
    rdeps_map system (add_rdeps p (get_requires p) (add_rdeps p (get_provides p) m))

abbrev pub users_in : Option (List DefaultPackage) → List DefaultPackage
users_in none = []
users_in (some val) = val

-- The loop over the packages that use the one just resolved.
unfoldable pub resolve_users :
    (DefaultPackage → Resolving → Result Resolving)
    → List DefaultPackage
    → Resolving
    → Result Resolving
resolve_users rec [] r = ok r
resolve_users rec (d ∷ val) r =
    let rest = resolve_users rec val r in
    if is_resolved d r then rest else do r' ← rec d r; resolve_users rec val r'

unfoldable pub recursive_resolve_rdep : ℕ → RdepsMap → DefaultPackage → Resolving → Result Resolving
unfolding resolve_users
recursive_resolve_rdep zero m p r = out_of_fuel
recursive_resolve_rdep (suc fuel) m p r =
    if is_resolved p r
    then ok r
    else resolve_users (recursive_resolve_rdep fuel m) (users_in (lookup (name_of p) m))
        (add_match p (set_resolved p r))

-- The depth of calls that the model allows for, for n installed packages.
abbrev pub enough_calls : ℕ → ℕ
enough_calls n = suc (suc n)

-- The matches for a task on the package `p` and the installed packages.
unfoldable pub resolve_runtime : DefaultPackage → List DefaultPackage → Result (List DefaultPackage)
unfolding recursive_resolve_rdep
resolve_runtime p system = do
  r ← recursive_resolve_rdep (enough_calls (length system)) (rdeps_map system []) p new_task
  ok r.matches
