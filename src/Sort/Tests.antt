-- ===== src/Sort/Tests.antt =====
-- Runs of the sort on small lists, with a map order and a sort that keep the order they are given.
use luet.Prelude.{
  Bool, Bool-cases, some, inl, inr, arith, subst, ℕ, true, all, if◌then◌else◌, ◌≡◌, ◌≢◌, refl,
  String, List, [], ◌∷◌, ◌==◌,
}
use luet.Package.Thin.{
  Thin, thin, nil, of_list, has_requires, thin_name, require_package, atom_matches,
  break_cycles_on_requires, package_thin_is_in_list,
}
use luet.Package.Names.{package_name}
use luet.Result.{ok, out_of_fuel, Ends}
use luet.Sort.Detector.{Queue}
use luet.Sort.Detector.Queue.{Sound, known, well_required}
use luet.Sort.Detector.Run.{dep_cycle_detector-Ends}
use luet.GoMap.{has, put, lookup, delete_all, occurs}
use luet.Sort.{sort_pkgs_thin_arr, drain, visit, sweep_queue, round, watch}
use luet.Sort.Less.{sort_package_thin_list_4_requires}
use luet.Sort.Detector.{dep_cycle_detector, recursive_check_deps}
use luet.Sort.Conserve.{thin_names}
use luet.Sort.Total.{sort_pkgs_thin_arr-ne-out_of_fuel, sort_pkgs_thin_arr-same_names}
use luet.Sort.Order.{IsOrdered}
use luet.Sort.Topological.{sort_pkgs_thin_arr-IsOrdered}
use luet.Samples.{in_order}

abbrev req : String → Thin
req n = thin n "cat" ">=0" nil nil nil

abbrev pkg : String → List Thin → Thin
pkg n rs = thin n "cat" "1.0" (of_list rs) nil nil

abbrev chain : List Thin
chain = pkg "a" (req "b" ∷ []) ∷ pkg "b" (req "c" ∷ []) ∷ pkg "c" [] ∷ []

abbrev sorted_chain : List Thin
sorted_chain = pkg "c" [] ∷ pkg "b" (req "c" ∷ []) ∷ pkg "a" (req "b" ∷ []) ∷ []

-- "x" and "y" need each other, and "a", "b", "c" form a longer cycle.
abbrev cyclic : List Thin
cyclic =
    pkg "x" (req "y" ∷ [])
    ∷ pkg "y" (req "x" ∷ [])
    ∷ pkg "a" (req "b" ∷ [])
    ∷ pkg "b" (req "c" ∷ [])
    ∷ pkg "c" (req "a" ∷ [])
    ∷ []

program : Unit {0}
unfolding sort_pkgs_thin_arr drain sort_package_thin_list_4_requires has_requires thin_name
    package_name visit has put lookup delete_all sweep_queue round watch dep_cycle_detector
    recursive_check_deps require_package atom_matches ◌==◌ break_cycles_on_requires
    package_thin_is_in_list
program = tt

sort_chain : sort_pkgs_thin_arr in_order chain ≡ ok sorted_chain
unfolding program
sort_chain = refl

abbrev sorted_cyclic : List Thin
sorted_cyclic =
    pkg "x" (req "y" ∷ [])
    ∷ pkg "y" (req "x" ∷ [])
    ∷ pkg "a" []
    ∷ pkg "c" (req "a" ∷ [])
    ∷ pkg "b" (req "c" ∷ [])
    ∷ []

sort_cyclic : sort_pkgs_thin_arr in_order cyclic ≡ ok sorted_cyclic
unfolding program
sort_cyclic = refl

sort_pkgs_thin_arr-ne-out_of_fuel_example : sort_pkgs_thin_arr in_order cyclic ≢ out_of_fuel
unfolding program
sort_pkgs_thin_arr-ne-out_of_fuel_example =
    sort_pkgs_thin_arr-ne-out_of_fuel in_order cyclic refl refl

-- The require has the package's name, "cat/a", but not its category and name, so no stack matches it
-- and the detector calls itself without an end.
abbrev ill_named : List Thin
ill_named = pkg "a" (thin "cat/a" "" ">=0" nil nil nil ∷ []) ∷ []

ill_named_runs_out : sort_pkgs_thin_arr in_order ill_named ≡ out_of_fuel
unfolding program
ill_named_runs_out = refl

sort_pkgs_thin_arr-same_names_example :
    occurs "cat/b" (thin_names sorted_cyclic) ≡ occurs "cat/b" (thin_names cyclic)
unfolding program
sort_pkgs_thin_arr-same_names_example =
    sort_pkgs_thin_arr-same_names in_order cyclic sorted_cyclic refl refl sort_cyclic "cat/b"

abbrev depth_rank : String → ℕ
depth_rank n = if n == "cat/a" then 2 else if n == "cat/b" then 1 else 0

sort_pkgs_thin_arr-IsOrdered_example :
    (ans : List Thin) × (sort_pkgs_thin_arr in_order chain ≡ ok ans)
    × ((k : String) → occurs k (thin_names ans) ≡ occurs k (thin_names chain))
    × IsOrdered [] ans
    × (all (λ t. true) ans ≡ true)
unfolding program
sort_pkgs_thin_arr-IsOrdered_example =
    sort_pkgs_thin_arr-IsOrdered in_order depth_rank (λ t. true) chain refl refl refl

abbrev cyclic_queue : Queue
cyclic_queue = ("cat/x", pkg "x" (req "y" ∷ [])) ∷ ("cat/y", pkg "y" (req "x" ∷ [])) ∷ []

abbrev cyclic_pair : List Thin
cyclic_pair = pkg "x" (req "y" ∷ []) ∷ pkg "y" (req "x" ∷ []) ∷ []

lookup-all :
    (p : Thin → Bool) (n : String) (q : Queue) (t : Thin)
    → all (λ e. p e.1) q ≡ true
    → lookup n q ≡ some t
    → p t ≡ true
unfolding lookup
lookup-all p n [] t h e = cc
lookup-all p n ((j, v) ∷ q) t h e = elim (Bool-cases (j == n)) [
  | inl y ↦
      let same : some v ≡ some t = rw (y, lookup) at e in
      let it : v ≡ t = cc in subst (λ u. p u ≡ true) it (ground arith)
  | inr y ↦ lookup-all p n q t (ground arith) (rw (y, lookup) at e)
]

cyclic_queue-Sound : Sound cyclic_pair ("cat/x" ∷ "cat/y" ∷ []) cyclic_queue
unfolding program
cyclic_queue-Sound = record {
  same_keys = refl;
  keyed = refl;
  is_known = λ n t e. lookup-all (known cyclic_pair) n cyclic_queue t refl e;
  required = λ n t e. lookup-all (well_required cyclic_pair) n cyclic_queue t refl e;
}

dep_cycle_detector-Ends_example :
    Ends
      (Sound cyclic_pair ("cat/x" ∷ "cat/y" ∷ []))
      (dep_cycle_detector in_order 5 0 cyclic_queue [])
dep_cycle_detector-Ends_example =
    dep_cycle_detector-Ends in_order cyclic_pair ("cat/x" ∷ "cat/y" ∷ []) 0 cyclic_queue []
      cyclic_queue-Sound
