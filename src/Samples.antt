-- ===== src/Samples.antt =====
-- A concrete Go runtime for tests and witnesses: `range` visits a map in the order of its list, and
-- `sort.Slice` is an insertion
-- sort, and goroutines run in the order of their start.
mod Insertion
use Insertion.{insertion_sort, insertion_sort-perm, insertion_sort-sorted}
use mathlib.Core.List.Perm
use luet.Prelude.{String, some, not, ◌==◌}
use luet.Gentoo.{Gentoo}
use luet.Sort.Less.{str_lt}
use luet.Runtime.{GoRuntime}

abbrev pub in_order : GoRuntime
in_order = record {
  range = λ n m. m;
  range_perm = λ n m. Perm.rfl;
  sort_slice = insertion_sort;
  sort_slice_perm = insertion_sort-perm;
  sort_slice_sorted = insertion_sort-sorted;
  deliver = λ n l. l;
  deliver_perm = λ n l. Perm.rfl;
}

-- A version library that parses every text, and for which a package admits any but "cat/bad-1".
abbrev pub plain_gentoo : Gentoo
plain_gentoo = record {
  GentooPackage = String;
  parse_package_str = λ s. some s;
  set_fields = λ c repository license use_flags p. p;
  admit = λ p i. some (not (i == "cat/bad-1"));
  greater_than = λ p q. some (str_lt q p);
  less_than = λ p q. some (str_lt p q);
  sort_reverse = λ l. l;
  to_str = λ p. p;
  version_build = λ p. "";
  equal = λ p q. some (p == q);
}
