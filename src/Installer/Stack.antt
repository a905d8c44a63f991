-- ===== src/Installer/Stack.antt =====
-- pkg/v2/installer/stack.go: the names of the packages on the way of a recursion.
use luet.Prelude.{
  String, ◌≡◌, ◌∙◌, refl, Bool, true, false, List, [], ◌∷◌, ◌++◌, ◌==◌, ◌||◌, if◌then◌else◌, any,
  any-append, arith,
}

pub record Stack : Type 0 where
  pub packages : List String

abbrev pub new_stack : Stack
new_stack = record { packages = [] }

unfoldable pub add_package : String → Stack → Stack
add_package p s = record s { packages = s.packages ++ p ∷ [] }

-- The loop of HasPackage, which ends at the first match.
unfoldable pub in_packages : String → List String → Bool
in_packages pkg [] = false
in_packages pkg (p ∷ ps) = if p == pkg then true else in_packages pkg ps

unfoldable pub has_package : String → Stack → Bool
unfolding in_packages
has_package pkg s = in_packages pkg s.packages

-- HasPackage answers as before for the packages that AddPackage does not add, and true for the one
-- that it adds.
pub has_package-add_package :
    (s : Stack) (p q : String) → has_package q (add_package p s) ≡ (has_package q s || p == q)
unfolding has_package add_package
has_package-add_package s p q =
    in_packages_any (s.packages ++ p ∷ [])
    ∙ any-append (λ x. x == q) s.packages (p ∷ [])
    ∙ rw (in_packages_any s.packages) last
  where
    in_packages_any : (ps : List String) → in_packages q ps ≡ any (λ x. x == q) ps
    in_packages_any [] = refl
    in_packages_any (x ∷ ps) = ground (arith, in_packages_any ps)

    last :
        (any (λ x. x == q) s.packages || (p == q || false))
        ≡ (any (λ x. x == q) s.packages || p == q)
    last = ground arith
