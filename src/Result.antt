-- ===== src/Result.antt =====
-- What a Go function of the solver gives back: a value, an error, a run-time panic (an index out of
-- range), or nothing, where the model's fuel is used up. The error kinds are the messages that
-- pkg/v2/solver, pkg/package/database_mem.go, pkg/v2/compiler/types/artifact/map.go and the libraries that they call
-- produce.
use luet.Prelude.{Bool, true, false, if◌then◌else◌, ℕ, ◌≡◌, ◌≢◌, refl, subst, String}

pub data Error : Type 0 where
  -- OrderOperations with a nil pack
  invalid_parameters : Error
  -- an error of the version library
  gentoo_error : Error
  -- "Error on retrieve requires %s on queue"
  require_not_queued : (name require : String) → Error
  -- "Found dependency not resolvable %s"
  require_not_resolvable : (name require : String) → Error
  -- "Unexpected error on sort queue of size %d"
  sort_stuck : ℕ → Error
  -- "Package %s-%s not found"
  not_found : (key version : String) → Error
  -- "Package %s not found on map"
  not_found_on_map : String → Error
  -- "No valid or admitted version found for dependency %s"
  no_valid_dependency : String → Error
  -- "No valid candidate or valid dependencies found for %s"
  no_valid_candidate : String → Error
  -- an error of the searcher
  search_error : Error
  -- "Solver Install requires Database"
  no_database : Error
  -- "Orphans research interrupted for errors."
  orphans_interrupted : Error
  -- "Unexpected condition on retrieve package for %s"
  not_installed : String → Error
  -- "For package %s found artefact %s but without provides."
  without_provides : (installed artefact : String) → Error
  -- "No key found for: %s"
  no_key_found : String → Error
  -- an error of the JSON or base64 libraries
  codec_error : Error
  -- "No versions found for package", "No versions found for: %s"
  no_versions_found : Error
  -- "No package provides this"
  not_provided : Error
  -- "Unexpected error catched on packages analysis."
  analysis_failed : Error

pub data Result {ℓ} (A : Type ℓ) : Type ℓ where
  panic out_of_fuel : Result A
  err : (reason : Error) → Result A
  ok : (value : A) → Result A

-- The first result that is not a value ends the function.
infixl 5 ◌>>=◌ ◌>>◌
abbrev pub ◌>>=◌ {ℓ ℓ'} :
    {V : Type ℓ} {W : Type ℓ'} (run : Result V) (next : V → Result W) → Result W
panic >>= next = panic
out_of_fuel >>= next = out_of_fuel
err reason >>= next = err reason
ok value >>= next = next value

abbrev pub ◌>>◌ {ℓ} : {W : Type ℓ} (check : Result (Unit {0})) (next : Result W) → Result W
check >> next = check >>= (λ _. next)

-- Where the whole is a value, so is the first part, and the rest gives it.
pub bind-eq-ok {ℓ ℓ'} :
    {V : Type ℓ} {W : Type ℓ'} {w : W} (run : Result V) (next : V → Result W)
    → (run >>= next) ≡ ok w
    → (value : V) × (run ≡ ok value) × (next value ≡ ok w)
bind-eq-ok panic next e = cc
bind-eq-ok out_of_fuel next e = cc
bind-eq-ok (err reason) next e = cc
bind-eq-ok (ok value) next e = (value, refl, e)

pub ok_injective {ℓ} : {A : Type ℓ} {a b : A} → ok a ≡ ok b → a ≡ b
ok_injective e = cc

pub panic-ne-ok {ℓ} : {A : Type ℓ} {a : A} → panic ≢ ok a
panic-ne-ok e = cc

pub err-ne-ok {ℓ} : {A : Type ℓ} {reason : Error} {a : A} → err reason ≢ ok a
err-ne-ok e = cc

-- The result satisfies `P` if it is a value, and the fuel was enough.
abbrev pub Ends {ℓ} : {A : Type ℓ} → (A → Type 0) → Result A → Type 0
Ends P (ok a) = P a
Ends P (err e) = Unit
Ends P panic = Unit
Ends P out_of_fuel = ⊥

pub Ends-bind {ℓ κ} :
    {A : Type ℓ} {B : Type κ} (P : A → Type 0) (Q : B → Type 0) (m : Result A) (f : A → Result B)
    → Ends P m
    → ((a : A) → P a → Ends Q (f a))
    → Ends Q (m >>= f)
Ends-bind P Q (ok a) f h k = k a h
Ends-bind P Q (err e) f h k = tt
Ends-bind P Q panic f h k = tt
Ends-bind P Q out_of_fuel f h k = elim h [ ]

pub Ends-ok {ℓ} : {A : Type ℓ} (P : A → Type 0) (m : Result A) {a : A} → Ends P m → m ≡ ok a → P a
Ends-ok P m h e = subst (Ends P) e h

pub Ends-ne {ℓ} : {A : Type ℓ} (P : A → Type 0) (m : Result A) → Ends P m → m ≢ out_of_fuel
Ends-ne P m h e = subst (Ends P) e h

pub Ends-weaken {ℓ} :
    {A : Type ℓ} (P Q : A → Type 0) (m : Result A) → Ends P m → ((a : A) → P a → Q a) → Ends Q m
Ends-weaken P Q (ok a) h f = f a h
Ends-weaken P Q (err e) h f = tt
Ends-weaken P Q panic h f = tt
Ends-weaken P Q out_of_fuel h f = h

-- The result is a value or a returned error.
abbrev pub Answered {ℓ} : {A : Type ℓ} → Result A → Type 0
Answered (ok a) = Unit
Answered (err e) = Unit
Answered panic = ⊥
Answered out_of_fuel = ⊥

pub Answered-bind {ℓ κ} :
    {A : Type ℓ} {B : Type κ} (m : Result A) (f : A → Result B)
    → Answered m
    → ((a : A) → Answered (f a))
    → Answered (m >>= f)
Answered-bind (ok a) f h k = k a
Answered-bind (err e) f h k = tt
Answered-bind panic f h k = elim h [ ]
Answered-bind out_of_fuel f h k = elim h [ ]

pub Answered-if {ℓ} :
    {A : Type ℓ} (b : Bool) (m n : Result A)
    → Answered m
    → Answered n
    → Answered (if b then m else n)
Answered-if true m n h k = h
Answered-if false m n h k = k

pub Ends-Answered {ℓ} : {A : Type ℓ} (m : Result A) → Answered m → Ends (λ a. Unit) m
Ends-Answered (ok a) h = tt
Ends-Answered (err e) h = tt
Ends-Answered panic h = elim h [ ]
Ends-Answered out_of_fuel h = h
