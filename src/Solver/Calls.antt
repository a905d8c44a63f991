-- ===== src/Solver/Calls.antt =====
-- The calls in the monad of pkg/v2/solver/solver.go, followed back from a value that they return.
use luet.Prelude.{ℕ, ◌+◌, ◌≡◌, refl, ap, String, Bool, true, false, if◌then◌else◌, ==_refl, ◌==◌}
use luet.Result.{Result, Error, ok, err, panic, out_of_fuel, ok_injective, err-ne-ok, panic-ne-ok}
use luet.Solver.{Solver, Solving, continue, ◌>>=◌, get, give, next_tick, modify, lift}

-- Inversion of a call that returns a value.
continue-eq-ok :
    {A B : Type 0} (f : A → Solving B) (x : Solver × Result A) {t : Solver} {b : B}
    → continue f x ≡ (t, ok b)
    → (s : Solver) × (a : A) × (x ≡ (s, ok a)) × (f a s ≡ (t, ok b))
continue-eq-ok f (s, ok a) e = (s, a, refl, e)
continue-eq-ok f (s, err e') e = cc
continue-eq-ok f (s, panic) e = cc
continue-eq-ok f (s, out_of_fuel) e = cc

pub here : (k : String) (b : Bool) → (if k == k then true else b) ≡ true
here k b = rw (==_refl k) refl

pub bind-returns :
    {A B : Type 0} (m : Solving A) (f : A → Solving B) (s : Solver) {t : Solver} {b : B}
    → (m >>= f) s ≡ (t, ok b)
    → (s' : Solver) × (a : A) × (m s ≡ (s', ok a)) × (f a s' ≡ (t, ok b))
unfolding ◌>>=◌
bind-returns m f s e = continue-eq-ok f (m s) e

pub get-bind : {B : Type 0} (f : Solver → Solving B) (s : Solver) → (get >>= f) s ≡ f s s
unfolding ◌>>=◌
get-bind f s = refl

pub modified :
    (b : Bool) (f : Solver → Solver) (e : Error) (s t : Solver)
    → (if b then modify f else lift (err e)) s ≡ (t, ok tt)
    → f s ≡ t
modified true f e s t h = ap (λ x. x.0) h
modified false f e s t h = cc

-- A call that ends with a given value.
pub give-returns :
    {A : Type 0} (a : A) (s : Solver) {t : Solver} {b : A}
    → give a s ≡ (t, ok b)
    → (s ≡ t) × (a ≡ b)
give-returns a s e = (ap (λ x. x.0) e, ok_injective (ap (λ x. x.1) e))

pub lift-returns :
    {A : Type 0} (r : Result A) (s : Solver) {t : Solver} {b : A}
    → lift r s ≡ (t, ok b)
    → (s ≡ t) × (r ≡ ok b)
lift-returns r s e = (ap (λ x. x.0) e, ap (λ x. x.1) e)

pub modify-bind :
    {B : Type 0} (f : Solver → Solver) (k : Unit {0} → Solving B) (s : Solver)
    → (modify f >>= k) s ≡ k tt (f s)
unfolding ◌>>=◌
modify-bind f k s = refl

pub ok-bind :
    {A B : Type 0} (a : A) (k : A → Solving B) (s : Solver) → (lift (ok a) >>= k) s ≡ k a s
unfolding ◌>>=◌
ok-bind a k s = refl

pub tick-bind :
    {B : Type 0} (k : ℕ → Solving B) (s : Solver)
    → (next_tick >>= k) s ≡ k s.ticks (record s { ticks = s.ticks + 1 })
unfolding ◌>>=◌
tick-bind k s = refl

continue_ok :
    {A B : Type 0} (f : A → Solving B) (x : Solver × Result A) {a : A}
    → x.1 ≡ ok a
    → continue f x ≡ f a x.0
continue_ok f (t, ok b) e = ap (λ c. f c t) (ok_injective e)
continue_ok f (t, err e') e = absurd (err-ne-ok e)
continue_ok f (t, panic) e = absurd (panic-ne-ok e)
continue_ok f (t, out_of_fuel) e = cc

-- After a call that returns a value, the rest of the method runs on it.
pub bind-eq-rest :
    {A B : Type 0} (m : Solving A) (f : A → Solving B) (s : Solver) {a : A}
    → (m s).1 ≡ ok a
    → (m >>= f) s ≡ f a (m s).0
unfolding ◌>>=◌
bind-eq-rest m f s e = continue_ok f (m s) e
