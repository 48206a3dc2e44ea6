-- ===== src/Prelude/Results.antt =====
-- `Result`, and what a call of code that may also panic comes back with.
use mathlib.Core.Path.{◌≡◌, refl}
use mathlib.Core.Logic.{◌⊎◌, inl, inr}
use mathlib.Core.Bool.{Bool, true, false}
use mathlib.Core.Option.{Option, none, some}

pub data Result {ℓ κ} (A : Type ℓ) (E : Type κ) : Type (ℓ ⊔ κ) where
  ok : A → Result A E
  err : E → Result A E

infixl 5 ◌>>=◌
abbrev pub ◌>>=◌ {ℓ κ ι} :
    {A : Type ℓ} {B : Type κ} {E : Type ι} → Result A E → (A → Result B E) → Result B E
ok a >>= f = f a
err e >>= f = err e

abbrev pub map_err {ℓ κ ι} :
    {A : Type ℓ} {E : Type κ} {F : Type ι} → (E → F) → Result A E → Result A F
map_err f (ok a) = ok a
map_err f (err e) = err (f e)

abbrev pub is_ok {ℓ κ} : {A : Type ℓ} {E : Type κ} → Result A E → Bool
is_ok (ok a) = true
is_ok (err e) = false

-- `std::panic::catch_unwind`: a value, or the fact that the code panicked.
pub data Caught {ℓ} (A : Type ℓ) : Type ℓ where
  returned : A → Caught A
  panicked : Caught A

abbrev pub map_caught {ℓ κ} : {A : Type ℓ} {B : Type κ} → (A → B) → Caught A → Caught B
map_caught f (returned a) = returned (f a)
map_caught f panicked = panicked

abbrev pub and_then {ℓ κ} : {A : Type ℓ} {B : Type κ} → Option A → (A → Option B) → Option B
and_then (some a) f = f a
and_then none f = none

pub Result-cases {ℓ κ} :
    {A : Type ℓ} {E : Type κ} (r : Result A E) → ((a : A) × (r ≡ ok a)) ⊎ ((e : E) × (r ≡ err e))
Result-cases (ok a) = inl (a, refl)
Result-cases (err e) = inr (e, refl)

-- What a chain that succeeds went through.
pub ok_of_bind {ι ℓ κ} :
    {E : Type ι} {X : Type ℓ} {Y : Type κ} (first : Result X E) (then_ : X → Result Y E) {y : Y}
    → (first >>= then_) ≡ ok y
    → (x : X) × (first ≡ ok x) × (then_ x ≡ ok y)
ok_of_bind (err e) then_ h = cc
ok_of_bind (ok x) then_ h = (x, refl, h)

-- A fallible call of code that may also panic.
pub data Attempt {ℓ κ} (A : Type ℓ) (E : Type κ) : Type (ℓ ⊔ κ) where
  done : A → Attempt A E
  failed : E → Attempt A E
  crashed : Attempt A E

-- Where a panic is caught and an error logged, only the value is left.
abbrev pub catch_and_log {ℓ κ} : {A : Type ℓ} {E : Type κ} → Attempt A E → Option A
catch_and_log (done a) = some a
catch_and_log (failed e) = none
catch_and_log crashed = none

abbrev pub catch_panic_and_log {ℓ} : {A : Type ℓ} → Caught A → Option A
catch_panic_and_log (returned a) = some a
catch_panic_and_log panicked = none

abbrev pub bind_attempt {ℓ κ ι} :
    {A : Type ℓ} {B : Type κ} {E : Type ι} → Attempt A E → (A → Attempt B E) → Attempt B E
bind_attempt (done a) f = f a
bind_attempt (failed e) f = failed e
bind_attempt crashed f = crashed

abbrev pub or_crash {ℓ κ} : {A : Type ℓ} {E : Type κ} → Caught A → Attempt A E
or_crash (returned a) = done a
or_crash panicked = crashed

abbrev pub map_failed {ℓ κ ι} :
    {A : Type ℓ} {E : Type κ} {F : Type ι} → (E → F) → Attempt A E → Attempt A F
map_failed f (done a) = done a
map_failed f (failed e) = failed (f e)
map_failed f crashed = crashed

pub catch_and_log-bind_attempt {ℓ κ ι} :
    {A : Type ℓ} {B : Type κ} {E : Type ι} (m : Attempt A E) (f : A → Attempt B E)
    → catch_and_log (bind_attempt m f) ≡ and_then (catch_and_log m) (λ a. catch_and_log (f a))
catch_and_log-bind_attempt (done a) f = refl
catch_and_log-bind_attempt (failed e) f = refl
catch_and_log-bind_attempt crashed f = refl

-- Inversion of a chain that succeeds.
pub bind_attempt-eq-done {ℓ κ ι} :
    {A : Type ℓ} {B : Type κ} {E : Type ι} (m : Attempt A E) (f : A → Attempt B E) {b : B}
    → bind_attempt m f ≡ done b
    → (a : A) × (m ≡ done a) × (f a ≡ done b)
bind_attempt-eq-done (done a) f h = (a, refl, h)
bind_attempt-eq-done (failed e) f h = cc
bind_attempt-eq-done crashed f h = cc

pub Attempt-cases {ℓ κ} :
    {A : Type ℓ} {E : Type κ} (m : Attempt A E)
    → ((a : A) × (m ≡ done a)) ⊎ (catch_and_log m ≡ none)
Attempt-cases (done a) = inl (a, refl)
Attempt-cases (failed e) = inr refl
Attempt-cases crashed = inr refl

pub Caught-cases {ℓ} : {A : Type ℓ} (m : Caught A) → ((a : A) × (m ≡ returned a)) ⊎ (m ≡ panicked)
Caught-cases (returned a) = inl (a, refl)
Caught-cases panicked = inr refl

pub done-injective {ℓ κ} :
    {A : Type ℓ} {E : Type κ} {a b : A} → ◌≡◌ {A = Attempt A E} (done a) (done b) → a ≡ b
done-injective h = cc

pub done_of_catch {ℓ κ} :
    {A : Type ℓ} {E : Type κ} (m : Attempt A E) {a : A} → catch_and_log m ≡ some a → m ≡ done a
done_of_catch (done a) h = cc
done_of_catch (failed e) h = cc
done_of_catch crashed h = cc

pub returned_of_catch {ℓ} :
    {A : Type ℓ} (m : Caught A) {a : A} → catch_panic_and_log m ≡ some a → m ≡ returned a
returned_of_catch (returned a) h = cc
returned_of_catch panicked h = cc

pub done_of_map_failed {ℓ κ ι} :
    {A : Type ℓ} {E : Type κ} {F : Type ι} (f : E → F) (m : Attempt A E) {a : A}
    → map_failed f m ≡ done a
    → m ≡ done a
done_of_map_failed f (done a) h = cc
done_of_map_failed f (failed e) h = cc
done_of_map_failed f crashed h = cc
