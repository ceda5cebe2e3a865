-- ===== src/Shared/Results.antt =====
-- Errors as values: the sentinels of the package, and results that carry one of them.

use mathlib.Core.Path.{◌≡◌, refl, ap}
use mathlib.Core.Bool.{Bool, true, false}
use mathlib.Core.List.{List, [], ◌∷◌}
use mathlib.Core.Option.{Option, none, some}
use mathlib.Core.Logic.{◌⊎◌, inl, inr}

-- `ErrIllegalCommand` and its siblings, those of the application package among them, without the text
-- that an error is wrapped in. `unnamed` stands for an error that wraps none of them, `panic`
-- stands for a run-time panic.
pub data Error : Type 0 where
  illegal_command unknown_card invalid_content incompatible_state panic : Error
  not_found version_conflict idempotency_conflict already_exists unnamed : Error

-- The value that a function returns beside a nil error, or the error.
pub data Result {ℓ} (Value : Type ℓ) : Type ℓ where
  err : Error → Result Value
  ok : Value → Result Value

-- A function that returns only an `error`.
abbrev pub Check : Type 0
Check = Result (Unit {0})

-- `if err != nil { return err }` after a call, with its value and without one.
infixl 5 ◌>>◌ ◌>>=◌
abbrev pub ◌>>◌ {ℓ} : {Y : Type ℓ} → Check → Result Y → Result Y
err error >> next = err error
ok _ >> next = next

abbrev pub ◌>>=◌ {ℓ κ} : {X : Type ℓ} {Y : Type κ} → Result X → (X → Result Y) → Result Y
err error >>= next = err error
ok value >>= next = next value

abbrev pub done : Check
done = ok tt

-- `if b { return err }`.
abbrev pub fail_when : Bool → Error → Check
fail_when true e = err e
fail_when false e = ok tt

-- `value, exists := ...; if !exists { return err }`.
abbrev pub or_fail {ℓ} : {A : Type ℓ} → Option A → Error → Result A
or_fail none e = err e
or_fail (some a) e = ok a

-- A loop that returns at the first error.
unfoldable pub each {ℓ} : {A : Type ℓ} → (A → Check) → List A → Check
each f [] = ok tt
each f (x ∷ xs) = f x >> each f xs

pub Result-cases {ℓ} :
    {A : Type ℓ} (r : Result A) → ((a : A) × (r ≡ ok a)) ⊎ ((e : Error) × (r ≡ err e))
Result-cases (ok a) = inl (a, refl)
Result-cases (err e) = inr (e, refl)

-- Inversion of a chain that succeeded.
pub >>=-eq-ok {ℓ κ} :
    {X : Type ℓ} {Y : Type κ} (first : Result X) (next : X → Result Y) {last : Y}
    → (first >>= next) ≡ ok last
    → (value : X) × (first ≡ ok value) × (next value ≡ ok last)
>>=-eq-ok (err error) next passed = cc
>>=-eq-ok (ok value) next passed = (value, refl, passed)

pub >>-eq-ok {ℓ} :
    {B : Type ℓ} (m : Check) (k : Result B) {b : B} → (m >> k) ≡ ok b → (m ≡ done) × (k ≡ ok b)
>>-eq-ok (ok tt) k h = (refl, h)
>>-eq-ok (err e) k h = cc

pub fail_when-eq-ok : (b : Bool) (e : Error) → fail_when b e ≡ done → b ≡ false
fail_when-eq-ok true e h = cc
fail_when-eq-ok false e h = refl

pub ok_injective {ℓ} : {A : Type ℓ} {a b : A} → ok a ≡ ok b → a ≡ b
ok_injective h = cc

pub some_injective {ℓ} : {A : Type ℓ} {a b : A} → some a ≡ some b → a ≡ b
some_injective h = cc

pub or_fail-eq-ok {ℓ} :
    {A : Type ℓ} (o : Option A) (e : Error) {a : A} → or_fail o e ≡ ok a → o ≡ some a
or_fail-eq-ok none e h = cc
or_fail-eq-ok (some x) e h = ap some (ok_injective h)
