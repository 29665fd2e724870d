-- ===== src/Base/Results.antt =====
-- A call of the contract returns a value or panics. A panic undoes every change of the call, so
-- no state stands beside it.
use mathlib.Core.Path.{◌≡◌, refl, subst}
use mathlib.Core.Bool.{Bool, true, false}
use mathlib.Core.Option.{Option, none, some}
use Prim.Native.Nat.{ℕ}
use usn.Base.Tests.{AccountId}

-- The messages of the panics; `arithmetic` is an overflow that the compiler checks.
pub data Panic : Type 0 where
  arithmetic unwrap_none aborted assertion_failed : Panic
  only_owner only_owner_or_guardian under_maintenance : Panic
  banned : AccountId → Panic
  guardian_exists guardian_missing : AccountId → Panic
  balance_overflow supply_overflow not_enough_balance : Panic
  same_sender_receiver not_positive more_gas_required requires_one_yocto : Panic
  no_black_funds failed_to_decrease_supply : Panic
  already_supported not_supported : AccountId → Panic
  decimals_out_of_bounds exchanges_to_nothing rate_too_high : Panic
  wrong_status failed_to_decrease_commission : AccountId → Panic
  collateral_out_of_bounds mint_disabled exceeded_commission : Panic
  no_exchange_rate outdated_price : Panic
  pool_not_allowed : ℕ → Panic
  deposit_required zero_amount not_enough_deposit percent_too_high : Panic

pub data Result {ℓ} (Value : Type ℓ) : Type ℓ where
  ok : Value → Result Value
  err : Panic → Result Value

-- `assert!`, `require!` and the early `panic_str`.
abbrev pub require : (condition : Bool) → Panic → Result (Unit {0})
require false message = err message
require true _ = ok tt

-- `Option::unwrap` and `expect`.
abbrev pub or_panic {ℓ} : {Value : Type ℓ} → Option Value → Panic → Result Value
or_panic (some value) _ = ok value
or_panic none message = err message

-- The rest of a method runs on the value; after a panic it does not run.
infixl 5 ◌>>=◌
abbrev pub ◌>>=◌ {ℓ μ} :
    {Value : Type ℓ} {Next : Type μ} → Result Value → (Value → Result Next) → Result Next
err message >>= _ = err message
ok value >>= rest = rest value

infixl 5 ◌>>◌
abbrev pub ◌>>◌ {μ} : {Next : Type μ} → Result (Unit {0}) → Result Next → Result Next
check >> rest = check >>= (λ _. rest)

-- What holds of the value, if there is one.
abbrev pub Ensures {ℓ κ} : {A : Type ℓ} → (A → Type κ) → Result A → Type κ
Ensures P (ok a) = P a
Ensures P (err e) = Unit

-- A value is returned, and it is as said.
abbrev pub Returns {ℓ} : {A : Type ℓ} → (A → Type 0) → Result A → Type 0
Returns P (ok a) = P a
Returns P (err e) = ⊥

-- A method that returned has returned at each of its steps.
pub steps-ok {ℓ μ} :
    {Value : Type ℓ} {Next : Type μ} (first : Result Value) (rest : Value → Result Next)
    {out : Next}
    → first >>= rest ≡ ok out
    → (value : Value) × (first ≡ ok value) × (rest value ≡ ok out)
steps-ok (err message) rest returned = cc
steps-ok (ok value) rest returned = (value, refl, returned)

pub ok-injective {ℓ} : {A : Type ℓ} {a b : A} → ok a ≡ ok b → a ≡ b
ok-injective h = cc

pub Returns-ok {ℓ} :
    {A : Type ℓ} (P : A → Type 0) (r : Result A) → Returns P r → (a : A) × (r ≡ ok a) × P a
Returns-ok P (ok a) h = (a, refl, h)
Returns-ok P (err e) h = absurd h

pub Returns-of_ok {ℓ} :
    {A : Type ℓ} (P : A → Type 0) (r : Result A) {a : A} → r ≡ ok a → P a → Returns P r
Returns-of_ok P r h p = rw h p

pub require-true : (b : Bool) (e : Panic) → require b e ≡ ok tt → b ≡ true
require-true true e h = refl
require-true false e h = cc

pub Ensures-bind {ℓ κ μ} :
    {A : Type ℓ} {B : Type κ} (P : B → Type μ) (m : Result A) (f : A → Result B)
    → ((a : A) → m ≡ ok a → Ensures P (f a))
    → Ensures P (m >>= f)
Ensures-bind P (ok a) f h = h a refl
Ensures-bind P (err e) f h = tt

pub Ensures-of_ok {ℓ κ} :
    {A : Type ℓ} (P : A → Type κ) (r : Result A) {a : A} → Ensures P r → r ≡ ok a → P a
Ensures-of_ok P (ok b) h e = subst P (ok-injective e) h
Ensures-of_ok P (err p) h e = cc

pub Ensures-map {ℓ κ μ} :
    {A : Type ℓ} (P : A → Type κ) (Q : A → Type μ) (r : Result A)
    → ((a : A) → P a → Q a)
    → Ensures P r
    → Ensures Q r
Ensures-map P Q (ok a) f h = f a h
Ensures-map P Q (err e) f h = tt

pub or_panic-ok {ℓ} :
    {A : Type ℓ} (o : Option A) (e : Panic) {a : A} → or_panic o e ≡ ok a → o ≡ some a
or_panic-ok none e h = cc
or_panic-ok (some a) e h = cc

pub Ensures-intro {ℓ κ} :
    {A : Type ℓ} (P : A → Type κ) (r : Result A) → ((a : A) → r ≡ ok a → P a) → Ensures P r
Ensures-intro P (ok a) h = h a refl
Ensures-intro P (err e) h = tt
