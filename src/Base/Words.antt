-- ===== src/Base/Words.antt =====
-- Machine words. The release profile checks overflow (Cargo.toml, `overflow-checks = true`), so
-- an operation outside its range panics.
use Prim.Native.Nat.{ℕ, ◌+◌, ◌-◌, ◌*◌, ◌^◌, ◌<◌, ◌≤◌}
use mathlib.Core.Path.{◌≡◌}
use native.Mathlib.Omega.{arith}
use mathlib.Core.Option.{Option, none, some}
use usn.Base.Tests.{ltb, leb, if◌then◌else◌}
use usn.Base.Results.{Result, ok, err, arithmetic}

abbrev pub u64_bound : ℕ
u64_bound = 2 ^ 64

abbrev pub u128_bound : ℕ
u128_bound = 2 ^ 128

abbrev pub u256_bound : ℕ
u256_bound = 2 ^ 256

-- The value of an operation in a word with that bound.
abbrev pub fit : ℕ → ℕ → Result ℕ
fit bound n = if ltb n bound then ok n else err arithmetic

abbrev pub add_u128 : ℕ → ℕ → Result ℕ
add_u128 a b = fit u128_bound (a + b)

abbrev pub mul_u128 : ℕ → ℕ → Result ℕ
mul_u128 a b = fit u128_bound (a * b)

-- Unsigned subtraction, at every width.
abbrev pub sub_checked : ℕ → ℕ → Result ℕ
sub_checked a b = if leb b a then ok (a - b) else err arithmetic

-- `u128::checked_add` and `checked_sub`.
abbrev pub checked_add : ℕ → ℕ → Option ℕ
checked_add a b = if ltb (a + b) u128_bound then some (a + b) else none

abbrev pub checked_sub : ℕ → ℕ → Option ℕ
checked_sub a b = if leb b a then some (a - b) else none

-- `10u128.pow(n)`
abbrev pub pow10 : ℕ → Result ℕ
pow10 n = fit u128_bound (10 ^ n)

-- What a checked operation that returned has computed.
pub fit-ok : (w n : ℕ) {m : ℕ} → fit w n ≡ ok m → (m ≡ n) × (n < w)
fit-ok w n h = ground arith

pub fit_within : (w n : ℕ) → n < w → fit w n ≡ ok n
fit_within w n h = ground arith

pub sub_checked-ok : (a b : ℕ) {m : ℕ} → sub_checked a b ≡ ok m → (m + b ≡ a)
sub_checked-ok a b h = ground arith

pub sub_checked_within : (a b : ℕ) → b ≤ a → sub_checked a b ≡ ok (a - b)
sub_checked_within a b h = ground arith
