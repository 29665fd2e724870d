-- ===== src/Mint/Amount.antt =====
-- The amount of USN that `finish_mint_by_near` of src/lib.rs mints.
use usn.Base.{
  ℕ, ◌-◌, ◌*◌, ◌/◌, ◌^◌, ◌≤◌, ◌<◌, ◌≡◌, not, ◌==◌, arith, Ensures, Ensures-bind, Ensures-intro, fit,
  fit-ok, u128_bound, u256_bound, sub_checked, sub_checked-ok, pow10, require,
}
use native.Mathlib.Nat.{div-mul-le_self, le_trans, mul-le-mul_right}
use usn.Base.{arithmetic}
use usn.Contract.{ExchangeRate}
use usn.Asset.{usn_decimals}
use usn.Mint.{usn_for_near, percent_multiplier}

-- Two divisions that round down never exceed the product.
two_divisions : (a p r : ℕ) → a / p * 100 / r * r * p ≤ a * 100
two_divisions a p r =
    let outer : a / p * 100 / r * r ≤ a / p * 100 = div-mul-le_self (a / p * 100) r in
    let inner : a / p * p ≤ a = div-mul-le_self a p in
    let scaled : a / p * 100 / r * r * p ≤ a / p * 100 * p = mul-le-mul_right p outer in
    let swapped : a / p * 100 * p ≤ a * 100 = omega arith in le_trans scaled swapped

-- An amount of USN computed for some NEAR at a rate and a collateral ratio in percent fits 128
-- bits, and the amount times the ratio is worth no more than the NEAR at the rate times 100.
pub usn_for_near_collateral :
    (near : ℕ) (rate : ExchangeRate) (ratio : ℕ)
    → Ensures
        (λ usn.
          (usn < u128_bound)
          × (usn_decimals ≤ rate.decimals)
          × (usn * ratio * 10 ^ (rate.decimals - usn_decimals) ≤ near * rate.multiplier * 100))
        (usn_for_near near rate ratio)
unfolding usn_for_near
usn_for_near_collateral near rate ratio =
    let P = λ (usn : ℕ).
      (usn < u128_bound)
      × (usn_decimals ≤ rate.decimals)
      × (usn * ratio * 10 ^ (rate.decimals - usn_decimals) ≤ near * rate.multiplier * 100) in
    Ensures-bind P (fit u256_bound (near * rate.multiplier)) _ λ product product_is.
      Ensures-bind P (sub_checked rate.decimals usn_decimals) _ λ extra extra_is.
        Ensures-bind P (pow10 extra) _ λ power power_is.
          Ensures-bind P (fit u256_bound (product / power * percent_multiplier)) _
            λ scaled scaled_is. Ensures-bind P (require (not (ratio == 0)) arithmetic) _ λ _ _.
              Ensures-intro P (fit u128_bound (scaled / ratio)) λ usn usn_is.
                let (product_eq, _) = fit-ok u256_bound (near * rate.multiplier) product_is in
                let (power_eq, _) = fit-ok u128_bound (10 ^ extra) power_is in
                let (scaled_eq, _) = fit-ok u256_bound (product / power * 100) scaled_is in
                let (usn_eq, low) = fit-ok u128_bound (scaled / ratio) usn_is in
                let extra_eq = sub_checked-ok rate.decimals usn_decimals extra_is in
                let digits : rate.decimals - usn_decimals ≡ extra = omega arith in
                (
                  rw usn_eq low,
                  omega arith,
                  rw (digits, ← power_eq, usn_eq, scaled_eq, ← product_eq)
                      (two_divisions product power ratio),
                )
