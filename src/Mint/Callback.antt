-- ===== src/Mint/Callback.antt =====
-- The callback of src/lib.rs that mints USN for NEAR at the oracle's price.
use usn.Base.{
  ℕ, ◌+◌, ◌-◌, ◌*◌, ◌^◌, ◌≤◌, ◌<◌, ◌≡◌, refl, none, [], ◌∷◌, arith, lt→ltb, ne→==, Ensures-of_ok,
  Returns, Returns-ok, ok, u128_bound, ◌/◌, fit_within, sub_checked_within, u256_bound,
}
use usn.Near.{Env}
use native.Mathlib.Nat.{div-le_self}
use usn.Event
use usn.Ft.Ledger.{Credited, internal_deposit-Credited}
use usn.Asset.{usn_decimals}
use usn.Contract.{Contract, Outcome, ExchangeRate}
use usn.Contract.Invariant.{IsValid}
use usn.Oracle.{PriceData, exchange_rate}
use usn.Mint.{usn_for_near, finish_mint_by_near, mint_with_price_callback}
use usn.Mint.Amount.{usn_for_near_collateral}

-- What some NEAR is worth in USN at a rate and a collateral ratio in percent, rounded down twice.
abbrev pub usn_worth : ℕ → ExchangeRate → ℕ → ℕ
usn_worth near rate ratio =
    near * rate.multiplier / 10 ^ (rate.decimals - usn_decimals) * 100 / ratio

-- The owner got the amount, which the NEAR covers at the rate, and one mint was logged.
pub record Minted (near ratio : ℕ) (rate : ExchangeRate) (c : Contract) (o : Outcome ℕ)
    : Type 0 where
  pub credited : Credited c.owner_id o.2 c.token o.0.token
  pub treasury : o.0.stable_treasury ≡ c.stable_treasury
  pub emitted : o.1 ≡ Event.ft_mint c.owner_id o.2 none ∷ []
  pub exact : o.2 ≡ usn_worth near rate ratio
  pub covered : o.2 * ratio * 10 ^ (rate.decimals - usn_decimals) ≤ near * rate.multiplier * 100

usn_for_near-worth :
    (near : ℕ) (rate : ExchangeRate) (ratio : ℕ)
    → 0 < ratio
    → usn_decimals ≤ rate.decimals
    → 10 ^ (rate.decimals - usn_decimals) < u128_bound
    → near * rate.multiplier * 100 < u256_bound
    → usn_worth near rate ratio < u128_bound
    → usn_for_near near rate ratio ≡ ok (usn_worth near rate ratio)
unfolding usn_for_near
usn_for_near-worth near rate ratio covered fine power wide low =
    let extra = rate.decimals - usn_decimals in
    let product = near * rate.multiplier in
    let shrinks : product / 10 ^ extra ≤ product = div-le_self product (10 ^ extra) in
    rw
      (
        fit_within u256_bound product (omega arith),
        sub_checked_within rate.decimals usn_decimals fine,
        fit_within u128_bound (10 ^ extra) power,
        fit_within u256_bound (product / 10 ^ extra * 100) (omega (arith, shrinks)),
        ne→== ratio 0 (omega arith),
        fit_within u128_bound (product / 10 ^ extra * 100 / ratio) low,
      )
      refl

-- In a valid state, where the price gives a rate of at least 18 decimals, the NEAR and the
-- collateral ratio are positive, the words have room for the NEAR at the rate times 100 and for the
-- power of ten, the NEAR is worth a positive amount of USN and the supply has room for it, the
-- callback returns: the owner is credited just the NEAR at the rate, scaled to 18 decimals, times
-- 100, over the ratio, rounded down at both divisions; one mint of that amount is logged, the
-- treasury stays, and the amount times the ratio in percent is worth no more than the NEAR at the
-- rate times 100.
pub mint_with_price_callback-Minted :
    (env : Env) (near ratio : ℕ) (price : PriceData) (c : Contract) (rate : ExchangeRate)
    → IsValid c
    → exchange_rate env price ≡ ok rate
    → 0 < near
    → 0 < ratio
    → usn_decimals ≤ rate.decimals
    → 10 ^ (rate.decimals - usn_decimals) < u128_bound
    → near * rate.multiplier * 100 < u256_bound
    → 0 < usn_worth near rate ratio
    → c.token.total_supply + usn_worth near rate ratio < u128_bound
    → Returns (Minted near ratio rate c) (mint_with_price_callback env near ratio price c)
unfolding mint_with_price_callback finish_mint_by_near
mint_with_price_callback-Minted env near ratio price c rate v quoted paid covered fine power wide
      some_usn room =
    let amount = usn_worth near rate ratio in
    let computed =
      usn_for_near-worth near rate ratio covered fine power wide (omega (arith, room)) in
    let (t, minted, credited) =
      Returns-ok (Credited c.owner_id amount c.token) _
        (internal_deposit-Credited c.owner_id amount c.token v.token room) in
    let bound =
      Ensures-of_ok _ (usn_for_near near rate ratio) (usn_for_near_collateral near rate ratio)
        computed in
    rw (quoted, lt→ltb 0 near paid, computed, ne→== amount 0 (omega arith), minted)
      (record {
        credited = credited;
        treasury = refl;
        emitted = refl;
        exact = refl;
        covered = bound.2;
      })
