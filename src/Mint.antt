-- ===== src/Mint.antt =====
-- Minting USN for NEAR at the oracle price, by the owner: `mint_by_near`, its callback and
-- `handle_refund` of src/lib.rs.
pub mod Amount
pub mod Callback
use usn.Base.{
  ℕ, ◌*◌, ◌/◌, not, ◌&&◌, Option, none, some, [], ◌∷◌, ltb, leb, ◌==◌, if◌then◌else◌, Result, ok,
  ◌>>=◌, ◌>>◌, require, u128_bound, u256_bound, fit, sub_checked, pow10,
}
use usn.Base.{collateral_out_of_bounds, not_positive, exchanges_to_nothing, arithmetic}
use usn.Near
use usn.Near.{Env, Promise, and_then, as_return}
use usn.Event
use usn.Ft.{internal_deposit, no_deposit}
use usn.Asset.{usn_decimals}
use usn.Contract.{Contract, Outcome, ExchangeRate, assert_owner, abort_if_pause}
use usn.Oracle.{PriceData, exchange_rate, get_exchange_rate_promise}

abbrev pub gas_for_refund_promise : ℕ
gas_for_refund_promise = 5_000_000_000_000

abbrev pub gas_for_buy_promise : ℕ
gas_for_buy_promise = 10_000_000_000_000

abbrev pub min_collateral_ratio : ℕ
min_collateral_ratio = 100

abbrev pub max_collateral_ratio : ℕ
max_collateral_ratio = 1000

abbrev pub percent_multiplier : ℕ
percent_multiplier = 100

unfoldable pub mint_by_near : Env → ℕ → Contract → Result (Outcome Promise)
mint_by_near env collateral_ratio c = do
  assert_owner env c
  abort_if_pause c
  require (leb min_collateral_ratio collateral_ratio && leb collateral_ratio max_collateral_ratio)
      collateral_out_of_bounds
  let near = env.attached_deposit
  let mint =
      Promise.call (Near.mint_with_price_callback near collateral_ratio) env.current_account_id
        no_deposit gas_for_buy_promise
  let refund =
      Promise.call (Near.handle_refund near) env.current_account_id no_deposit
        gas_for_refund_promise
  ok (c, [], and_then (as_return (and_then (get_exchange_rate_promise env.network) mint)) refund)

-- NEAR to USN at the rate, then the collateral ratio in percent, in 256 bits.
unfoldable pub usn_for_near : ℕ → ExchangeRate → ℕ → Result ℕ
usn_for_near near rate collateral_ratio = do
  product ← fit u256_bound (near * rate.multiplier)
  extra_decimals ← sub_checked rate.decimals usn_decimals
  power ← pow10 extra_decimals
  scaled ← fit u256_bound (product / power * percent_multiplier)
  require (not (collateral_ratio == 0)) arithmetic
  fit u128_bound (scaled / collateral_ratio)

unfoldable pub finish_mint_by_near : ℕ → ExchangeRate → ℕ → Contract → Result (Outcome ℕ)
finish_mint_by_near near rate collateral_ratio c = do
  amount ← usn_for_near near rate collateral_ratio
  require (not (amount == 0)) exchanges_to_nothing
  token ← internal_deposit c.owner_id amount c.token
  ok (record c { token = token }, Event.ft_mint c.owner_id amount none ∷ [], amount)

unfoldable pub mint_with_price_callback : Env → ℕ → ℕ → PriceData → Contract → Result (Outcome ℕ)
mint_with_price_callback env near collateral_ratio price c = do
  rate ← exchange_rate env price
  require (ltb 0 near) not_positive
  finish_mint_by_near near rate collateral_ratio c

-- The attached NEAR goes to the owner where the mint failed.
unfoldable pub handle_refund : Env → ℕ → Contract → Result (Outcome (Option Promise))
handle_refund env attached_deposit c = ok (
  c,
  [],
  if env.is_promise_success
      then none
      else some (as_return (Promise.transfer c.owner_id attached_deposit)),
)
