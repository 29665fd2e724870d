-- ===== src/Removal.antt =====
-- Removing liquidity from ref.finance: src/treasury/withdraw_stable_pool.rs.
pub mod Shares
pub mod Burn
use usn.Base.{
  ℕ, ◌+◌, ◌*◌, ◌/◌, false, Option, none, some, List, [], ◌∷◌, leb, ◌==◌, if◌then◌else◌,
  same_account, Result, ok, err, ◌>>=◌, ◌>>◌, require, u128_bound, u256_bound, fit,
}
use usn.Base.{deposit_required, percent_too_high, assertion_failed, unwrap_none}
use usn.Near
use usn.Near.{Env, Promise, and_then}
use usn.Event
use usn.Ft.{internal_withdraw, no_deposit}
use usn.Contract.{Contract, Outcome, assert_owner}
use usn.Pool.{
  stable_pool, gas_for_get_shares, gas_for_remove_liquidity, gas_for_withdraw,
  gas_for_finish_burning, gas_surplus,
}

unfoldable pub withdraw_stable_pool : Env → Option ℕ → Contract → Result (Outcome Promise)
withdraw_stable_pool env percent c = do
  assert_owner env c
  pool ← stable_pool env.network
  require (env.attached_deposit == 3) deposit_required
  let ask =
      Promise.call (Near.get_pool_shares pool.id env.current_account_id) pool.ref_id no_deposit
        gas_for_get_shares
  let start =
      Promise.call (Near.handle_start_removing percent) env.current_account_id env.attached_deposit
        (gas_surplus * 6 + gas_for_remove_liquidity + gas_for_withdraw * 2 + gas_for_finish_burning)
  ok (c, [], and_then ask start)

abbrev pub percent_or_default : Option ℕ → ℕ
percent_or_default none = 5
percent_or_default (some percent) = percent

-- `shares * percent / 100` in 256 bits, back to 128.
unfoldable pub shares_to_remove : ℕ → ℕ → Result ℕ
shares_to_remove shares percent = do
  product ← fit u256_bound (shares * percent)
  fit u128_bound (product / 100)

unfoldable pub handle_start_removing : Env → Option ℕ → ℕ → Contract → Result (Outcome Promise)
handle_start_removing env percent shares c = do
  pool ← stable_pool env.network
  require (env.attached_deposit == 3) deposit_required
  require (leb (percent_or_default percent) 100) percent_too_high
  shares_amount ← shares_to_remove shares (percent_or_default percent)
  let remove =
      Promise.call (Near.remove_liquidity pool.id shares_amount (0 ∷ 0 ∷ [])) pool.ref_id 1
        gas_for_remove_liquidity
  let deposit =
      Promise.call Near.handle_remove_deposit env.current_account_id (1 * 2)
        (gas_surplus * 3 + gas_for_withdraw * 2 + gas_for_finish_burning)
  ok (c, [], and_then remove deposit)

-- The two items of a list of just two; any other list panics.
abbrev pub two {ℓ} : {A : Type ℓ} → List A → Result (A × A)
two (a ∷ b ∷ []) = ok (a, b)
two _ = err assertion_failed

-- The first two items, as `tokens[0]` and `tokens[1]` read them.
abbrev pub first_two {ℓ} : {A : Type ℓ} → List A → Result (A × A)
first_two (a ∷ b ∷ rest) = ok (a, b)
first_two _ = err unwrap_none

unfoldable pub handle_remove_deposit : Env → List ℕ → Contract → Result (Outcome Promise)
handle_remove_deposit env amounts c = do
  pool ← stable_pool env.network
  (usn_amount, token_amount) ← two amounts
  (usn_id, token_id) ← first_two pool.tokens
  require (same_account usn_id env.current_account_id) assertion_failed
  let withdraw_token =
      Promise.call (Near.withdraw token_id token_amount (some false)) pool.ref_id 1 gas_for_withdraw
  let withdraw_usn =
      Promise.call (Near.withdraw usn_id usn_amount (some false)) pool.ref_id 1 gas_for_withdraw
  let burn =
      Promise.call (Near.finish_removing_with_burn usn_amount) env.current_account_id no_deposit
        gas_for_finish_burning
  ok (c, [], and_then (and_then withdraw_token withdraw_usn) burn)

unfoldable pub finish_removing_with_burn : Env → ℕ → Contract → Result (Outcome (Unit {0}))
finish_removing_with_burn env amount c =
    let burn = do
      token ← internal_withdraw env.current_account_id amount c.token
      ok (record c { token = token }, Event.ft_burn env.current_account_id amount none ∷ [], tt)
    in if env.is_promise_success then burn else ok (c, [], tt)
