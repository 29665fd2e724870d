-- ===== src/Staking.antt =====
-- Staking of NEAR by the owner: src/staking.rs and its methods in src/lib.rs.
use usn.Base.{ℕ, ◌+◌, Bool, [], leb, if◌then◌else◌, AccountId, Result, ok, ◌>>◌, require}
use usn.Base.{not_enough_balance}
use usn.Near
use usn.Near.{Env, Promise, and_then}
use usn.Ft.{no_deposit}
use usn.Contract.{Contract, Outcome, assert_owner}

abbrev pub gas_surplus : ℕ
gas_surplus = 7_000_000_000_000

abbrev pub gas_for_get_account : ℕ
gas_for_get_account = 7_000_000_000_000

abbrev pub gas_for_stake : ℕ
gas_for_stake = 35_000_000_000_000

abbrev pub gas_for_unstake : ℕ
gas_for_unstake = 35_000_000_000_000

abbrev pub gas_for_withdraw : ℕ
gas_for_withdraw = 35_000_000_000_000

-- What the pool answers about an account.
pub record HumanReadableAccount : Type 0 where
  pub account_id : AccountId
  pub unstaked_balance : ℕ
  pub staked_balance : ℕ
  pub can_withdraw : Bool

unfoldable pub stake : Env → ℕ → AccountId → Contract → Result (Outcome Promise)
stake env amount pool_id c = do
  assert_owner env c
  require (leb amount env.account_balance) not_enough_balance
  ok (c, [], Promise.call Near.deposit_and_stake pool_id amount gas_for_stake)

unfoldable pub unstake : Env → ℕ → AccountId → Contract → Result (Outcome Promise)
unstake env amount pool_id c = do
  assert_owner env c
  let ask =
      Promise.call (Near.get_account env.current_account_id) pool_id no_deposit gas_for_get_account
  let answer =
      Promise.call (Near.handle_unstake amount pool_id) env.current_account_id no_deposit
        (gas_surplus + gas_for_unstake)
  ok (c, [], and_then ask answer)

unfoldable pub unstake_all : Env → AccountId → Contract → Result (Outcome Promise)
unstake_all env pool_id c = do
  assert_owner env c
  ok (c, [], Promise.call Near.unstake_all pool_id no_deposit gas_for_unstake)

unfoldable pub withdraw_all : Env → AccountId → Contract → Result (Outcome Promise)
withdraw_all env pool_id c = do
  assert_owner env c
  ok (c, [], Promise.call Near.withdraw_all pool_id no_deposit gas_for_withdraw)

-- The callback unstakes what was asked for, or all that is staked where that is less.
unfoldable pub handle_unstake :
    ℕ → AccountId → HumanReadableAccount → Contract → Result (Outcome Promise)
handle_unstake amount pool_id account_info c =
    let unstake_amount =
      if leb amount account_info.staked_balance then amount else account_info.staked_balance in
    ok (c, [], Promise.call (Near.unstake unstake_amount) pool_id no_deposit gas_for_unstake)
