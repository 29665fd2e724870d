-- ===== src/UnitTests/Minting.antt =====
-- The unit tests of src/lib.rs on minting.
use usn.Mint
use usn.Treasury
use usn.Stable
use usn.Asset.{usdt_id, convert_decimals, commission_for}
use usn.Base.{
  ◌+◌, ◌-◌, ◌*◌, ◌≡◌, refl, Result, ok, err, require, ◌==◌, ◌>>=◌, ◌>>◌, assertion_failed,
  collateral_out_of_bounds, ◌<◌, u64_bound, fit_within,
}
use usn.Contract.{assert_owner, abort_if_pause, new}
use usn.Ft.{internal_deposit, internal_withdraw, internal_save_balance}
use usn.Mint.{min_collateral_ratio, max_collateral_ratio}
use usn.Near.{sandbox, Env}
use usn.UnitTests.Context.{
  get_context, new_contract, deposit_asset, withdraw_asset, refund_asset, one_near, test_fresh_rate,
}

unfoldable test_buy_low_collateral_rate : Env → Result (Unit {0})
unfolding Mint.mint_by_near Stable.new abort_if_pause assert_owner new
test_buy_low_collateral_rate builder = do
  let context = get_context builder "bob"
  contract ← new_contract context "bob"
  let context = record context { attached_deposit = one_near }
  (contract, _, _) ← Mint.mint_by_near context (min_collateral_ratio - 1) contract
  ok tt

test_buy_low_collateral_rate_run :
    (builder : Env) → test_buy_low_collateral_rate builder ≡ err collateral_out_of_bounds
unfolding test_buy_low_collateral_rate
test_buy_low_collateral_rate_run builder = refl

unfoldable test_buy_exceeded_collateral_rate : Env → Result (Unit {0})
unfolding Mint.mint_by_near Stable.new abort_if_pause assert_owner new
test_buy_exceeded_collateral_rate builder = do
  let context = get_context builder "bob"
  contract ← new_contract context "bob"
  let context = record context { attached_deposit = one_near }
  (contract, _, _) ← Mint.mint_by_near context (max_collateral_ratio + 1) contract
  ok tt

test_buy_exceeded_collateral_rate_run :
    (builder : Env) → test_buy_exceeded_collateral_rate builder ≡ err collateral_out_of_bounds
unfolding test_buy_exceeded_collateral_rate
test_buy_exceeded_collateral_rate_run builder = refl

unfoldable test_owner_buy : Env → Result (Unit {0})
unfolding Mint.finish_mint_by_near Mint.usn_for_near Stable.new internal_deposit
    internal_save_balance new
test_owner_buy builder = do
  let context = get_context builder "bob"
  contract ← new_contract context "bob"
  fresh_rate ← test_fresh_rate context
  (contract, _, amount) ←
      Mint.finish_mint_by_near (1000000000000 * one_near) fresh_rate 100 contract
  require (amount == 11143900000000000000000000000000) assertion_failed
  ok tt

-- The builder's clock leaves room for the rate's duration.
test_owner_buy_run :
    (builder : Env)
    → builder.block_timestamp + 1_000_000_000 < u64_bound
    → test_owner_buy builder ≡ ok tt
unfolding test_owner_buy
test_owner_buy_run builder early =
    rw (fit_within u64_bound (builder.block_timestamp + 1_000_000_000) early) refl

unfoldable test_view_commission : Env → Result (Unit {0})
unfolding Stable.new Treasury.commission new
test_view_commission builder = do
  let context = get_context builder "bob"
  contract ← new_contract context "bob"
  output ← Treasury.commission contract
  require (output.v1.usn == 0) assertion_failed
  output ← Treasury.commission contract
  require (output.v1.near == 0) assertion_failed
  output ← Treasury.commission contract
  require (output.v2_usn == 0) assertion_failed
  ok tt

test_view_commission_run : (builder : Env) → test_view_commission builder ≡ ok tt
unfolding test_view_commission
test_view_commission_run builder = refl

unfoldable test_commission : Env → Result (Unit {0})
unfolding Stable.assert_asset Stable.assert_status Stable.decrease_commission Stable.deposit
    Stable.new Stable.refund Stable.refund_commission Stable.withdraw Stable.withdraw_commission
    Treasury.commission commission_for convert_decimals internal_deposit internal_save_balance
    internal_withdraw new
test_commission builder = do
  let context = get_context builder "bob"
  contract ← new_contract context "bob"
  contract ← deposit_asset "charlie" (usdt_id sandbox) 100000 contract
  output ← Treasury.commission contract
  require (output.v2_usn == 10000000000000) assertion_failed
  contract ← withdraw_asset "charlie" (usdt_id sandbox) 99990000000000000 contract
  output ← Treasury.commission contract
  require (output.v2_usn == 19999000000000) assertion_failed
  contract ← refund_asset "charlie" (usdt_id sandbox) 99990000000000000 contract
  output ← Treasury.commission contract
  require (output.v2_usn == 10000000000000) assertion_failed
  ok tt

test_commission_run : (builder : Env) → test_commission builder ≡ ok tt
unfolding test_commission
test_commission_run builder = refl
