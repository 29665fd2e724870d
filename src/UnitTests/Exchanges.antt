-- ===== src/UnitTests/Exchanges.antt =====
-- The unit tests of src/stable.rs on conversions, deposits and withdrawals.
use usn.Stable
use usn.Ft
use usn.Asset.{
  usdt_id, usn_decimals, max_commission_rate, new_asset, convert_decimals, commission_for, new_rate,
  assert_rate,
}
use usn.Base.{
  ℕ, ◌≡◌, refl, none, some, Result, ok, err, or_panic, require, ◌==◌, ◌>>=◌, ◌>>◌, unwrap_none,
  assertion_failed, wrong_status, not_supported,
}
use usn.Base.Maps.{get}
use usn.Ft.{internal_deposit, internal_withdraw, internal_save_balance}
use usn.Near.{sandbox}
use usn.Stable.{
  add_asset, disable_asset, deposit, withdraw, set_commission_rate, commission_rate,
  withdraw_commission, assert_asset, assert_status,
}
use usn.UnitTests.Asserts.{asset_at, is_none, same_option}

unfoldable test_convert_decimals_down : Result (Unit {0})
unfolding Stable.new convert_decimals
test_convert_decimals_down = do
  treasury ← Stable.new sandbox
  let amount : ℕ = 10000
  let asset_decimals : ℕ = 20
  usn_amount ← convert_decimals amount asset_decimals usn_decimals
  require (usn_amount == 100) assertion_failed
  stable_amount ← convert_decimals usn_amount usn_decimals asset_decimals
  require (stable_amount == amount) assertion_failed
  ok tt

test_convert_decimals_down_run : test_convert_decimals_down ≡ ok tt
unfolding test_convert_decimals_down
test_convert_decimals_down_run = refl

unfoldable test_convert_decimals_up : Result (Unit {0})
unfolding Stable.new convert_decimals
test_convert_decimals_up = do
  treasury ← Stable.new sandbox
  let amount : ℕ = 10000
  let asset_decimals : ℕ = 16
  usn_amount ← convert_decimals amount asset_decimals usn_decimals
  require (usn_amount == 1000000) assertion_failed
  stable_amount ← convert_decimals usn_amount usn_decimals asset_decimals
  require (stable_amount == amount) assertion_failed
  ok tt

test_convert_decimals_up_run : test_convert_decimals_up ≡ ok tt
unfolding test_convert_decimals_up
test_convert_decimals_up_run = refl

unfoldable test_convert_decimals_same : Result (Unit {0})
unfolding Stable.new convert_decimals
test_convert_decimals_same = do
  treasury ← Stable.new sandbox
  let amount : ℕ = 10000
  let asset_decimals : ℕ = 18
  usn_amount ← convert_decimals amount asset_decimals usn_decimals
  require (usn_amount == amount) assertion_failed
  stable_amount ← convert_decimals usn_amount usn_decimals asset_decimals
  require (stable_amount == amount) assertion_failed
  ok tt

test_convert_decimals_same_run : test_convert_decimals_same ≡ ok tt
unfolding test_convert_decimals_same
test_convert_decimals_same_run = refl

unfoldable test_deposit_not_supported_asset : Result (Unit {0})
unfolding Stable.new assert_asset assert_status commission_for convert_decimals deposit
    internal_deposit internal_save_balance withdraw_commission
test_deposit_not_supported_asset = do
  treasury ← Stable.new sandbox
  let token = Ft.new
  (treasury, token, _) ← deposit "bob" "charlie" 10000 treasury token
  ok tt

test_deposit_not_supported_asset_run :
    test_deposit_not_supported_asset ≡ err (not_supported "charlie")
unfolding test_deposit_not_supported_asset
test_deposit_not_supported_asset_run = refl

unfoldable test_deposit_not_active_asset : Result (Unit {0})
unfolding Stable.new assert_asset assert_status commission_for convert_decimals deposit
    disable_asset internal_deposit internal_save_balance withdraw_commission
test_deposit_not_active_asset = do
  treasury ← Stable.new sandbox
  let token = Ft.new
  treasury ← disable_asset (usdt_id sandbox) treasury
  (treasury, token, _) ← deposit "charlie" (usdt_id sandbox) 10000 treasury token
  ok tt

test_deposit_not_active_asset_run :
    test_deposit_not_active_asset ≡ err (wrong_status "usdt.test.near")
unfolding test_deposit_not_active_asset
test_deposit_not_active_asset_run = refl

unfoldable test_deposit : Result (Unit {0})
unfolding Stable.new add_asset assert_asset assert_status commission_for convert_decimals deposit
    internal_deposit internal_save_balance new_asset withdraw_commission
test_deposit = do
  treasury ← Stable.new sandbox
  let token = Ft.new
  treasury ← add_asset "charlie" 20 treasury
  (treasury, token, _) ← deposit "bob" "charlie" 1000000 treasury token
  (_, asset) ← asset_at 1 treasury
  require (asset.commission == 1) assertion_failed
  balance ← or_panic (get "bob" token.accounts) unwrap_none
  require (balance == 9999) assertion_failed
  ok tt

test_deposit_run : test_deposit ≡ ok tt
unfolding test_deposit
test_deposit_run = refl

unfoldable test_deposit_with_max_commission_rate : Result (Unit {0})
unfolding Stable.new assert_asset assert_rate assert_status commission_for commission_rate
    convert_decimals deposit internal_deposit internal_save_balance new_rate set_commission_rate
    withdraw_commission
test_deposit_with_max_commission_rate = do
  treasury ← Stable.new sandbox
  let token = Ft.new
  (treasury, _) ←
      set_commission_rate (usdt_id sandbox)
        (record { deposit = some max_commission_rate; withdraw = none }) treasury
  rate ← commission_rate (usdt_id sandbox) treasury
  require (same_option rate.deposit (some max_commission_rate)) assertion_failed
  (treasury, token, _) ← deposit "bob" (usdt_id sandbox) 10000 treasury token
  (_, asset) ← asset_at 0 treasury
  require (asset.commission == 500000000000000) assertion_failed
  balance ← or_panic (get "bob" token.accounts) unwrap_none
  require (balance == 9500000000000000) assertion_failed
  ok tt

test_deposit_with_max_commission_rate_run : test_deposit_with_max_commission_rate ≡ ok tt
unfolding test_deposit_with_max_commission_rate
test_deposit_with_max_commission_rate_run = refl

unfoldable test_withdraw : Result (Unit {0})
unfolding Stable.new add_asset assert_asset assert_status commission_for convert_decimals deposit
    internal_deposit internal_save_balance internal_withdraw new_asset withdraw withdraw_commission
test_withdraw = do
  treasury ← Stable.new sandbox
  let token = Ft.new
  treasury ← add_asset "charlie" 8 treasury
  (treasury, token, _) ← deposit "bob" "charlie" 100000 treasury token
  usn_amount ← or_panic (get "bob" token.accounts) unwrap_none
  require (usn_amount == 999900000000000) assertion_failed
  (_, asset) ← asset_at 1 treasury
  require (asset.commission == 100000000000) assertion_failed
  (treasury, token, _, withdrawn) ← withdraw "bob" "charlie" usn_amount treasury token
  (_, asset) ← asset_at 1 treasury
  require (asset.commission == 199990000000) assertion_failed
  require (is_none (get "bob" token.accounts)) assertion_failed
  require (withdrawn == 99980) assertion_failed
  ok tt

test_withdraw_run : test_withdraw ≡ ok tt
unfolding test_withdraw
test_withdraw_run = refl

unfoldable test_withdraw_with_max_commission_rate : Result (Unit {0})
unfolding Stable.new add_asset assert_asset assert_rate assert_status commission_for commission_rate
    convert_decimals deposit internal_deposit internal_save_balance internal_withdraw new_asset
    new_rate set_commission_rate withdraw withdraw_commission
test_withdraw_with_max_commission_rate = do
  treasury ← Stable.new sandbox
  let token = Ft.new
  treasury ← add_asset "charlie" 8 treasury
  (treasury, _) ←
      set_commission_rate "charlie" (record { deposit = none; withdraw = some max_commission_rate })
        treasury
  rate ← commission_rate "charlie" treasury
  require (same_option rate.withdraw (some max_commission_rate)) assertion_failed
  (treasury, token, _) ← deposit "bob" "charlie" 100000 treasury token
  usn_amount ← or_panic (get "bob" token.accounts) unwrap_none
  require (usn_amount == 999900000000000) assertion_failed
  (_, asset) ← asset_at 1 treasury
  require (asset.commission == 100000000000) assertion_failed
  (treasury, token, _, withdrawn) ← withdraw "bob" "charlie" usn_amount treasury token
  (_, asset) ← asset_at 1 treasury
  require (asset.commission == 50095000000000) assertion_failed
  require (is_none (get "bob" token.accounts)) assertion_failed
  require (withdrawn == 94990) assertion_failed
  ok tt

test_withdraw_with_max_commission_rate_run : test_withdraw_with_max_commission_rate ≡ ok tt
unfolding test_withdraw_with_max_commission_rate
test_withdraw_with_max_commission_rate_run = refl
