-- ===== src/UnitTests/Rates.antt =====
-- The unit tests of src/stable.rs on the commission and its rates.
use usn.Stable
use usn.Asset.{
  usdt_id, max_commission_rate, initial_commission_rate, commission_for, new_rate, assert_rate,
}
use usn.Base.{
  ◌+◌, ◌≡◌, refl, none, some, Result, ok, err, or_panic, require, ◌==◌, ◌>>=◌, ◌>>◌, unwrap_none,
  assertion_failed, not_supported, rate_too_high,
}
use usn.Event.{deposit_action, withdraw_action}
use usn.Near.{sandbox}
use usn.Stable.{
  deposit, withdraw, set_commission_rate, commission_rate, withdraw_commission, refund_commission,
  decrease_commission, assert_asset,
}
use usn.UnitTests.Asserts.{asset_at, same_option}

unfoldable test_withdraw_commission_different_actions : Result (Unit {0})
unfolding Stable.new assert_asset assert_rate commission_for new_rate set_commission_rate
    withdraw_commission
test_withdraw_commission_different_actions = do
  treasury ← Stable.new sandbox
  (treasury, _) ←
      set_commission_rate (usdt_id sandbox) (record { deposit = some 1000; withdraw = some 2000 })
        treasury
  (treasury, amount_without_fee) ←
      withdraw_commission (usdt_id sandbox) 100000 deposit_action treasury
  require (amount_without_fee == 99900) assertion_failed
  (_, asset) ← asset_at 0 treasury
  require (asset.commission == 100) assertion_failed
  (treasury, amount_without_fee) ←
      withdraw_commission (usdt_id sandbox) amount_without_fee withdraw_action treasury
  require (amount_without_fee == 99701) assertion_failed
  (_, asset) ← asset_at 0 treasury
  require (asset.commission == 299) assertion_failed
  ok tt

test_withdraw_commission_different_actions_run : test_withdraw_commission_different_actions ≡ ok tt
unfolding test_withdraw_commission_different_actions
test_withdraw_commission_different_actions_run = refl

unfoldable test_refund_commission : Result (Unit {0})
unfolding Stable.new commission_for decrease_commission refund_commission withdraw_commission
test_refund_commission = do
  treasury ← Stable.new sandbox
  (treasury, _) ←
      withdraw_commission (usdt_id sandbox) 100000000000000000000 withdraw_action treasury
  (_, asset) ← asset_at 0 treasury
  require (asset.commission == 10000000000000000) assertion_failed
  treasury ← refund_commission (usdt_id sandbox) 100000000000000000000 treasury
  (_, asset) ← asset_at 0 treasury
  require (asset.commission == 0) assertion_failed
  ok tt

test_refund_commission_run : test_refund_commission ≡ ok tt
unfolding test_refund_commission
test_refund_commission_run = refl

unfoldable test_set_commission_rate : Result (Unit {0})
unfolding Stable.new assert_asset assert_rate commission_rate new_rate set_commission_rate
test_set_commission_rate = do
  treasury ← Stable.new sandbox
  rate ← commission_rate (usdt_id sandbox) treasury
  require (same_option rate.deposit (some 100)) assertion_failed
  (treasury, _) ←
      set_commission_rate (usdt_id sandbox) (record { deposit = some 1000; withdraw = some 2000 })
        treasury
  rate ← commission_rate (usdt_id sandbox) treasury
  require (same_option rate.deposit (some 1000)) assertion_failed
  rate ← commission_rate (usdt_id sandbox) treasury
  require (same_option rate.withdraw (some 2000)) assertion_failed
  ok tt

test_set_commission_rate_run : test_set_commission_rate ≡ ok tt
unfolding test_set_commission_rate
test_set_commission_rate_run = refl

unfoldable test_set_zero_commission_rate : Result (Unit {0})
unfolding Stable.new assert_asset assert_rate commission_rate new_rate set_commission_rate
test_set_zero_commission_rate = do
  treasury ← Stable.new sandbox
  rate ← commission_rate (usdt_id sandbox) treasury
  require (same_option rate.deposit (some 100)) assertion_failed
  (treasury, _) ←
      set_commission_rate (usdt_id sandbox) (record { deposit = some 0; withdraw = some 0 })
        treasury
  rate ← commission_rate (usdt_id sandbox) treasury
  require (same_option rate.deposit (some 0)) assertion_failed
  rate ← commission_rate (usdt_id sandbox) treasury
  require (same_option rate.withdraw (some 0)) assertion_failed
  ok tt

test_set_zero_commission_rate_run : test_set_zero_commission_rate ≡ ok tt
unfolding test_set_zero_commission_rate
test_set_zero_commission_rate_run = refl

unfoldable test_set_none_commission_rate : Result (Unit {0})
unfolding Stable.new assert_asset assert_rate commission_rate new_rate set_commission_rate
test_set_none_commission_rate = do
  treasury ← Stable.new sandbox
  rate ← commission_rate (usdt_id sandbox) treasury
  require (same_option rate.deposit (some 100)) assertion_failed
  (treasury, _) ←
      set_commission_rate (usdt_id sandbox) (record { deposit = none; withdraw = none }) treasury
  rate ← commission_rate (usdt_id sandbox) treasury
  require (same_option rate.deposit (some initial_commission_rate)) assertion_failed
  rate ← commission_rate (usdt_id sandbox) treasury
  require (same_option rate.withdraw (some initial_commission_rate)) assertion_failed
  ok tt

test_set_none_commission_rate_run : test_set_none_commission_rate ≡ ok tt
unfolding test_set_none_commission_rate
test_set_none_commission_rate_run = refl

unfoldable test_set_exceeded_deposit_commission_rate : Result (Unit {0})
unfolding Stable.new assert_asset assert_rate commission_rate new_rate set_commission_rate
test_set_exceeded_deposit_commission_rate = do
  treasury ← Stable.new sandbox
  rate ← commission_rate (usdt_id sandbox) treasury
  require (same_option rate.deposit (some 100)) assertion_failed
  (treasury, _) ←
      set_commission_rate (usdt_id sandbox)
        (record { deposit = some (max_commission_rate + 1); withdraw = none }) treasury
  ok tt

test_set_exceeded_deposit_commission_rate_run :
    test_set_exceeded_deposit_commission_rate ≡ err rate_too_high
unfolding test_set_exceeded_deposit_commission_rate
test_set_exceeded_deposit_commission_rate_run = refl

unfoldable test_set_exceeded_withdraw_commission_rate : Result (Unit {0})
unfolding Stable.new assert_asset assert_rate commission_rate new_rate set_commission_rate
test_set_exceeded_withdraw_commission_rate = do
  treasury ← Stable.new sandbox
  rate ← commission_rate (usdt_id sandbox) treasury
  require (same_option rate.withdraw (some 100)) assertion_failed
  (treasury, _) ←
      set_commission_rate (usdt_id sandbox)
        (record { deposit = none; withdraw = some (max_commission_rate + 1) }) treasury
  ok tt

test_set_exceeded_withdraw_commission_rate_run :
    test_set_exceeded_withdraw_commission_rate ≡ err rate_too_high
unfolding test_set_exceeded_withdraw_commission_rate
test_set_exceeded_withdraw_commission_rate_run = refl

unfoldable test_view_commission_rate : Result (Unit {0})
unfolding Stable.new assert_asset assert_rate commission_rate new_rate set_commission_rate
test_view_commission_rate = do
  treasury ← Stable.new sandbox
  rate ← commission_rate (usdt_id sandbox) treasury
  require (same_option rate.deposit (some 100)) assertion_failed
  rate ← commission_rate (usdt_id sandbox) treasury
  require (same_option rate.withdraw (some 100)) assertion_failed
  (treasury, _) ←
      set_commission_rate (usdt_id sandbox) (record { deposit = some 1000; withdraw = some 5000 })
        treasury
  rate ← commission_rate (usdt_id sandbox) treasury
  value ← or_panic rate.deposit unwrap_none
  require (value == 1000) assertion_failed
  rate ← commission_rate (usdt_id sandbox) treasury
  value ← or_panic rate.withdraw unwrap_none
  require (value == 5000) assertion_failed
  ok tt

test_view_commission_rate_run : test_view_commission_rate ≡ ok tt
unfolding test_view_commission_rate
test_view_commission_rate_run = refl

unfoldable test_view_not_existed_asset_commission_rate : Result (Unit {0})
unfolding Stable.new assert_asset commission_rate
test_view_not_existed_asset_commission_rate = do
  treasury ← Stable.new sandbox
  rate ← commission_rate "bob" treasury
  ok tt

test_view_not_existed_asset_commission_rate_run :
    test_view_not_existed_asset_commission_rate ≡ err (not_supported "bob")
unfolding test_view_not_existed_asset_commission_rate
test_view_not_existed_asset_commission_rate_run = refl
