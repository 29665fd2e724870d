-- ===== src/UnitTests/Refunds.antt =====
-- The unit tests of src/stable.rs on exchanges between assets, refunds and failing withdrawals.
use usn.Stable
use usn.Ft
use usn.Asset.{usdt_id, new_asset, convert_decimals, commission_for, new_rate, assert_rate}
use usn.Base.{
  ◌≡◌, refl, none, some, Result, ok, err, or_panic, require, ◌==◌, ◌>>=◌, ◌>>◌, unwrap_none,
  assertion_failed, exchanges_to_nothing, not_enough_balance,
}
use usn.Base.Maps.{get}
use usn.Ft.{internal_deposit, internal_withdraw, internal_save_balance}
use usn.Near.{sandbox}
use usn.Stable.{
  add_asset, deposit, withdraw, refund, set_commission_rate, withdraw_commission, refund_commission,
  decrease_commission, assert_asset, assert_status,
}
use usn.UnitTests.Asserts.{asset_at, is_none}

unfoldable test_deposit_withdraw_different_assets : Result (Unit {0})
unfolding Stable.new add_asset assert_asset assert_rate assert_status commission_for
    convert_decimals deposit internal_deposit internal_save_balance internal_withdraw new_asset
    new_rate set_commission_rate withdraw withdraw_commission
test_deposit_withdraw_different_assets = do
  treasury ← Stable.new sandbox
  let token = Ft.new
  (treasury, token, _) ← deposit "bob" (usdt_id sandbox) 100000 treasury token
  usn_amount ← or_panic (get "bob" token.accounts) unwrap_none
  require (usn_amount == 99990000000000000) assertion_failed
  (_, asset) ← asset_at 0 treasury
  require (asset.commission == 10000000000000) assertion_failed
  treasury ← add_asset "charlie" 8 treasury
  (treasury, _) ←
      set_commission_rate "charlie" (record { deposit = none; withdraw = some 5000 }) treasury
  (treasury, token, _, withdrawn) ← withdraw "bob" "charlie" usn_amount treasury token
  (_, asset) ← asset_at 1 treasury
  require (asset.commission == 499950000000000) assertion_failed
  require (is_none (get "bob" token.accounts)) assertion_failed
  require (withdrawn == 9949005) assertion_failed
  ok tt

test_deposit_withdraw_different_assets_run : test_deposit_withdraw_different_assets ≡ ok tt
unfolding test_deposit_withdraw_different_assets
test_deposit_withdraw_different_assets_run = refl

unfoldable test_refund : Result (Unit {0})
unfolding Stable.new assert_asset assert_status commission_for convert_decimals decrease_commission
    deposit internal_deposit internal_save_balance internal_withdraw refund refund_commission
    withdraw withdraw_commission
test_refund = do
  treasury ← Stable.new sandbox
  let token = Ft.new
  (treasury, token, _) ← deposit "bob" (usdt_id sandbox) 1000 treasury token
  usn_amount ← or_panic (get "bob" token.accounts) unwrap_none
  require (usn_amount == 999900000000000) assertion_failed
  (_, asset) ← asset_at 0 treasury
  require (asset.commission == 100000000000) assertion_failed
  (treasury, token, _, withdrawn) ← withdraw "bob" (usdt_id sandbox) usn_amount treasury token
  (_, asset) ← asset_at 0 treasury
  require (asset.commission == 199990000000) assertion_failed
  require (is_none (get "bob" token.accounts)) assertion_failed
  require (withdrawn == 999) assertion_failed
  (treasury, token, _) ← refund "bob" (usdt_id sandbox) usn_amount treasury token
  usn_amount ← or_panic (get "bob" token.accounts) unwrap_none
  require (usn_amount == 999900000000000) assertion_failed
  (_, asset) ← asset_at 0 treasury
  require (asset.commission == 100000000000) assertion_failed
  ok tt

test_refund_run : test_refund ≡ ok tt
unfolding test_refund
test_refund_run = refl

unfoldable test_refund_different_assets : Result (Unit {0})
unfolding Stable.new add_asset assert_asset assert_rate assert_status commission_for
    convert_decimals decrease_commission deposit internal_deposit internal_save_balance
    internal_withdraw new_asset new_rate refund refund_commission set_commission_rate withdraw
    withdraw_commission
test_refund_different_assets = do
  treasury ← Stable.new sandbox
  let token = Ft.new
  (treasury, token, _) ← deposit "bob" (usdt_id sandbox) 1000 treasury token
  usn_amount ← or_panic (get "bob" token.accounts) unwrap_none
  require (usn_amount == 999900000000000) assertion_failed
  (_, asset) ← asset_at 0 treasury
  require (asset.commission == 100000000000) assertion_failed
  treasury ← add_asset "charlie" 8 treasury
  (treasury, _) ←
      set_commission_rate "charlie" (record { deposit = none; withdraw = some 5000 }) treasury
  (treasury, token, _, withdrawn) ← withdraw "bob" "charlie" usn_amount treasury token
  (_, asset) ← asset_at 1 treasury
  require (asset.commission == 4999500000000) assertion_failed
  require (is_none (get "bob" token.accounts)) assertion_failed
  require (withdrawn == 99490) assertion_failed
  (treasury, token, _) ← refund "bob" "charlie" usn_amount treasury token
  usn_amount ← or_panic (get "bob" token.accounts) unwrap_none
  require (usn_amount == 999900000000000) assertion_failed
  (_, asset) ← asset_at 0 treasury
  require (asset.commission == 100000000000) assertion_failed
  (_, asset) ← asset_at 1 treasury
  require (asset.commission == 0) assertion_failed
  ok tt

test_refund_different_assets_run : test_refund_different_assets ≡ ok tt
unfolding test_refund_different_assets
test_refund_different_assets_run = refl

unfoldable test_conversion_loss : Result (Unit {0})
unfolding Stable.new add_asset assert_asset assert_status commission_for convert_decimals deposit
    internal_deposit internal_save_balance internal_withdraw new_asset withdraw withdraw_commission
test_conversion_loss = do
  treasury ← Stable.new sandbox
  let token = Ft.new
  treasury ← add_asset "charlie" 8 treasury
  (treasury, token, _) ← deposit "bob" "charlie" 100000 treasury token
  balance ← or_panic (get "bob" token.accounts) unwrap_none
  require (balance == 999900000000000) assertion_failed
  token ← internal_withdraw "bob" 1000 token
  (treasury, token, _, _) ← withdraw "bob" "charlie" 9000000000 treasury token
  ok tt

test_conversion_loss_run : test_conversion_loss ≡ err exchanges_to_nothing
unfolding test_conversion_loss
test_conversion_loss_run = refl

unfoldable test_withdraw_more : Result (Unit {0})
unfolding Stable.new add_asset assert_asset assert_status commission_for convert_decimals deposit
    internal_deposit internal_save_balance internal_withdraw new_asset withdraw withdraw_commission
test_withdraw_more = do
  treasury ← Stable.new sandbox
  let token = Ft.new
  treasury ← add_asset "charlie" 8 treasury
  (treasury, token, _) ← deposit "bob" "charlie" 100000 treasury token
  usn_amount ← or_panic (get "bob" token.accounts) unwrap_none
  token ← internal_withdraw "bob" 1000 token
  (treasury, token, _, _) ← withdraw "bob" "charlie" usn_amount treasury token
  ok tt

test_withdraw_more_run : test_withdraw_more ≡ err not_enough_balance
unfolding test_withdraw_more
test_withdraw_more_run = refl
