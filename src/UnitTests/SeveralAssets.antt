-- ===== src/UnitTests/SeveralAssets.antt =====
-- The unit tests of src/lib.rs on the commission of several assets.
use usn.Wallet
use usn.Treasury
use usn.Asset
use usn.Stable
use usn.Asset.{usdt_id, convert_decimals, commission_for}
use usn.Base.{◌≡◌, refl, Result, ok, require, ◌==◌, ◌>>=◌, ◌>>◌, assertion_failed}
use usn.Contract.{assert_owner, new}
use usn.Ft.{internal_deposit, internal_save_balance}
use usn.Near.{sandbox, Env}
use usn.UnitTests.Asserts.{asset_at}
use usn.UnitTests.Context.{get_context, new_contract, deposit_asset}

unfoldable test_transfer_v2_commission_several_assets : Env → Result (Unit {0})
unfolding Asset.new_asset Stable.add_asset Stable.assert_asset Stable.assert_status
    Stable.decrease_commission Stable.deposit Stable.new Stable.withdraw_commission
    Treasury.add_stable_asset Treasury.commission Treasury.take_commissions
    Treasury.transfer_commission Treasury.v1_parts assert_owner commission_for convert_decimals
    internal_deposit internal_save_balance new
test_transfer_v2_commission_several_assets builder = do
  let context = get_context builder "bob"
  contract ← new_contract context "bob"
  contract ← deposit_asset "charlie" (usdt_id sandbox) 100000 contract
  output ← Treasury.commission contract
  require (output.v2_usn == 10000000000000) assertion_failed
  (contract, _, _) ← Treasury.add_stable_asset context "eugene" 20 contract
  contract ← deposit_asset "charlie" "eugene" 1000000000000000000000 contract
  output ← Treasury.commission contract
  require (output.v2_usn == 1010000000000000) assertion_failed
  let treasury = contract.stable_treasury
  (_, asset) ← asset_at 0 treasury
  require (asset.commission == 10000000000000) assertion_failed
  (_, asset) ← asset_at 1 treasury
  require (asset.commission == 1000000000000000) assertion_failed
  (contract, _, _) ← Treasury.transfer_commission context "danny" 500000000000000 contract
  let treasury = contract.stable_treasury
  output ← Treasury.commission contract
  require (output.v1.usn == 0) assertion_failed
  output ← Treasury.commission contract
  require (output.v1.near == 0) assertion_failed
  (_, asset) ← asset_at 0 treasury
  require (asset.commission == 0) assertion_failed
  (_, asset) ← asset_at 1 treasury
  require (asset.commission == 510000000000000) assertion_failed
  output ← Treasury.commission contract
  require (output.v2_usn == 510000000000000) assertion_failed
  require (Wallet.ft_balance_of "danny" contract == 500000000000000) assertion_failed
  ok tt

test_transfer_v2_commission_several_assets_run :
    (builder : Env) → test_transfer_v2_commission_several_assets builder ≡ ok tt
unfolding test_transfer_v2_commission_several_assets
test_transfer_v2_commission_several_assets_run builder = refl

unfoldable test_transfer_part_v2_commission_several_assets : Env → Result (Unit {0})
unfolding Asset.new_asset Stable.add_asset Stable.assert_asset Stable.assert_status
    Stable.decrease_commission Stable.deposit Stable.new Stable.withdraw_commission
    Treasury.add_stable_asset Treasury.commission Treasury.take_commissions
    Treasury.transfer_commission Treasury.v1_parts assert_owner commission_for convert_decimals
    internal_deposit internal_save_balance new
test_transfer_part_v2_commission_several_assets builder = do
  let context = get_context builder "bob"
  contract ← new_contract context "bob"
  contract ← deposit_asset "charlie" (usdt_id sandbox) 100000 contract
  output ← Treasury.commission contract
  require (output.v2_usn == 10000000000000) assertion_failed
  (contract, _, _) ← Treasury.add_stable_asset context "eugene" 20 contract
  contract ← deposit_asset "charlie" "eugene" 1000000000000000000000 contract
  output ← Treasury.commission contract
  require (output.v2_usn == 1010000000000000) assertion_failed
  let treasury = contract.stable_treasury
  (_, asset) ← asset_at 0 treasury
  require (asset.commission == 10000000000000) assertion_failed
  (_, asset) ← asset_at 1 treasury
  require (asset.commission == 1000000000000000) assertion_failed
  (contract, _, _) ← Treasury.transfer_commission context "danny" 10000000000000 contract
  let treasury = contract.stable_treasury
  output ← Treasury.commission contract
  require (output.v1.usn == 0) assertion_failed
  output ← Treasury.commission contract
  require (output.v1.near == 0) assertion_failed
  (_, asset) ← asset_at 0 treasury
  require (asset.commission == 0) assertion_failed
  (_, asset) ← asset_at 1 treasury
  require (asset.commission == 1000000000000000) assertion_failed
  output ← Treasury.commission contract
  require (output.v2_usn == 1000000000000000) assertion_failed
  require (Wallet.ft_balance_of "danny" contract == 10000000000000) assertion_failed
  ok tt

test_transfer_part_v2_commission_several_assets_run :
    (builder : Env) → test_transfer_part_v2_commission_several_assets builder ≡ ok tt
unfolding test_transfer_part_v2_commission_several_assets
test_transfer_part_v2_commission_several_assets_run builder = refl

unfoldable test_transfer_full_v2_commission_several_assets : Env → Result (Unit {0})
unfolding Asset.new_asset Stable.add_asset Stable.assert_asset Stable.assert_status
    Stable.decrease_commission Stable.deposit Stable.new Stable.withdraw_commission
    Treasury.add_stable_asset Treasury.commission Treasury.take_commissions
    Treasury.transfer_commission Treasury.v1_parts assert_owner commission_for convert_decimals
    internal_deposit internal_save_balance new
test_transfer_full_v2_commission_several_assets builder = do
  let context = get_context builder "bob"
  contract ← new_contract context "bob"
  contract ← deposit_asset "charlie" (usdt_id sandbox) 100000 contract
  output ← Treasury.commission contract
  require (output.v2_usn == 10000000000000) assertion_failed
  (contract, _, _) ← Treasury.add_stable_asset context "eugene" 20 contract
  contract ← deposit_asset "charlie" "eugene" 1000000000000000000000 contract
  output ← Treasury.commission contract
  require (output.v2_usn == 1010000000000000) assertion_failed
  let treasury = contract.stable_treasury
  (_, asset) ← asset_at 0 treasury
  require (asset.commission == 10000000000000) assertion_failed
  (_, asset) ← asset_at 1 treasury
  require (asset.commission == 1000000000000000) assertion_failed
  (contract, _, _) ← Treasury.transfer_commission context "danny" 1010000000000000 contract
  let treasury = contract.stable_treasury
  output ← Treasury.commission contract
  require (output.v1.usn == 0) assertion_failed
  output ← Treasury.commission contract
  require (output.v1.near == 0) assertion_failed
  (_, asset) ← asset_at 0 treasury
  require (asset.commission == 0) assertion_failed
  (_, asset) ← asset_at 1 treasury
  require (asset.commission == 0) assertion_failed
  output ← Treasury.commission contract
  require (output.v2_usn == 0) assertion_failed
  require (Wallet.ft_balance_of "danny" contract == 1010000000000000) assertion_failed
  ok tt

test_transfer_full_v2_commission_several_assets_run :
    (builder : Env) → test_transfer_full_v2_commission_several_assets builder ≡ ok tt
unfolding test_transfer_full_v2_commission_several_assets
test_transfer_full_v2_commission_several_assets_run builder = refl
