-- ===== src/UnitTests/Commissions.antt =====
-- The unit tests of src/lib.rs on the commission and transfers of it.
use usn.Wallet
use usn.Treasury
use usn.Asset
use usn.Stable
use usn.Asset.{usdt_id, convert_decimals, commission_for}
use usn.Base.{ℕ, ◌+◌, ◌≡◌, refl, Result, ok, require, ◌==◌, ◌>>=◌, ◌>>◌, assertion_failed}
use usn.Contract.{assert_owner, new}
use usn.Ft.{internal_deposit, internal_save_balance}
use usn.Near.{sandbox, Env}
use usn.UnitTests.Context.{get_context, new_contract, deposit_asset, with_v1_usn, with_v1_near}

unfoldable test_commission_two_assets : Env → Result (Unit {0})
unfolding Asset.new_asset Stable.add_asset Stable.assert_asset Stable.assert_status Stable.deposit
    Stable.new Stable.withdraw_commission Treasury.add_stable_asset Treasury.commission assert_owner
    commission_for convert_decimals internal_deposit internal_save_balance new
test_commission_two_assets builder = do
  let context = get_context builder "bob"
  contract ← new_contract context "bob"
  contract ← deposit_asset "charlie" (usdt_id sandbox) 100000 contract
  output ← Treasury.commission contract
  require (output.v2_usn == 10000000000000) assertion_failed
  (contract, _, _) ← Treasury.add_stable_asset context "danny" 20 contract
  contract ← deposit_asset "charlie" "danny" 100000000 contract
  output ← Treasury.commission contract
  require (output.v2_usn == 10000000000100) assertion_failed
  ok tt

test_commission_two_assets_run : (builder : Env) → test_commission_two_assets builder ≡ ok tt
unfolding test_commission_two_assets
test_commission_two_assets_run builder = refl

unfoldable test_transfer_less_v1_commission : Env → Result (Unit {0})
unfolding Stable.assert_asset Stable.assert_status Stable.decrease_commission Stable.deposit
    Stable.new Stable.withdraw_commission Treasury.commission Treasury.take_commissions
    Treasury.transfer_commission Treasury.v1_parts assert_owner commission_for convert_decimals
    internal_deposit internal_save_balance new
test_transfer_less_v1_commission builder = do
  let context = get_context builder "bob"
  contract ← new_contract context "bob"
  let contract = with_v1_usn 10000000000 contract
  let contract = with_v1_near 1000000000000000 contract
  contract ← deposit_asset "charlie" (usdt_id sandbox) 100000 contract
  output ← Treasury.commission contract
  require (output.v2_usn == 10000000000000) assertion_failed
  (contract, _, _) ← Treasury.transfer_commission context "danny" 5000000000 contract
  output ← Treasury.commission contract
  require (output.v1.usn == 5000000000) assertion_failed
  output ← Treasury.commission contract
  require (output.v1.near == 500000000000000) assertion_failed
  output ← Treasury.commission contract
  require (output.v2_usn == 10000000000000) assertion_failed
  require (Wallet.ft_balance_of "danny" contract == 5000000000) assertion_failed
  ok tt

test_transfer_less_v1_commission_run :
    (builder : Env) → test_transfer_less_v1_commission builder ≡ ok tt
unfolding test_transfer_less_v1_commission
test_transfer_less_v1_commission_run builder = refl

unfoldable test_transfer_full_v1_commission : Env → Result (Unit {0})
unfolding Stable.assert_asset Stable.assert_status Stable.decrease_commission Stable.deposit
    Stable.new Stable.withdraw_commission Treasury.commission Treasury.take_commissions
    Treasury.transfer_commission Treasury.v1_parts assert_owner commission_for convert_decimals
    internal_deposit internal_save_balance new
test_transfer_full_v1_commission builder = do
  let context = get_context builder "bob"
  contract ← new_contract context "bob"
  let v1_commission : ℕ = 10000000000
  let contract = with_v1_usn v1_commission contract
  let contract = with_v1_near 10000000000 contract
  contract ← deposit_asset "charlie" (usdt_id sandbox) 100000 contract
  output ← Treasury.commission contract
  require (output.v2_usn == 10000000000000) assertion_failed
  (contract, _, _) ← Treasury.transfer_commission context "danny" v1_commission contract
  output ← Treasury.commission contract
  require (output.v1.usn == 0) assertion_failed
  output ← Treasury.commission contract
  require (output.v1.near == 0) assertion_failed
  output ← Treasury.commission contract
  require (output.v2_usn == 10000000000000) assertion_failed
  require (Wallet.ft_balance_of "danny" contract == v1_commission) assertion_failed
  ok tt

test_transfer_full_v1_commission_run :
    (builder : Env) → test_transfer_full_v1_commission builder ≡ ok tt
unfolding test_transfer_full_v1_commission
test_transfer_full_v1_commission_run builder = refl

unfoldable test_transfer_more_v1_commission : Env → Result (Unit {0})
unfolding Stable.assert_asset Stable.assert_status Stable.decrease_commission Stable.deposit
    Stable.new Stable.withdraw_commission Treasury.commission Treasury.take_commissions
    Treasury.transfer_commission Treasury.v1_parts assert_owner commission_for convert_decimals
    internal_deposit internal_save_balance new
test_transfer_more_v1_commission builder = do
  let context = get_context builder "bob"
  contract ← new_contract context "bob"
  let v1_commission : ℕ = 100000
  let contract = with_v1_usn v1_commission contract
  let contract = with_v1_near 10000000000 contract
  contract ← deposit_asset "charlie" (usdt_id sandbox) 100000 contract
  output ← Treasury.commission contract
  require (output.v2_usn == 10000000000000) assertion_failed
  (contract, _, _) ← Treasury.transfer_commission context "danny" (v1_commission + 1) contract
  output ← Treasury.commission contract
  require (output.v1.usn == 0) assertion_failed
  output ← Treasury.commission contract
  require (output.v1.near == 0) assertion_failed
  output ← Treasury.commission contract
  require (output.v2_usn == 9999999999999) assertion_failed
  require (Wallet.ft_balance_of "danny" contract == (v1_commission + 1)) assertion_failed
  ok tt

test_transfer_more_v1_commission_run :
    (builder : Env) → test_transfer_more_v1_commission builder ≡ ok tt
unfolding test_transfer_more_v1_commission
test_transfer_more_v1_commission_run builder = refl

unfoldable test_transfer_less_v2_commission : Env → Result (Unit {0})
unfolding Stable.assert_asset Stable.assert_status Stable.decrease_commission Stable.deposit
    Stable.new Stable.withdraw_commission Treasury.commission Treasury.take_commissions
    Treasury.transfer_commission Treasury.v1_parts assert_owner commission_for convert_decimals
    internal_deposit internal_save_balance new
test_transfer_less_v2_commission builder = do
  let context = get_context builder "bob"
  contract ← new_contract context "bob"
  contract ← deposit_asset "charlie" (usdt_id sandbox) 100000 contract
  output ← Treasury.commission contract
  require (output.v2_usn == 10000000000000) assertion_failed
  (contract, _, _) ← Treasury.transfer_commission context "danny" 5000000000000 contract
  output ← Treasury.commission contract
  require (output.v1.usn == 0) assertion_failed
  output ← Treasury.commission contract
  require (output.v1.near == 0) assertion_failed
  output ← Treasury.commission contract
  require (output.v2_usn == 5000000000000) assertion_failed
  require (Wallet.ft_balance_of "danny" contract == 5000000000000) assertion_failed
  ok tt

test_transfer_less_v2_commission_run :
    (builder : Env) → test_transfer_less_v2_commission builder ≡ ok tt
unfolding test_transfer_less_v2_commission
test_transfer_less_v2_commission_run builder = refl

unfoldable test_transfer_full_v2_commission : Env → Result (Unit {0})
unfolding Stable.assert_asset Stable.assert_status Stable.decrease_commission Stable.deposit
    Stable.new Stable.withdraw_commission Treasury.commission Treasury.take_commissions
    Treasury.transfer_commission Treasury.v1_parts assert_owner commission_for convert_decimals
    internal_deposit internal_save_balance new
test_transfer_full_v2_commission builder = do
  let context = get_context builder "bob"
  contract ← new_contract context "bob"
  contract ← deposit_asset "charlie" (usdt_id sandbox) 100000 contract
  output ← Treasury.commission contract
  require (output.v2_usn == 10000000000000) assertion_failed
  (contract, _, _) ← Treasury.transfer_commission context "danny" 10000000000000 contract
  output ← Treasury.commission contract
  require (output.v1.usn == 0) assertion_failed
  output ← Treasury.commission contract
  require (output.v1.near == 0) assertion_failed
  output ← Treasury.commission contract
  require (output.v2_usn == 0) assertion_failed
  require (Wallet.ft_balance_of "danny" contract == 10000000000000) assertion_failed
  ok tt

test_transfer_full_v2_commission_run :
    (builder : Env) → test_transfer_full_v2_commission builder ≡ ok tt
unfolding test_transfer_full_v2_commission
test_transfer_full_v2_commission_run builder = refl
