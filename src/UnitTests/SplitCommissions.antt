-- ===== src/UnitTests/SplitCommissions.antt =====
-- The unit tests of src/lib.rs on transfers of both commissions.
use usn.Wallet
use usn.Treasury
use usn.Stable
use usn.Asset.{usdt_id, convert_decimals, commission_for}
use usn.Base.{
  ℕ, ◌+◌, ◌≡◌, refl, Result, ok, err, require, ◌==◌, ◌>>=◌, ◌>>◌, assertion_failed,
  exceeded_commission,
}
use usn.Contract.{assert_owner, new}
use usn.Ft.{internal_deposit, internal_save_balance}
use usn.Near.{sandbox, Env}
use usn.UnitTests.Context.{get_context, new_contract, deposit_asset, with_v1_usn, with_v1_near}

unfoldable test_transfer_full_v1_v2_commission : Env → Result (Unit {0})
unfolding Stable.assert_asset Stable.assert_status Stable.decrease_commission Stable.deposit
    Stable.new Stable.withdraw_commission Treasury.commission Treasury.take_commissions
    Treasury.transfer_commission Treasury.v1_parts assert_owner commission_for convert_decimals
    internal_deposit internal_save_balance new
test_transfer_full_v1_v2_commission builder = do
  let context = get_context builder "bob"
  contract ← new_contract context "bob"
  let usn_commission_v1 : ℕ = 10000000000
  let usn_commission_v2 : ℕ = 10000000000000
  let all_commission : ℕ = (usn_commission_v1 + usn_commission_v2)
  let contract = with_v1_usn usn_commission_v1 contract
  let contract = with_v1_near 1000000000000000 contract
  contract ← deposit_asset "charlie" (usdt_id sandbox) 100000 contract
  output ← Treasury.commission contract
  require (output.v2_usn == usn_commission_v2) assertion_failed
  (contract, _, _) ← Treasury.transfer_commission context "danny" all_commission contract
  output ← Treasury.commission contract
  require (output.v1.usn == 0) assertion_failed
  output ← Treasury.commission contract
  require (output.v1.near == 0) assertion_failed
  output ← Treasury.commission contract
  require (output.v2_usn == 0) assertion_failed
  require (Wallet.ft_balance_of "danny" contract == all_commission) assertion_failed
  ok tt

test_transfer_full_v1_v2_commission_run :
    (builder : Env) → test_transfer_full_v1_v2_commission builder ≡ ok tt
unfolding test_transfer_full_v1_v2_commission
test_transfer_full_v1_v2_commission_run builder = refl

unfoldable test_consequentially_transfer_commission : Env → Result (Unit {0})
unfolding Stable.assert_asset Stable.assert_status Stable.decrease_commission Stable.deposit
    Stable.new Stable.withdraw_commission Treasury.commission Treasury.take_commissions
    Treasury.transfer_commission Treasury.v1_parts assert_owner commission_for convert_decimals
    internal_deposit internal_save_balance new
test_consequentially_transfer_commission builder = do
  let context = get_context builder "bob"
  contract ← new_contract context "bob"
  let contract = with_v1_usn 10000000000 contract
  let contract = with_v1_near 1000000000000000 contract
  contract ← deposit_asset "charlie" (usdt_id sandbox) 100000 contract
  output ← Treasury.commission contract
  require (output.v2_usn == 10000000000000) assertion_failed
  (contract, _, _) ← Treasury.transfer_commission context "danny" 1000000000 contract
  output ← Treasury.commission contract
  require (output.v1.usn == 9000000000) assertion_failed
  output ← Treasury.commission contract
  require (output.v1.near == 900000000000000) assertion_failed
  output ← Treasury.commission contract
  require (output.v2_usn == 10000000000000) assertion_failed
  require (Wallet.ft_balance_of "danny" contract == 1000000000) assertion_failed
  (contract, _, _) ← Treasury.transfer_commission context "danny" 10000000000 contract
  output ← Treasury.commission contract
  require (output.v1.usn == 0) assertion_failed
  output ← Treasury.commission contract
  require (output.v1.near == 0) assertion_failed
  output ← Treasury.commission contract
  require (output.v2_usn == 9999000000000) assertion_failed
  require (Wallet.ft_balance_of "danny" contract == 11000000000) assertion_failed
  (contract, _, _) ← Treasury.transfer_commission context "danny" 999000000000 contract
  output ← Treasury.commission contract
  require (output.v1.usn == 0) assertion_failed
  output ← Treasury.commission contract
  require (output.v1.near == 0) assertion_failed
  output ← Treasury.commission contract
  require (output.v2_usn == 9000000000000) assertion_failed
  require (Wallet.ft_balance_of "danny" contract == 1010000000000) assertion_failed
  (contract, _, _) ← Treasury.transfer_commission context "danny" 9000000000000 contract
  output ← Treasury.commission contract
  require (output.v1.usn == 0) assertion_failed
  output ← Treasury.commission contract
  require (output.v1.near == 0) assertion_failed
  output ← Treasury.commission contract
  require (output.v2_usn == 0) assertion_failed
  require (Wallet.ft_balance_of "danny" contract == 10010000000000) assertion_failed
  ok tt

test_consequentially_transfer_commission_run :
    (builder : Env) → test_consequentially_transfer_commission builder ≡ ok tt
unfolding test_consequentially_transfer_commission
test_consequentially_transfer_commission_run builder = refl

unfoldable test_transfer_more_v2_commission : Env → Result (Unit {0})
unfolding Stable.assert_asset Stable.assert_status Stable.decrease_commission Stable.deposit
    Stable.new Stable.withdraw_commission Treasury.commission Treasury.take_commissions
    Treasury.transfer_commission Treasury.v1_parts assert_owner commission_for convert_decimals
    internal_deposit internal_save_balance new
test_transfer_more_v2_commission builder = do
  let context = get_context builder "bob"
  contract ← new_contract context "bob"
  contract ← deposit_asset "charlie" (usdt_id sandbox) 100000 contract
  output ← Treasury.commission contract
  require (output.v2_usn == 10000000000000) assertion_failed
  (contract, _, _) ← Treasury.transfer_commission context "danny" 100000000000000 contract
  ok tt

test_transfer_more_v2_commission_run :
    (builder : Env) → test_transfer_more_v2_commission builder ≡ err exceeded_commission
unfolding test_transfer_more_v2_commission
test_transfer_more_v2_commission_run builder = refl

unfoldable test_transfer_more_v1_commission_with_not_enough_v2_commission : Env → Result (Unit {0})
unfolding Stable.assert_asset Stable.assert_status Stable.decrease_commission Stable.deposit
    Stable.new Stable.withdraw_commission Treasury.commission Treasury.take_commissions
    Treasury.transfer_commission Treasury.v1_parts assert_owner commission_for convert_decimals
    internal_deposit internal_save_balance new
test_transfer_more_v1_commission_with_not_enough_v2_commission builder = do
  let context = get_context builder "bob"
  contract ← new_contract context "bob"
  let contract = with_v1_usn 10000000000 contract
  let contract = with_v1_near 1000000000000000 contract
  contract ← deposit_asset "charlie" (usdt_id sandbox) 100000 contract
  output ← Treasury.commission contract
  require (output.v2_usn == 10000000000000) assertion_failed
  (contract, _, _) ← Treasury.transfer_commission context "danny" 1000000000000000 contract
  ok tt

test_transfer_more_v1_commission_with_not_enough_v2_commission_run :
    (builder : Env)
    → test_transfer_more_v1_commission_with_not_enough_v2_commission builder
      ≡ err exceeded_commission
unfolding test_transfer_more_v1_commission_with_not_enough_v2_commission
test_transfer_more_v1_commission_with_not_enough_v2_commission_run builder = refl
