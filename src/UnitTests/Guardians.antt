-- ===== src/UnitTests/Guardians.antt =====
-- The unit tests of src/lib.rs on guardians.
use usn.Owner
use usn.Wallet
use usn.Redeem
use usn.Mint
use usn.Stable
use usn.Asset.{usdt_id}
use usn.Base.{
  ◌≡◌, refl, none, [], Result, ok, err, or_panic, require, same_account, ◌==◌, ◌>>=◌, ◌>>◌, not,
  ◌∷◌, unwrap_none, assertion_failed, only_owner, guardian_missing, mint_disabled,
}
use usn.Contract.{assert_owner, abort_if_pause, contains, new}
use usn.Near.{sandbox, Env}
use usn.Redeem.{one_yocto}
use usn.UnitTests.Asserts.{count, element}
use usn.UnitTests.Context.{get_context, new_contract, one_near}

unfoldable test_guardians : Env → Result (Unit {0})
unfolding Owner.erase_guardians Owner.extend_guardians Owner.insert_guardians Owner.remove_guardians
    Stable.new assert_owner new
test_guardians builder = do
  let context = get_context builder "bob"
  contract ← new_contract context "bob"
  let context = record context { predecessor_account_id = "bob" }
  (contract, _, _) ← Owner.extend_guardians context ("charlie" ∷ []) contract
  require (contains "charlie" contract.guardians) assertion_failed
  (contract, _, _) ← Owner.remove_guardians context ("charlie" ∷ []) contract
  require (not (contains "charlie" contract.guardians)) assertion_failed
  ok tt

test_guardians_run : (builder : Env) → test_guardians builder ≡ ok tt
unfolding test_guardians
test_guardians_run builder = refl

unfoldable test_view_guardians : Env → Result (Unit {0})
unfolding Owner.erase_guardians Owner.extend_guardians Owner.insert_guardians Owner.remove_guardians
    Stable.new assert_owner new
test_view_guardians builder = do
  let context = get_context builder "bob"
  contract ← new_contract context "bob"
  let context = record context { predecessor_account_id = "bob" }
  (contract, _, _) ← Owner.extend_guardians context ("charlie" ∷ []) contract
  guardian ← or_panic (element 0 (Owner.guardians contract)) unwrap_none
  require (same_account guardian "charlie") assertion_failed
  (contract, _, _) ← Owner.remove_guardians context ("charlie" ∷ []) contract
  require (count (Owner.guardians contract) == 0) assertion_failed
  ok tt

test_view_guardians_run : (builder : Env) → test_view_guardians builder ≡ ok tt
unfolding test_view_guardians
test_view_guardians_run builder = refl

unfoldable test_cannot_remove_guardians : Env → Result (Unit {0})
unfolding Owner.erase_guardians Owner.extend_guardians Owner.insert_guardians Owner.remove_guardians
    Stable.new assert_owner new
test_cannot_remove_guardians builder = do
  let context = get_context builder "bob"
  contract ← new_contract context "bob"
  let context = record context { predecessor_account_id = "bob" }
  (contract, _, _) ← Owner.extend_guardians context ("charlie" ∷ []) contract
  require (contains "charlie" contract.guardians) assertion_failed
  (contract, _, _) ← Owner.remove_guardians context ("danny" ∷ []) contract
  ok tt

test_cannot_remove_guardians_run :
    (builder : Env) → test_cannot_remove_guardians builder ≡ err (guardian_missing "danny")
unfolding test_cannot_remove_guardians
test_cannot_remove_guardians_run builder = refl

unfoldable test_deposit_auto_registration : Env → Result (Unit {0})
unfolding Redeem.withdraw Stable.new Wallet.ft_on_transfer new
test_deposit_auto_registration builder = do
  let context = get_context builder "bob"
  contract ← new_contract context "bob"
  let context = record context { predecessor_account_id = (usdt_id sandbox) }
  (contract, _, _) ← Wallet.ft_on_transfer "charlie" 1000000000 "" contract
  let context = record context { predecessor_account_id = "charlie"; attached_deposit = one_yocto }
  (contract, _, _) ← Redeem.withdraw context none 999900000000000000000 contract
  ok tt

test_deposit_auto_registration_run :
    (builder : Env) → test_deposit_auto_registration builder ≡ err mint_disabled
unfolding test_deposit_auto_registration
test_deposit_auto_registration_run builder = refl

unfoldable test_buy_not_owner : Env → Result (Unit {0})
unfolding Mint.mint_by_near Stable.new abort_if_pause assert_owner new
test_buy_not_owner builder = do
  let context = get_context builder "bob"
  contract ← new_contract context "bob"
  let context = record context { predecessor_account_id = "charlie"; attached_deposit = one_near }
  (contract, _, _) ← Mint.mint_by_near context 100 contract
  ok tt

test_buy_not_owner_run : (builder : Env) → test_buy_not_owner builder ≡ err only_owner
unfolding test_buy_not_owner
test_buy_not_owner_run builder = refl
