-- ===== src/UnitTests/Administration.antt =====
-- The unit tests of src/lib.rs on ownership, transfers, the blacklist and maintenance.
use usn.Owner
use usn.Wallet
use usn.Admin
use usn.Ft
use usn.Stable
use usn.Base.{
  ℕ, ◌-◌, ◌/◌, ◌≡◌, refl, none, [], Result, ok, err, require, same_account, ◌==◌, ◌>>=◌, ◌>>◌, not,
  ◌∷◌, assertion_failed, only_owner,
}
use usn.Contract.{
  assert_owner, assert_owner_or_guardian, abort_if_pause, abort_if_blacklisted, is_allowable,
  is_paused, blacklist_status, new,
}
use usn.Ft.{internal_deposit, internal_withdraw, internal_save_balance, internal_transfer}
use usn.Near.{Env}
use usn.Redeem.{one_yocto}
use usn.UnitTests.Context.{get_context, new_contract}

unfoldable test_new : Env → Result (Unit {0})
unfolding Stable.new new
test_new builder = do
  let total_supply : ℕ = 0
  let context = get_context builder "bob"
  contract ← new_contract context "bob"
  require (Wallet.ft_total_supply contract == total_supply) assertion_failed
  require (Wallet.ft_balance_of "bob" contract == total_supply) assertion_failed
  ok tt

test_new_run : (builder : Env) → test_new builder ≡ ok tt
unfolding test_new
test_new_run builder = refl

unfoldable test_ownership : Env → Result (Unit {0})
unfolding Owner.accept_ownership Owner.propose_new_owner Stable.new assert_owner new
test_ownership builder = do
  let context = get_context builder "bob"
  contract ← new_contract context "bob"
  (contract, _, _) ← Owner.propose_new_owner context "charlie" contract
  require (same_account contract.owner_id "bob") assertion_failed
  let context = record context { predecessor_account_id = "charlie" }
  (contract, _, _) ← Owner.accept_ownership context contract
  require (same_account contract.owner_id "charlie") assertion_failed
  ok tt

test_ownership_run : (builder : Env) → test_ownership builder ≡ ok tt
unfolding test_ownership
test_ownership_run builder = refl

unfoldable test_transfer : Env → Result (Unit {0})
unfolding Ft.ft_transfer Stable.new Wallet.ft_transfer abort_if_blacklisted abort_if_pause
    internal_deposit internal_save_balance internal_transfer internal_withdraw new
test_transfer builder = do
  let amount : ℕ = 3000000000000000000000000
  let context = get_context builder "charlie"
  contract ← new_contract context "charlie"
  token ← internal_deposit "charlie" amount contract.token
  let contract = record contract { token = token }
  let context = record context { predecessor_account_id = "bob" }
  let context = record context { attached_deposit = one_yocto; predecessor_account_id = "charlie" }
  let transfer_amount : ℕ = (amount / 3)
  (contract, _, _) ← Wallet.ft_transfer context "bob" transfer_amount none contract
  let context = record context { attached_deposit = 0 }
  require (Wallet.ft_balance_of "charlie" contract == (amount - transfer_amount)) assertion_failed
  require (Wallet.ft_balance_of "bob" contract == transfer_amount) assertion_failed
  ok tt

test_transfer_run : (builder : Env) → test_transfer builder ≡ ok tt
unfolding test_transfer
test_transfer_run builder = refl

unfoldable test_blacklist : Env → Result (Unit {0})
unfolding Admin.add_to_blacklist Admin.destroy_black_funds Admin.remove_from_blacklist Stable.new
    assert_owner internal_deposit internal_save_balance new
test_blacklist builder = do
  let context = get_context builder "bob"
  contract ← new_contract context "bob"
  let context = record context { predecessor_account_id = "charlie" }
  require (is_allowable (blacklist_status "bob" contract)) assertion_failed
  token ← internal_deposit "charlie" 1000 contract.token
  let contract = record contract { token = token }
  require (Wallet.ft_balance_of "charlie" contract == 1000) assertion_failed
  let context = record context { predecessor_account_id = "bob" }
  (contract, _, _) ← Admin.add_to_blacklist context "charlie" contract
  require (not (is_allowable (blacklist_status "charlie" contract))) assertion_failed
  (contract, _, _) ← Admin.remove_from_blacklist context "charlie" contract
  require (is_allowable (blacklist_status "charlie" contract)) assertion_failed
  (contract, _, _) ← Admin.add_to_blacklist context "charlie" contract
  let total_supply_before = contract.token.total_supply
  require (not (Wallet.ft_balance_of "charlie" contract == 0)) assertion_failed
  (contract, _, _) ← Admin.destroy_black_funds context "charlie" contract
  require (not (total_supply_before == contract.token.total_supply)) assertion_failed
  require (Wallet.ft_balance_of "charlie" contract == 0) assertion_failed
  require (not (is_allowable (blacklist_status "charlie" contract))) assertion_failed
  ok tt

test_blacklist_run : (builder : Env) → test_blacklist builder ≡ ok tt
unfolding test_blacklist
test_blacklist_run builder = refl

unfoldable test_user_cannot_destroy_black_funds : Env → Result (Unit {0})
unfolding Admin.add_to_blacklist Stable.new assert_owner new
test_user_cannot_destroy_black_funds builder = do
  let context = get_context builder "charlie"
  contract ← new_contract context "charlie"
  let context = record context { predecessor_account_id = "bob" }
  (contract, _, _) ← Admin.add_to_blacklist context "bob" contract
  ok tt

test_user_cannot_destroy_black_funds_run :
    (builder : Env) → test_user_cannot_destroy_black_funds builder ≡ err only_owner
unfolding test_user_cannot_destroy_black_funds
test_user_cannot_destroy_black_funds_run builder = refl

unfoldable test_maintenance : Env → Result (Unit {0})
unfolding Admin.pause Admin.resume Stable.new assert_owner assert_owner_or_guardian new
test_maintenance builder = do
  let context = get_context builder "bob"
  contract ← new_contract context "bob"
  let context = record context {
    attached_deposit = one_yocto;
    predecessor_account_id = "bob";
    current_account_id = "bob";
  }
  require (not (is_paused contract.status)) assertion_failed
  (contract, _, _) ← Admin.pause context contract
  require (is_paused contract.status) assertion_failed
  (contract, _, _) ← Admin.resume context contract
  require (not (is_paused contract.status)) assertion_failed
  (contract, _, _) ← Admin.pause context contract
  let supply = Wallet.ft_total_supply contract
  ok tt

test_maintenance_run : (builder : Env) → test_maintenance builder ≡ ok tt
unfolding test_maintenance
test_maintenance_run builder = refl

unfoldable test_extend_guardians_by_user : Env → Result (Unit {0})
unfolding Owner.extend_guardians Owner.insert_guardians Stable.new assert_owner new
test_extend_guardians_by_user builder = do
  let context = get_context builder "bob"
  contract ← new_contract context "bob"
  let context = record context { predecessor_account_id = "charlie" }
  (contract, _, _) ← Owner.extend_guardians context ("danny" ∷ []) contract
  ok tt

test_extend_guardians_by_user_run :
    (builder : Env) → test_extend_guardians_by_user builder ≡ err only_owner
unfolding test_extend_guardians_by_user
test_extend_guardians_by_user_run builder = refl
