-- ===== src/Request/Ownership.antt =====
-- The owner, the proposed owner and what the owner controls (src/owner.rs, src/lib.rs) over a call of
-- any method.
use usn.Base.{◌≡◌, ◌≢◌, ◌⊎◌, true, arith, same_account_iff, same_account_ne, Ensures}
use usn.Near.{Env}
use usn.Contract.{Contract, assert_owner, assert_owner_or_guardian, paused, contains}
use usn.Owner
use usn.Admin
use usn.Wallet
use usn.Mint
use usn.Redeem
use usn.Treasury
use usn.Staking
use usn.Liquidity
use usn.Removal
use usn.Request.{Request, run}

-- The owner stays, or the proposed owner has taken over by its own call; and a new proposal is the
-- owner's.
pub record Succession (env : Env) (c d : Contract) : Type 0 where
  pub owner :
      (d.owner_id ≡ c.owner_id)
      ⊎ ((d.owner_id ≡ c.proposed_owner_id) × (env.predecessor_account_id ≡ c.proposed_owner_id))
  pub proposed :
      (d.proposed_owner_id ≡ c.proposed_owner_id) ⊎ (env.predecessor_account_id ≡ c.owner_id)

module _ (env : Env) (c : Contract) where
  -- Whatever the request, a call that returns leaves the owner as it was or makes the proposed
  -- owner the owner by a call of that account, and changes the proposal only by a call of the
  -- owner.
  pub run-Succession : (request : Request) → Ensures (Succession env c) (run env request c)
  unfolding run assert_owner Owner.propose_new_owner Admin.add_to_blacklist
      Admin.remove_from_blacklist Admin.destroy_black_funds Owner.accept_ownership Admin.pause
      Admin.resume Owner.extend_guardians Owner.remove_guardians Admin.upgrade_name_symbol
      Admin.upgrade_icon Wallet.ft_transfer Wallet.ft_transfer_call Wallet.ft_resolve_transfer
      Wallet.ft_on_transfer Mint.mint_by_near Mint.mint_with_price_callback Mint.finish_mint_by_near
      Mint.handle_refund Redeem.withdraw Redeem.handle_withdraw_refund Staking.stake Staking.unstake
      Staking.unstake_all Staking.withdraw_all Staking.handle_unstake Treasury.add_stable_asset
      Treasury.enable_stable_asset Treasury.disable_stable_asset Treasury.set_commission_rate
      Treasury.transfer_commission Treasury.transfer_near Liquidity.transfer_stable_liquidity
      Liquidity.handle_start_transferring Liquidity.handle_deposit_then_add_liquidity
      Removal.withdraw_stable_pool Removal.handle_start_removing Removal.handle_remove_deposit
      Removal.finish_removing_with_burn
  run-Succession Request.accept_ownership =
      ground (arith, same_account_iff env.predecessor_account_id c.proposed_owner_id)
  run-Succession (Request.propose_new_owner a) =
      ground (arith, same_account_iff env.predecessor_account_id c.owner_id)
  run-Succession _ = ground arith

-- What only the owner may change: the guardians, the blacklist, the metadata, the commission of v1,
-- and the status, which a guardian may set to paused.
pub record Untouched (env : Env) (c d : Contract) : Type 0 where
  pub guardians : d.guardians ≡ c.guardians
  pub black_list : d.black_list ≡ c.black_list
  pub metadata : d.metadata ≡ c.metadata
  pub commission : d.commission ≡ c.commission
  pub status :
      (d.status ≡ c.status)
      ⊎ ((d.status ≡ paused) × (contains env.predecessor_account_id c.guardians ≡ true))

module _ (env : Env) (c : Contract) (outsider : env.predecessor_account_id ≢ c.owner_id) where
  -- A call that returns and comes from anybody but the owner leaves the guardians, the blacklist,
  -- the metadata and the commission of v1 as they were, and the status too, except that a guardian
  -- can set it to paused.
  pub run-Untouched : (request : Request) → Ensures (Untouched env c) (run env request c)
  unfolding run assert_owner assert_owner_or_guardian Owner.propose_new_owner Admin.add_to_blacklist
      Admin.remove_from_blacklist Admin.destroy_black_funds Owner.accept_ownership Admin.pause
      Admin.resume Owner.extend_guardians Owner.remove_guardians Admin.upgrade_name_symbol
      Admin.upgrade_icon Wallet.ft_transfer Wallet.ft_transfer_call Wallet.ft_resolve_transfer
      Wallet.ft_on_transfer Mint.mint_by_near Mint.mint_with_price_callback Mint.finish_mint_by_near
      Mint.handle_refund Redeem.withdraw Redeem.handle_withdraw_refund Staking.stake Staking.unstake
      Staking.unstake_all Staking.withdraw_all Staking.handle_unstake Treasury.add_stable_asset
      Treasury.enable_stable_asset Treasury.disable_stable_asset Treasury.set_commission_rate
      Treasury.transfer_commission Treasury.transfer_near Liquidity.transfer_stable_liquidity
      Liquidity.handle_start_transferring Liquidity.handle_deposit_then_add_liquidity
      Removal.withdraw_stable_pool Removal.handle_start_removing Removal.handle_remove_deposit
      Removal.finish_removing_with_burn
  run-Untouched Request.pause =
      ground (arith, same_account_ne env.predecessor_account_id c.owner_id outsider)
  run-Untouched _ = ground (arith, same_account_ne env.predecessor_account_id c.owner_id outsider)
