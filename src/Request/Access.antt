-- ===== src/Request/Access.antt =====
-- Who may do what: the owner's methods, the pause and the blacklist, and the change of the owner.
use usn.Base.{◌≡◌, ◌≢◌, Bool, true, false, arith, same_account_ne, Result, ok, err}
use usn.Near.{Env}
use usn.Contract.{
  Contract, paused, banned_account, blacklist_status, assert_owner, abort_if_pause,
  abort_if_blacklisted,
}
use usn.Owner
use usn.Admin
use usn.Wallet
use usn.Mint
use usn.Redeem
use usn.Treasury
use usn.Staking
use usn.Liquidity
use usn.Removal
use usn.Request.{Request, run}

-- The methods of the owner alone.
unfoldable pub needs_owner : Request → Bool
needs_owner (Request.propose_new_owner a) = true
needs_owner (Request.add_to_blacklist a) = true
needs_owner (Request.remove_from_blacklist a) = true
needs_owner (Request.destroy_black_funds a) = true
needs_owner Request.resume = true
needs_owner (Request.extend_guardians l) = true
needs_owner (Request.remove_guardians l) = true
needs_owner (Request.upgrade_name_symbol n s) = true
needs_owner (Request.upgrade_icon i) = true
needs_owner (Request.mint_by_near ratio) = true
needs_owner (Request.stake a p) = true
needs_owner (Request.unstake a p) = true
needs_owner (Request.unstake_all p) = true
needs_owner (Request.withdraw_all p) = true
needs_owner (Request.add_stable_asset k d) = true
needs_owner (Request.enable_stable_asset k) = true
needs_owner (Request.disable_stable_asset k) = true
needs_owner (Request.set_commission_rate k r) = true
needs_owner (Request.transfer_commission a amount) = true
needs_owner (Request.transfer_near a amount) = true
needs_owner (Request.transfer_stable_liquidity p whole) = true
needs_owner (Request.withdraw_stable_pool percent) = true
needs_owner _ = false

-- The methods that a pause stops.
unfoldable pub is_pausable : Request → Bool
is_pausable (Request.ft_transfer r a memo) = true
is_pausable (Request.ft_transfer_call r a memo msg) = true
is_pausable (Request.withdraw asset a) = true
is_pausable (Request.mint_by_near ratio) = true
is_pausable _ = false

-- The methods that are closed to a banned account.
unfoldable pub is_bannable : Request → Bool
is_bannable (Request.ft_transfer r a memo) = true
is_bannable (Request.ft_transfer_call r a memo msg) = true
is_bannable (Request.withdraw asset a) = true
is_bannable _ = false

abbrev pub IsRefused : Result Contract → Type 0
IsRefused (ok c) = ⊥
IsRefused (err e) = Unit

module _ (env : Env) (c : Contract) where
  -- Each of the 22 methods of the owner panics for every other caller, whatever the arguments and
  -- the state.
  pub owner_only :
      (request : Request)
      → needs_owner request ≡ true
      → env.predecessor_account_id ≢ c.owner_id
      → IsRefused (run env request c)
  unfolding needs_owner run assert_owner Owner.propose_new_owner Admin.add_to_blacklist
      Admin.remove_from_blacklist Admin.destroy_black_funds Admin.resume Owner.extend_guardians
      Owner.remove_guardians Admin.upgrade_name_symbol Admin.upgrade_icon Mint.mint_by_near
      Staking.stake Staking.unstake Staking.unstake_all Staking.withdraw_all
      Treasury.add_stable_asset Treasury.enable_stable_asset Treasury.disable_stable_asset
      Treasury.set_commission_rate Treasury.transfer_commission Treasury.transfer_near
      Liquidity.transfer_stable_liquidity Removal.withdraw_stable_pool
  owner_only Request.resume h ne =
      ground (arith, same_account_ne env.predecessor_account_id c.owner_id ne)
  owner_only _ h ne = ground (arith, same_account_ne env.predecessor_account_id c.owner_id ne)

  -- While the contract is paused, ft_transfer, ft_transfer_call, withdraw and mint_by_near panic
  -- for every caller.
  pub paused_refuses :
      (request : Request)
      → is_pausable request ≡ true
      → c.status ≡ paused
      → IsRefused (run env request c)
  unfolding is_pausable run abort_if_pause assert_owner Wallet.ft_transfer Wallet.ft_transfer_call
      Redeem.withdraw Mint.mint_by_near
  paused_refuses Request.resume h p = absurd (cc)
  paused_refuses _ h p = ground arith

  -- For a caller on the blacklist, ft_transfer, ft_transfer_call and withdraw panic.
  pub banned_refuses :
      (request : Request)
      → is_bannable request ≡ true
      → blacklist_status env.predecessor_account_id c ≡ banned_account
      → IsRefused (run env request c)
  unfolding is_bannable run abort_if_pause abort_if_blacklisted Wallet.ft_transfer
      Wallet.ft_transfer_call Redeem.withdraw
  banned_refuses Request.resume h p = absurd (cc)
  banned_refuses _ h p = ground arith
