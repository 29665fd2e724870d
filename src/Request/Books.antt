-- ===== src/Request/Books.antt =====
-- The supply of the contract of src/lib.rs against the events, over a call of any method.
use usn.Base.{ℕ, arith, Result, ok, err, Ensures}
use usn.Near.{Env}
use usn.Ft.Ledger.{balance}
use usn.Contract.{Contract, Outcome, assert_owner, assert_owner_or_guardian}
use usn.Contract.Invariant.{IsValid}
use usn.Owner
use usn.Admin
use usn.Wallet
use usn.Mint
use usn.Mint.{usn_for_near}
use usn.Treasury
use usn.Treasury.{v1_parts, take_commissions, treasury, commission}
use usn.Staking
use usn.Liquidity
use usn.Liquidity.{transfer_tokens}
use usn.Removal
use usn.Request.{Request, logged, run_logged}
use usn.Request.Booking.{
  Balanced, Balances, ft_transfer-Balanced, ft_transfer_call-Balanced, ft_resolve_transfer-Balanced,
  destroy_black_funds-Balanced, mint_with_price_callback-Balanced, withdraw-Balanced,
  handle_withdraw_refund-Balanced, transfer_commission-Balanced, handle_start_transferring-Balanced,
  finish_removing_with_burn-Balanced, set_commission_rate-Balanced,
}

-- Funds of a banned account leave the supply, and no event says so.
unfoldable pub destroyed : Request → Contract → ℕ
destroyed (Request.destroy_black_funds a) c = balance a c.token
destroyed _ c = 0

logged-Balanced :
    {A : Type 0} (gone : ℕ) (c : Contract) (r : Result (Outcome A))
    → Ensures (Balances gone c) r
    → Ensures (λ l. Balanced gone c l.0 l.1) (logged r)
logged-Balanced gone c (ok o) h = h
logged-Balanced gone c (err e) h = tt

module _ (env : Env) (c : Contract) (v : IsValid c) where
  pub run_logged-Balanced :
      (request : Request)
      → Ensures (λ l. Balanced (destroyed request c) c l.0 l.1) (run_logged env request c)
  unfolding run_logged destroyed assert_owner assert_owner_or_guardian Owner.propose_new_owner
      Admin.add_to_blacklist Admin.remove_from_blacklist Owner.accept_ownership Admin.pause
      Admin.resume Owner.extend_guardians Owner.remove_guardians Admin.upgrade_name_symbol
      Admin.upgrade_icon Wallet.ft_on_transfer Mint.mint_by_near Mint.handle_refund Staking.stake
      Staking.unstake Staking.unstake_all Staking.withdraw_all Staking.handle_unstake
      Treasury.add_stable_asset Treasury.enable_stable_asset Treasury.disable_stable_asset
      Treasury.set_commission_rate Treasury.transfer_near Liquidity.transfer_stable_liquidity
      Liquidity.handle_deposit_then_add_liquidity Removal.withdraw_stable_pool
      Removal.handle_start_removing Removal.handle_remove_deposit
  run_logged-Balanced (Request.destroy_black_funds a) =
      logged-Balanced (balance a c.token) c _ (destroy_black_funds-Balanced env c v a)
  run_logged-Balanced (Request.ft_transfer r a memo) =
      logged-Balanced 0 c _ (ft_transfer-Balanced env c v r a memo)
  run_logged-Balanced (Request.ft_transfer_call r a memo msg) =
      logged-Balanced 0 c _ (ft_transfer_call-Balanced env c v r a memo msg)
  run_logged-Balanced (Request.ft_resolve_transfer s r a) =
      logged-Balanced 0 c _ (ft_resolve_transfer-Balanced env c v s r a)
  run_logged-Balanced (Request.mint_with_price_callback near ratio price) =
      logged-Balanced 0 c _ (mint_with_price_callback-Balanced env c v near ratio price)
  run_logged-Balanced (Request.withdraw asset a) =
      logged-Balanced 0 c _ (withdraw-Balanced env c v asset a)
  run_logged-Balanced (Request.handle_withdraw_refund a k amount) =
      logged-Balanced 0 c _ (handle_withdraw_refund-Balanced env c v a k amount)
  run_logged-Balanced (Request.transfer_commission a amount) =
      logged-Balanced 0 c _ (transfer_commission-Balanced env c v a amount)
  run_logged-Balanced (Request.handle_start_transferring p whole deposits) =
      logged-Balanced 0 c _ (handle_start_transferring-Balanced env c v p whole deposits)
  run_logged-Balanced (Request.finish_removing_with_burn a) =
      logged-Balanced 0 c _ (finish_removing_with_burn-Balanced env c v a)
  run_logged-Balanced (Request.set_commission_rate k r) =
      logged-Balanced 0 c _ (set_commission_rate-Balanced env c v k r)
  run_logged-Balanced request = ground arith
