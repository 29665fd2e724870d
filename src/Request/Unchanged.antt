-- ===== src/Request/Unchanged.antt =====
-- The methods of the contract that schedule calls of other contracts, and the state they leave.
use usn.Base.{ℕ, String, ◌≡◌, refl, Option, List, arith, AccountId, Result, Ensures}
use usn.Base.Maps.{AccountMap}
use usn.Near.{Env}
use usn.Contract.{Contract, Outcome}
use usn.Mint.{mint_by_near, handle_refund}
use usn.Wallet.{ft_on_transfer}
use usn.Staking.{HumanReadableAccount, stake, unstake, unstake_all, withdraw_all, handle_unstake}
use usn.Treasury.{transfer_near}
use usn.Liquidity.{transfer_stable_liquidity, handle_deposit_then_add_liquidity}
use usn.Removal.{withdraw_stable_pool, handle_start_removing, handle_remove_deposit}

-- A method that returns the state it was given.
abbrev pub Leaves : {A : Type 0} → Contract → Result (Outcome A) → Type 0
Leaves c r = Ensures (λ o. o.0 ≡ c) r

module _ (env : Env) (c : Contract) where
  pub mint_by_near-Leaves : (ratio : ℕ) → Leaves c (mint_by_near env ratio c)
  unfolding mint_by_near
  mint_by_near-Leaves ratio = ground arith

  pub handle_refund-Leaves : (a : ℕ) → Leaves c (handle_refund env a c)
  unfolding handle_refund
  handle_refund-Leaves a = refl

  pub ft_on_transfer-Leaves :
      (s : AccountId) (a : ℕ) (msg : String) → Leaves c (ft_on_transfer s a msg c)
  unfolding ft_on_transfer
  ft_on_transfer-Leaves s a msg = tt

  pub stake-Leaves : (a : ℕ) (p : AccountId) → Leaves c (stake env a p c)
  unfolding stake
  stake-Leaves a p = ground arith

  pub unstake-Leaves : (a : ℕ) (p : AccountId) → Leaves c (unstake env a p c)
  unfolding unstake
  unstake-Leaves a p = ground arith

  pub unstake_all-Leaves : (p : AccountId) → Leaves c (unstake_all env p c)
  unfolding unstake_all
  unstake_all-Leaves p = ground arith

  pub withdraw_all-Leaves : (p : AccountId) → Leaves c (withdraw_all env p c)
  unfolding withdraw_all
  withdraw_all-Leaves p = ground arith

  pub handle_unstake-Leaves :
      (a : ℕ) (p : AccountId) (info : HumanReadableAccount) → Leaves c (handle_unstake a p info c)
  unfolding handle_unstake
  handle_unstake-Leaves a p info = refl

  pub transfer_near-Leaves : (a : AccountId) (n : ℕ) → Leaves c (transfer_near env a n c)
  unfolding transfer_near
  transfer_near-Leaves a n = ground arith

  pub transfer_stable_liquidity-Leaves :
      (p whole : ℕ) → Leaves c (transfer_stable_liquidity env p whole c)
  unfolding transfer_stable_liquidity
  transfer_stable_liquidity-Leaves p whole = ground arith

  pub handle_deposit_then_add_liquidity-Leaves :
      (p whole : ℕ) (deposits : AccountMap ℕ)
      → Leaves c (handle_deposit_then_add_liquidity env p whole deposits c)
  unfolding handle_deposit_then_add_liquidity
  handle_deposit_then_add_liquidity-Leaves p whole deposits = ground arith

  pub withdraw_stable_pool-Leaves :
      (percent : Option ℕ) → Leaves c (withdraw_stable_pool env percent c)
  unfolding withdraw_stable_pool
  withdraw_stable_pool-Leaves percent = ground arith

  pub handle_start_removing-Leaves :
      (percent : Option ℕ) (shares : ℕ) → Leaves c (handle_start_removing env percent shares c)
  unfolding handle_start_removing
  handle_start_removing-Leaves percent shares = ground arith

  pub handle_remove_deposit-Leaves : (l : List ℕ) → Leaves c (handle_remove_deposit env l c)
  unfolding handle_remove_deposit
  handle_remove_deposit-Leaves l = ground arith
