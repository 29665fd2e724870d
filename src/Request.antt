-- ===== src/Request.antt =====
-- The methods of the contract that may change its state, as requests, and the steps that the
-- contract makes on them. A request that panics makes no step.
pub mod Unchanged
pub mod Safety
pub mod Access
pub mod Ownership
pub mod Supply
pub mod Owing
pub mod Refunds
pub mod Booking
pub mod Books
pub mod History
pub mod Handover
use usn.Base.{
  ℕ, zero, suc, ◌+◌, ◌-◌, ◌*◌, ◌/◌, ◌%◌, ◌^◌, ◌≤◌, ◌<◌, min, String, ◌≡◌, refl, sym, ap, ◌∙◌, ◌≢◌,
  ◌↔◌, ◌⊎◌, inl, inr, Bool, true, false, not, ◌&&◌, ◌||◌, Option, none, some, List, [], ◌∷◌, ◌++◌,
  map, arith, ltb, leb, ◌==◌, if◌then◌else◌, Bool-cases, Option-cases, AccountId, same_account,
  same_account_iff, same_account_refl, same_account_ne, ne-same_account, same_account_comm,
  not-same_account, lt→ltb, ltb→lt, le→leb, leb→le, ==→eq, not_lt→ltb, lt→leb, eq→==, ne→==,
  eq_of_some-eq, Result, ok, err, ◌>>=◌, ◌>>◌, require, or_panic, Ensures, Returns, steps-ok,
  ok-injective, Returns-ok, Returns-of_ok, require-true, Ensures-bind, Ensures-of_ok, Ensures-map,
  Ensures-intro, or_panic-ok, u64_bound, u128_bound, u256_bound, fit, add_u128, mul_u128,
  sub_checked, checked_add, checked_sub, pow10, fit-ok, fit_within, sub_checked-ok,
  sub_checked_within,
}
use usn.Base.Maps.{AccountMap}
use usn.Near.{Env}
use usn.Event.{Event}
use usn.Asset.{CommissionRate}
use usn.Contract
use usn.Contract.{Contract, Outcome}
use usn.Owner
use usn.Admin
use usn.Wallet
use usn.Oracle.{PriceData}
use usn.Mint
use usn.Redeem
use usn.Treasury
use usn.Staking
use usn.Staking.{HumanReadableAccount}
use usn.Liquidity
use usn.Removal

pub data Request : Type 0 where
  propose_new_owner add_to_blacklist remove_from_blacklist destroy_black_funds : AccountId → Request
  accept_ownership pause resume : Request
  extend_guardians remove_guardians : List AccountId → Request
  upgrade_name_symbol : String → String → Request
  upgrade_icon : String → Request
  ft_transfer : AccountId → ℕ → Option String → Request
  ft_transfer_call : AccountId → ℕ → Option String → String → Request
  ft_resolve_transfer : AccountId → AccountId → ℕ → Request
  ft_on_transfer : AccountId → ℕ → String → Request
  mint_by_near : ℕ → Request
  mint_with_price_callback : ℕ → ℕ → PriceData → Request
  handle_refund : ℕ → Request
  withdraw : Option AccountId → ℕ → Request
  handle_withdraw_refund : AccountId → AccountId → ℕ → Request
  stake unstake : ℕ → AccountId → Request
  unstake_all withdraw_all : AccountId → Request
  handle_unstake : ℕ → AccountId → HumanReadableAccount → Request
  add_stable_asset : AccountId → ℕ → Request
  enable_stable_asset disable_stable_asset : AccountId → Request
  set_commission_rate : AccountId → CommissionRate → Request
  transfer_commission transfer_near : AccountId → ℕ → Request
  transfer_stable_liquidity : ℕ → ℕ → Request
  handle_start_transferring handle_deposit_then_add_liquidity : ℕ → ℕ → AccountMap ℕ → Request
  withdraw_stable_pool : Option ℕ → Request
  handle_start_removing : Option ℕ → ℕ → Request
  handle_remove_deposit : List ℕ → Request
  finish_removing_with_burn : ℕ → Request

-- What a call leaves: the state, and the events and log lines.
abbrev pub Logged : Type 0
Logged = Contract × List Event

abbrev pub logged : {A : Type 0} → Result (Outcome A) → Result Logged
logged (ok o) = ok (o.0, o.1)
logged (err e) = err e

abbrev pub state_of : Result Logged → Result Contract
state_of (ok l) = ok l.0
state_of (err e) = err e

-- The state that a method leaves.
abbrev pub after : {A : Type 0} → Result (Outcome A) → Result Contract
after r = state_of (logged r)

unfoldable pub run_logged : Env → Request → Contract → Result Logged
run_logged env (Request.propose_new_owner a) c = logged (Owner.propose_new_owner env a c)
run_logged env (Request.add_to_blacklist a) c = logged (Admin.add_to_blacklist env a c)
run_logged env (Request.remove_from_blacklist a) c = logged (Admin.remove_from_blacklist env a c)
run_logged env (Request.destroy_black_funds a) c = logged (Admin.destroy_black_funds env a c)
run_logged env Request.accept_ownership c = logged (Owner.accept_ownership env c)
run_logged env Request.pause c = logged (Admin.pause env c)
run_logged env Request.resume c = logged (Admin.resume env c)
run_logged env (Request.extend_guardians l) c = logged (Owner.extend_guardians env l c)
run_logged env (Request.remove_guardians l) c = logged (Owner.remove_guardians env l c)
run_logged env (Request.upgrade_name_symbol n s) c = logged (Admin.upgrade_name_symbol env n s c)
run_logged env (Request.upgrade_icon i) c = logged (Admin.upgrade_icon env i c)
run_logged env (Request.ft_transfer r a memo) c = logged (Wallet.ft_transfer env r a memo c)
run_logged env (Request.ft_transfer_call r a memo msg) c =
    logged (Wallet.ft_transfer_call env r a memo msg c)
run_logged env (Request.ft_resolve_transfer s r a) c =
    logged (Wallet.ft_resolve_transfer env s r a c)
run_logged env (Request.ft_on_transfer s a msg) c = logged (Wallet.ft_on_transfer s a msg c)
run_logged env (Request.mint_by_near ratio) c = logged (Mint.mint_by_near env ratio c)
run_logged env (Request.mint_with_price_callback near ratio price) c =
    logged (Mint.mint_with_price_callback env near ratio price c)
run_logged env (Request.handle_refund a) c = logged (Mint.handle_refund env a c)
run_logged env (Request.withdraw asset a) c = logged (Redeem.withdraw env asset a c)
run_logged env (Request.handle_withdraw_refund a k amount) c =
    logged (Redeem.handle_withdraw_refund env a k amount c)
run_logged env (Request.stake a p) c = logged (Staking.stake env a p c)
run_logged env (Request.unstake a p) c = logged (Staking.unstake env a p c)
run_logged env (Request.unstake_all p) c = logged (Staking.unstake_all env p c)
run_logged env (Request.withdraw_all p) c = logged (Staking.withdraw_all env p c)
run_logged env (Request.handle_unstake a p info) c = logged (Staking.handle_unstake a p info c)
run_logged env (Request.add_stable_asset k d) c = logged (Treasury.add_stable_asset env k d c)
run_logged env (Request.enable_stable_asset k) c = logged (Treasury.enable_stable_asset env k c)
run_logged env (Request.disable_stable_asset k) c = logged (Treasury.disable_stable_asset env k c)
run_logged env (Request.set_commission_rate k r) c = logged (Treasury.set_commission_rate env k r c)
run_logged env (Request.transfer_commission a amount) c =
    logged (Treasury.transfer_commission env a amount c)
run_logged env (Request.transfer_near a amount) c = logged (Treasury.transfer_near env a amount c)
run_logged env (Request.transfer_stable_liquidity p whole) c =
    logged (Liquidity.transfer_stable_liquidity env p whole c)
run_logged env (Request.handle_start_transferring p whole deposits) c =
    logged (Liquidity.handle_start_transferring env p whole deposits c)
run_logged env (Request.handle_deposit_then_add_liquidity p whole deposits) c =
    logged (Liquidity.handle_deposit_then_add_liquidity env p whole deposits c)
run_logged env (Request.withdraw_stable_pool percent) c =
    logged (Removal.withdraw_stable_pool env percent c)
run_logged env (Request.handle_start_removing percent shares) c =
    logged (Removal.handle_start_removing env percent shares c)
run_logged env (Request.handle_remove_deposit amounts) c =
    logged (Removal.handle_remove_deposit env amounts c)
run_logged env (Request.finish_removing_with_burn a) c =
    logged (Removal.finish_removing_with_burn env a c)

unfoldable pub run : Env → Request → Contract → Result Contract
unfolding run_logged
run env request c = state_of (run_logged env request c)

-- The methods marked `#[private]`, which only the contract itself may call.
unfoldable pub is_private : Request → Bool
is_private (Request.ft_resolve_transfer s r a) = true
is_private (Request.mint_with_price_callback near ratio price) = true
is_private (Request.handle_refund a) = true
is_private (Request.handle_withdraw_refund a k amount) = true
is_private (Request.handle_unstake a p info) = true
is_private (Request.handle_start_transferring p whole deposits) = true
is_private (Request.handle_deposit_then_add_liquidity p whole deposits) = true
is_private (Request.handle_start_removing percent shares) = true
is_private (Request.handle_remove_deposit amounts) = true
is_private (Request.finish_removing_with_burn a) = true
is_private _ = false

-- A step: a request returns. The check that `#[private]` generates is the first premise.
pub data Step (c c' : Contract) : Type 0 where
  step :
      (env : Env) (request : Request)
      → (is_private request ≡ true → env.predecessor_account_id ≡ env.current_account_id)
      → run env request c ≡ ok c'
      → Step c c'

-- The states that the contract can come to.
pub data Reach (c : Contract) : Contract → Type 0 where
  here : Reach c c
  next : {d e : Contract} → Reach c d → Step d e → Reach c e
