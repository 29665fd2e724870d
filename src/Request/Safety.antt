-- ===== src/Request/Safety.antt =====
-- The invariant of the contract over the steps and the reachable states.
use usn.Base.{String, ◌≡◌, sym, AccountId, Result, ok, err, Ensures, Ensures-of_ok}
use mathlib.Core.Path.{subst}
use usn.Near.{Env}
use usn.Contract.{Contract, Outcome, new}
use usn.Contract.Invariant.{IsValid, Keeps}
use usn.Request.{Request, run, after, Step, step, Reach, here, next}
use usn.Request.Unchanged
use usn.Request.Unchanged.{Leaves}
use usn.Keeps.Controls
use usn.Keeps.Controls.{new-IsValid}
use usn.Keeps.Funds
use usn.Keeps.Exchanges

module _ {A : Type 0} where
  after-Keeps : (r : Result (Outcome A)) → Keeps r → Ensures IsValid (after r)
  after-Keeps (ok o) h = h
  after-Keeps (err e) h = tt

  after-Leaves :
      {c : Contract} (r : Result (Outcome A)) → IsValid c → Leaves c r → Ensures IsValid (after r)
  after-Leaves (ok o) v h = subst IsValid (sym h) v
  after-Leaves (err e) v h = tt

-- Whatever the request and whoever sends it, a state that it leaves is valid.
pub run-IsValid :
    (env : Env) (request : Request) (c : Contract) → IsValid c → Ensures IsValid (run env request c)
unfolding run
run-IsValid env (Request.propose_new_owner a) c v =
    after-Keeps _ (Controls.propose_new_owner-Keeps env c v a)
run-IsValid env (Request.add_to_blacklist a) c v =
    after-Keeps _ (Controls.add_to_blacklist-Keeps env c v a)
run-IsValid env (Request.remove_from_blacklist a) c v =
    after-Keeps _ (Controls.remove_from_blacklist-Keeps env c v a)
run-IsValid env (Request.destroy_black_funds a) c v =
    after-Keeps _ (Funds.destroy_black_funds-Keeps env c v a)
run-IsValid env Request.accept_ownership c v =
    after-Keeps _ (Controls.accept_ownership-Keeps env c v)
run-IsValid env Request.pause c v = after-Keeps _ (Controls.pause-Keeps env c v)
run-IsValid env Request.resume c v = after-Keeps _ (Controls.resume-Keeps env c v)
run-IsValid env (Request.extend_guardians l) c v =
    after-Keeps _ (Controls.extend_guardians-Keeps env c v l)
run-IsValid env (Request.remove_guardians l) c v =
    after-Keeps _ (Controls.remove_guardians-Keeps env c v l)
run-IsValid env (Request.upgrade_name_symbol n s) c v =
    after-Keeps _ (Controls.upgrade_name_symbol-Keeps env c v n s)
run-IsValid env (Request.upgrade_icon i) c v = after-Keeps _ (Controls.upgrade_icon-Keeps env c v i)
run-IsValid env (Request.ft_transfer r a memo) c v =
    after-Keeps _ (Funds.ft_transfer-Keeps env c v r a memo)
run-IsValid env (Request.ft_transfer_call r a memo msg) c v =
    after-Keeps _ (Funds.ft_transfer_call-Keeps env c v r a memo msg)
run-IsValid env (Request.ft_resolve_transfer s r a) c v =
    after-Keeps _ (Funds.ft_resolve_transfer-Keeps env c v s r a)
run-IsValid env (Request.ft_on_transfer s a msg) c v =
    after-Leaves _ v (Unchanged.ft_on_transfer-Leaves env c s a msg)
run-IsValid env (Request.mint_by_near ratio) c v =
    after-Leaves _ v (Unchanged.mint_by_near-Leaves env c ratio)
run-IsValid env (Request.mint_with_price_callback near ratio price) c v =
    after-Keeps _ (Funds.mint_with_price_callback-Keeps env c v near ratio price)
run-IsValid env (Request.handle_refund a) c v =
    after-Leaves _ v (Unchanged.handle_refund-Leaves env c a)
run-IsValid env (Request.withdraw asset a) c v =
    after-Keeps _ (Funds.withdraw-Keeps env c v asset a)
run-IsValid env (Request.handle_withdraw_refund a k amount) c v =
    after-Keeps _ (Funds.handle_withdraw_refund-Keeps env c v a k amount)
run-IsValid env (Request.stake a p) c v = after-Leaves _ v (Unchanged.stake-Leaves env c a p)
run-IsValid env (Request.unstake a p) c v = after-Leaves _ v (Unchanged.unstake-Leaves env c a p)
run-IsValid env (Request.unstake_all p) c v =
    after-Leaves _ v (Unchanged.unstake_all-Leaves env c p)
run-IsValid env (Request.withdraw_all p) c v =
    after-Leaves _ v (Unchanged.withdraw_all-Leaves env c p)
run-IsValid env (Request.handle_unstake a p info) c v =
    after-Leaves _ v (Unchanged.handle_unstake-Leaves env c a p info)
run-IsValid env (Request.add_stable_asset k d) c v =
    after-Keeps _ (Controls.add_stable_asset-Keeps env c v k d)
run-IsValid env (Request.enable_stable_asset k) c v =
    after-Keeps _ (Controls.enable_stable_asset-Keeps env c v k)
run-IsValid env (Request.disable_stable_asset k) c v =
    after-Keeps _ (Controls.disable_stable_asset-Keeps env c v k)
run-IsValid env (Request.set_commission_rate k r) c v =
    after-Keeps _ (Controls.set_commission_rate-Keeps env c v k r)
run-IsValid env (Request.transfer_commission a amount) c v =
    after-Keeps _ (Exchanges.transfer_commission-Keeps env c v a amount)
run-IsValid env (Request.transfer_near a amount) c v =
    after-Leaves _ v (Unchanged.transfer_near-Leaves env c a amount)
run-IsValid env (Request.transfer_stable_liquidity p whole) c v =
    after-Leaves _ v (Unchanged.transfer_stable_liquidity-Leaves env c p whole)
run-IsValid env (Request.handle_start_transferring p whole deposits) c v =
    after-Keeps _ (Exchanges.handle_start_transferring-Keeps env c v p whole deposits)
run-IsValid env (Request.handle_deposit_then_add_liquidity p whole deposits) c v =
    after-Leaves _ v (Unchanged.handle_deposit_then_add_liquidity-Leaves env c p whole deposits)
run-IsValid env (Request.withdraw_stable_pool percent) c v =
    after-Leaves _ v (Unchanged.withdraw_stable_pool-Leaves env c percent)
run-IsValid env (Request.handle_start_removing percent shares) c v =
    after-Leaves _ v (Unchanged.handle_start_removing-Leaves env c percent shares)
run-IsValid env (Request.handle_remove_deposit amounts) c v =
    after-Leaves _ v (Unchanged.handle_remove_deposit-Leaves env c amounts)
run-IsValid env (Request.finish_removing_with_burn a) c v =
    after-Keeps _ (Exchanges.finish_removing_with_burn-Keeps env c v a)

Step-IsValid : {c d : Contract} → Step c d → IsValid c → IsValid d
Step-IsValid {c} (step env request allowed h) v =
    Ensures-of_ok IsValid (run env request c) (run-IsValid env request c v) h

-- From a valid state only valid states are reached.
pub Reach-IsValid : {c d : Contract} → Reach c d → IsValid c → IsValid d
Reach-IsValid here v = v
Reach-IsValid (next r s) v = Step-IsValid s (Reach-IsValid r v)

-- In every state that the methods and callbacks reach, in any order, from a new contract, the
-- supply is the sum of the balances and fits 128 bits, no account and no asset is listed twice,
-- every asset has its decimals and its two rates within their bounds, and the metadata is there.
pub new-Reach-IsValid :
    (env : Env) (spec icon : String) (owner : AccountId) {c d : Contract}
    → new env spec icon owner ≡ ok c
    → Reach c d
    → IsValid d
new-Reach-IsValid env spec icon owner made r =
    Reach-IsValid r (Ensures-of_ok IsValid _ (new-IsValid env spec icon owner) made)
