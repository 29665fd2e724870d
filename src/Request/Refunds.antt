-- ===== src/Request/Refunds.antt =====
-- The callback of a failed payment of src/lib.rs that comes after calls of other accounts.
use usn.Base.{
  ℕ, ◌+◌, ◌≤◌, ◌≡◌, sym, ap, ◌∙◌, ◌≢◌, inl, inr, true, false, List, Option, arith, AccountId,
  eq_of_some-eq, ok, Ensures-of_ok, Returns, Returns-ok,
}
use mathlib.Core.Path.{subst}
use usn.Near.{Env, Promise}
use usn.Event.{Event}
use usn.Ft.{FungibleTokenFreeStorage}
use usn.Ft.Ledger.{Credited}
use usn.Asset.{AssetInfo}
use usn.Stable.{StableTreasury}
use usn.Stable.Kept.{Kept, Kept-self, Kept-trans, Charged-Kept, after_charge, refund_still_covered}
use usn.Stable.Fees.{Charged-found, total_commission}
use usn.Contract.{Contract}
use usn.Contract.Invariant.{IsValid}
use usn.Redeem
use usn.Redeem.Success.{Paid, withdraw-returned_Paid}
use usn.Redeem.{asset_or_usdt, handle_withdraw_refund}
use usn.Request.{Request, run, after, is_private}
use usn.Request.Safety.{run-IsValid}
use usn.Request.Owing.{Effect, outsider-Effect, owed_v2}

-- Calls that returned, each by an account that is neither the owner of that moment nor the contract.
pub data Outsiders (c : Contract) : Contract → Type 0 where
  start : Outsiders c c
  call :
      {d e : Contract} (env : Env) (request : Request)
      → Outsiders c d
      → (is_private request ≡ true → env.predecessor_account_id ≡ env.current_account_id)
      → env.predecessor_account_id ≢ d.owner_id
      → env.predecessor_account_id ≢ env.current_account_id
      → run env request d ≡ ok e
      → Outsiders c e

-- What such calls keep: a valid state, the room in the supply, and what is booked for an asset.
record Pending (k : AccountId) (info : AssetInfo) (supply : ℕ) (d : Contract) : Type 0 where
  valid : IsValid d
  room : d.token.total_supply ≤ supply
  kept : Kept k info d.stable_treasury

Effect-Pending :
    (k : AccountId) (info : AssetInfo) (supply : ℕ) (d e : Contract)
    → IsValid e
    → Effect d e
    → Pending k info supply d
    → Pending k info supply e
Effect-Pending k info supply d e v (inl (same, less)) p = record {
  valid = v;
  room = omega (arith, p.room, less);
  kept = subst (Kept k info) (sym same) p.kept;
}
Effect-Pending k info supply d e v (inr x) p = record {
  valid = v;
  room = omega (arith, p.room, x.burned);
  kept =
      Kept-trans k info d.stable_treasury e.stable_treasury p.kept
        (Charged-Kept k x.asset_id p.kept.now p.kept.found x.charged);
}

Outsiders-Pending :
    {k : AccountId} {info : AssetInfo} {supply : ℕ} {c d : Contract}
    → Pending k info supply c
    → Outsiders c d
    → Pending k info supply d
Outsiders-Pending p start = p
Outsiders-Pending {k} {info} {supply} p
      (call {d = d} {e = e} env request before allowed stranger other returned) =
    let q = Outsiders-Pending p before in
    Effect-Pending k info supply d e
      (Ensures-of_ok IsValid _ (run-IsValid env request d q.valid) returned)
      (Ensures-of_ok (Effect d) _ (outsider-Effect env d q.valid stranger other request allowed)
        returned)
      q

run_of_withdraw :
    (env : Env) (asset : Option AccountId) (x : ℕ) (c : Contract) {d : Contract}
    {events : List Event} {payment : Promise}
    → Redeem.withdraw env asset x c ≡ ok (d, events, payment)
    → run env (Request.withdraw asset x) c ≡ ok d
unfolding run
run_of_withdraw env asset x c returned = ap after returned

-- In a valid state, when a call of withdraw returned and its payment failed, the callback returns
-- after any calls by accounts that are neither the owner nor the contract itself: it credits the
-- whole amount to the account that withdrew and touches no other balance, the token is valid, and
-- what the withdrawal took off the supply and the commissions of the assets together comes back
-- exactly.
pub late_refund :
    (env later : Env) (asset : Option AccountId) (x : ℕ) (c : Contract) {d e : Contract}
    {events : List Event} {payment : Promise}
    → IsValid c
    → Redeem.withdraw env asset x c ≡ ok (d, events, payment)
    → Outsiders d e
    → later.is_promise_success ≡ false
    → Returns
        (λ o.
          Credited env.predecessor_account_id x e.token o.0.token
          × (owed_v2 o.0 + owed_v2 d ≡ owed_v2 e + owed_v2 c))
        (handle_withdraw_refund later env.predecessor_account_id (asset_or_usdt env asset) x e)
unfolding handle_withdraw_refund
late_refund env later asset x c {d} {e} {events} {payment} v withdrawn others fails =
    let me = env.predecessor_account_id in
    let k = asset_or_usdt env asset in
    let w =
      (Ensures-of_ok (Paid env k x c) _ (withdraw-returned_Paid env asset x c v)
        withdrawn).withdrawn in
    let taken = w.charged in
    let p =
      Outsiders-Pending {supply = d.token.total_supply}
        (record {
          valid =
              Ensures-of_ok IsValid _ (run-IsValid env (Request.withdraw asset x) c v)
                (run_of_withdraw env asset x c withdrawn);
          room = omega arith;
          kept = Kept-self k (after_charge taken) d.stable_treasury (Charged-found taken);
        })
        others in
    let active = ap AssetInfo.status (eq_of_some-eq (sym taken.found ∙ w.found)) ∙ w.active in
    let ((s', t', more), refunded, (c', given)) =
      Returns-ok
        (λ (o : StableTreasury × FungibleTokenFreeStorage × List Event).
          Credited me x e.token o.1
          × (total_commission o.0 + taken.commission ≡ total_commission e.stable_treasury))
        _
        (refund_still_covered me k x e.stable_treasury e.token taken active p.kept p.valid.token
          (omega (arith, p.room, w.debited.supply, v.token.bounded))) in
    rw (fails, refunded) (c', omega (arith, c'.supply, given, taken.total, w.debited.supply))
