-- ===== src/Redeem/Refund.antt =====
-- A withdrawal of USN in src/lib.rs and the callback after its payment.
use usn.Base.{
  ℕ, ◌≡◌, refl, false, List, Option, AccountId, Ensures, Ensures-bind, Ensures-of_ok, Returns,
  Returns-ok,
}
use usn.Event.{Event}
use usn.Near.{Env, Promise, assert_one_yocto}
use usn.Ft.{FungibleTokenFreeStorage}
use usn.Ft.Ledger
use usn.Ft.Ledger.{balance}
use usn.Stable
use usn.Stable.{StableTreasury}
use usn.Stable.Exchange.{Withdrawn, withdraw-Withdrawn}
use usn.Stable.Backing.{refund-Withdrawn}
use usn.Contract.{Contract, Outcome, abort_if_pause, abort_if_blacklisted}
use usn.Contract.Invariant.{IsValid}
use usn.Redeem.{withdraw, handle_withdraw_refund, asset_or_usdt}

-- The state of the contract before an exchange and after it has been undone.
pub record Restored (c d : Contract) : Type 0 where
  pub treasury : d.stable_treasury ≡ c.stable_treasury
  pub token : Ledger.IsValid d.token
  pub supply : d.token.total_supply ≡ c.token.total_supply
  pub balances : (j : AccountId) → balance j d.token ≡ balance j c.token
  pub owner : d.owner_id ≡ c.owner_id
  pub status : d.status ≡ c.status

module _ (env later : Env) (asset : Option AccountId) (amount : ℕ) (c : Contract) (v : IsValid c)
    (fails : later.is_promise_success ≡ false) where
  refund_restores :
      (s : StableTreasury) (t : FungibleTokenFreeStorage) {events : List Event} {out : ℕ}
      → Withdrawn env.predecessor_account_id
          (asset_or_usdt env asset)
          amount
          c.stable_treasury
          s
          c.token
          t
          events
          out
      → Returns
          (λ o. Restored c o.0)
          (handle_withdraw_refund later env.predecessor_account_id
            (asset_or_usdt env asset)
            amount
            (record c { token = t; stable_treasury = s }))
  unfolding handle_withdraw_refund
  refund_restores s t d =
      let ((s', t', events), refunded, back) =
        Returns-ok
          (λ (o : StableTreasury × FungibleTokenFreeStorage × List Event).
            (o.0 ≡ c.stable_treasury)
            × Ledger.IsValid o.1
            × (o.1.total_supply ≡ c.token.total_supply)
            × ((j : AccountId) → balance j o.1 ≡ balance j c.token))
          (Stable.refund env.predecessor_account_id (asset_or_usdt env asset) amount s t)
          (refund-Withdrawn env.predecessor_account_id (asset_or_usdt env asset) amount
            c.stable_treasury c.token v.token d) in
      rw (fails, refunded)
        (record {
          treasury = back.0;
          token = back.1;
          supply = back.2;
          balances = back.3;
          owner = refl;
          status = refl;
        })

  -- In a valid state, when a call of withdraw returned and its payment failed, the callback right
  -- after it returns and restores the treasury, the supply and every balance to what they were
  -- before the withdrawal; the owner and the status are as they were, and the token is valid.
  pub failed_payment_reverts :
      Ensures
        (λ o.
          Returns
            (λ p. Restored c p.0)
            (handle_withdraw_refund later env.predecessor_account_id
              (asset_or_usdt env asset)
              amount
              o.0))
        (withdraw env asset amount c)
  unfolding withdraw
  failed_payment_reverts =
      let me = env.predecessor_account_id in
      let k = asset_or_usdt env asset in
      let P = λ (o : Outcome Promise).
        Returns (λ p. Restored c p.0) (handle_withdraw_refund later me k amount o.0) in
      Ensures-bind P (assert_one_yocto env) _ λ _ _. Ensures-bind P (abort_if_pause c) _ λ _ _.
        Ensures-bind P (abort_if_blacklisted me c) _ λ _ _.
          Ensures-bind P (Stable.withdraw me k amount c.stable_treasury c.token) _
            λ (s, t, e, out) h. refund_restores s t (
              Ensures-of_ok (λ o. Withdrawn me k amount c.stable_treasury o.0 c.token o.1 o.2 o.3) _
                (withdraw-Withdrawn me k amount c.stable_treasury c.token v.treasury v.token) h)
