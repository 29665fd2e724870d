-- ===== src/Request/Booking.antt =====
-- The supply against the events, over the methods of src/lib.rs and src/treasury/ that change the
-- token.
use usn.Base.{
  ℕ, ◌+◌, String, ◌≡◌, inl, inr, not, Option, none, List, [], ◌∷◌, arith, ltb, leb, ◌==◌,
  Bool-cases, AccountId, require, Ensures, Ensures-bind, Ensures-of_ok, sub_checked,
}
use usn.Base.{not_positive, exceeded_commission, exchanges_to_nothing}
use usn.Base.Maps.{AccountMap}
use usn.Near.{Env, Promise, assert_one_yocto}
use usn.Event.{Event}
use usn.Event.Totals.{minted, burned, minted-append, burned-append}
use usn.Ft
use usn.Ft.{FungibleTokenFreeStorage, internal_deposit, internal_withdraw}
use usn.Ft.Ledger.{balance, Credited-of_ok, Debited-of_ok, balance-le-supply}
use usn.Ft.Books.{
  Booked, ft_transfer-Booked, ft_transfer_call-Booked, internal_ft_resolve_transfer-Booked,
}
use usn.Stable
use usn.Stable.{StableTreasury, assert_asset, assert_status, refund_commission}
use usn.Stable.Exchange.{Withdrawn, withdraw-Withdrawn}
use usn.Asset.{enabled, CommissionRate, new_rate}
use usn.Contract.{
  Contract, Outcome, ExchangeRate, assert_owner, abort_if_pause, abort_if_blacklisted,
}
use usn.Contract.Invariant.{IsValid}
use usn.Admin
use usn.Wallet
use usn.Oracle.{PriceData, exchange_rate}
use usn.Mint
use usn.Mint.{usn_for_near}
use usn.Redeem
use usn.Redeem.{asset_or_usdt}
use usn.Treasury
use usn.Treasury.{v1_parts, take_commissions, treasury, commission}
use usn.Pool.{from_config_with_assert, extend_all}
use usn.Liquidity
use usn.Liquidity.{transfer_tokens}
use usn.Base.Maps.{length}
use usn.Liquidity.Books.{transfer_tokens-Booked}
use usn.Removal

-- The supply after a call differs by what its events minted and burned, and by what was destroyed.
abbrev pub Balanced : ℕ → Contract → Contract → List Event → Type 0
Balanced gone c d events =
    d.token.total_supply + burned events + gone ≡ c.token.total_supply + minted events

abbrev pub Balances : {A : Type 0} → ℕ → Contract → Outcome A → Type 0
Balances gone c o = Balanced gone c o.0 o.1

module _ (env : Env) (c : Contract) (v : IsValid c) where
  pub ft_transfer-Balanced :
      (r : AccountId) (a : ℕ) (memo : Option String)
      → Ensures (Balances 0 c) (Wallet.ft_transfer env r a memo c)
  unfolding Wallet.ft_transfer
  ft_transfer-Balanced r a memo = Ensures-bind (Balances 0 c) (abort_if_pause c) _ λ _ _.
      Ensures-bind (Balances 0 c) (abort_if_blacklisted env.predecessor_account_id c) _ λ _ _.
        Ensures-bind (Balances 0 c) (Ft.ft_transfer env r a memo c.token) _ λ (t, e) h. omega (
          arith,
          (Ensures-of_ok (λ o. Booked c.token o.0 o.1) _
              (ft_transfer-Booked c.token v.token env r a memo) h).1,
        )

  pub ft_transfer_call-Balanced :
      (r : AccountId) (a : ℕ) (memo : Option String) (msg : String)
      → Ensures (Balances 0 c) (Wallet.ft_transfer_call env r a memo msg c)
  unfolding Wallet.ft_transfer_call
  ft_transfer_call-Balanced r a memo msg = Ensures-bind (Balances 0 c) (abort_if_pause c) _ λ _ _.
      Ensures-bind (Balances 0 c) (abort_if_blacklisted env.predecessor_account_id c) _ λ _ _.
        Ensures-bind (Balances 0 c) (Ft.ft_transfer_call env r a memo msg c.token) _ λ (t, e, p) h.
          omega (
            arith,
            (Ensures-of_ok
                (λ (o : FungibleTokenFreeStorage × List Event × Promise). Booked c.token o.0 o.1) _
                (ft_transfer_call-Booked c.token v.token env r a memo msg) h).1,
          )

  pub ft_resolve_transfer-Balanced :
      (s r : AccountId) (a : ℕ) → Ensures (Balances 0 c) (Wallet.ft_resolve_transfer env s r a c)
  unfolding Wallet.ft_resolve_transfer
  ft_resolve_transfer-Balanced s r a =
      Ensures-bind (Balances 0 c) (Ft.internal_ft_resolve_transfer env s r a c.token) _
        λ (t, e, (used, burnt)) h.
          let P = λ (o : FungibleTokenFreeStorage × List Event × (ℕ × ℕ)).
            Booked c.token o.0 o.1 × (o.2.1 ≡ 0) in
          let (booked, none_burnt) =
            Ensures-of_ok P _ (internal_ft_resolve_transfer-Booked c.token v.token env s r a) h in
          rw none_burnt (omega (arith, booked.1, minted-append e [], burned-append e []))

  pub destroy_black_funds-Balanced :
      (a : AccountId) → Ensures (Balances (balance a c.token) c) (Admin.destroy_black_funds env a c)
  unfolding Admin.destroy_black_funds
  destroy_black_funds-Balanced a = ground (arith, balance-le-supply a c.token v.token)

  finish_mint_by_near-Balanced :
      (near : ℕ) (rate : ExchangeRate) (ratio : ℕ)
      → Ensures (Balances 0 c) (Mint.finish_mint_by_near near rate ratio c)
  unfolding Mint.finish_mint_by_near
  finish_mint_by_near-Balanced near rate ratio =
      Ensures-bind (Balances 0 c) (usn_for_near near rate ratio) _ λ amount _.
        Ensures-bind (Balances 0 c) (require (not (amount == 0)) exchanges_to_nothing) _ λ _ _.
          Ensures-bind (Balances 0 c) (internal_deposit c.owner_id amount c.token) _
            λ t h. omega (arith, (Credited-of_ok c.owner_id amount c.token v.token h).supply)

  pub mint_with_price_callback-Balanced :
      (near ratio : ℕ) (price : PriceData)
      → Ensures (Balances 0 c) (Mint.mint_with_price_callback env near ratio price c)
  unfolding Mint.mint_with_price_callback
  mint_with_price_callback-Balanced near ratio price =
      Ensures-bind (Balances 0 c) (exchange_rate env price) _ λ rate _.
        Ensures-bind (Balances 0 c) (require (ltb 0 near) not_positive) _
          λ _ _. finish_mint_by_near-Balanced near rate ratio

  pub withdraw-Balanced :
      (asset : Option AccountId) (a : ℕ) → Ensures (Balances 0 c) (Redeem.withdraw env asset a c)
  unfolding Redeem.withdraw
  withdraw-Balanced asset a =
      let k = asset_or_usdt env asset in
      let me = env.predecessor_account_id in
      Ensures-bind (Balances 0 c) (assert_one_yocto env) _ λ _ _.
        Ensures-bind (Balances 0 c) (abort_if_pause c) _ λ _ _.
          Ensures-bind (Balances 0 c) (abort_if_blacklisted me c) _ λ _ _.
            Ensures-bind (Balances 0 c) (Stable.withdraw me k a c.stable_treasury c.token) _
              λ (s, t, e, out) h.
                let d =
                  Ensures-of_ok (λ o. Withdrawn me k a c.stable_treasury o.0 c.token o.1 o.2 o.3) _
                    (withdraw-Withdrawn me k a c.stable_treasury c.token v.treasury v.token) h in
                rw d.emitted (omega (arith, d.debited.supply))

  refund-Balanced :
      (a k : AccountId) (amount : ℕ)
      → Ensures
          (λ o. o.1.total_supply + burned o.2 ≡ c.token.total_supply + minted o.2)
          (Stable.refund a k amount c.stable_treasury c.token)
  unfolding Stable.refund
  refund-Balanced a k amount =
      let P = λ (o : StableTreasury × FungibleTokenFreeStorage × List Event).
        o.1.total_supply + burned o.2 ≡ c.token.total_supply + minted o.2 in
      Ensures-bind P (assert_asset k c.stable_treasury) _ λ _ _.
        Ensures-bind P (assert_status k enabled c.stable_treasury) _ λ _ _.
          Ensures-bind P (refund_commission k amount c.stable_treasury) _ λ s _.
            Ensures-bind P (internal_deposit a amount c.token) _
              λ t h. omega (arith, (Credited-of_ok a amount c.token v.token h).supply)

  pub handle_withdraw_refund-Balanced :
      (a k : AccountId) (amount : ℕ)
      → Ensures (Balances 0 c) (Redeem.handle_withdraw_refund env a k amount c)
  unfolding Redeem.handle_withdraw_refund
  handle_withdraw_refund-Balanced a k amount = elim (Bool-cases env.is_promise_success) [
    | inl paid ↦ rw paid (omega arith)
    | inr failed ↦ rw failed (
        Ensures-bind (Balances 0 c) (Stable.refund a k amount c.stable_treasury c.token) _
          λ (s, t, e) h.
            let log = Event.withdraw_refund_log amount a k ∷ [] in
            omega (
              arith,
              minted-append e log,
              burned-append e log,
              Ensures-of_ok
                  (λ (o : StableTreasury × FungibleTokenFreeStorage × List Event).
                    o.1.total_supply + burned o.2 ≡ c.token.total_supply + minted o.2)
                  _ (refund-Balanced a k amount) h,
            ))
  ]

  pub transfer_commission-Balanced :
      (a : AccountId) (amount : ℕ)
      → Ensures (Balances 0 c) (Treasury.transfer_commission env a amount c)
  unfolding Treasury.transfer_commission
  transfer_commission-Balanced a amount = Ensures-bind (Balances 0 c) (assert_owner env c) _ λ _ _.
      Ensures-bind (Balances 0 c) (require (ltb 0 amount) not_positive) _ λ _ _.
        Ensures-bind (Balances 0 c) (v1_parts c.commission amount) _ λ (usn, near) _.
          Ensures-bind (Balances 0 c) (sub_checked amount usn) _ λ usn_v2 _.
            Ensures-bind (Balances 0 c) (commission c) _ λ output _.
              Ensures-bind (Balances 0 c) (require (leb usn_v2 output.v2_usn) exceeded_commission) _
                λ _ _.
                  Ensures-bind (Balances 0 c) (sub_checked c.commission.usn usn) _ λ usn_left _.
                    Ensures-bind (Balances 0 c) (sub_checked c.commission.near near) _
                      λ near_left _.
                        Ensures-bind (Balances 0 c)
                          (take_commissions usn_v2 (treasury c) c.stable_treasury) _
                          λ s _.
                            Ensures-bind (Balances 0 c) (internal_deposit a amount c.token) _ λ t h.
                              omega (arith, (Credited-of_ok a amount c.token v.token h).supply)

  pub handle_start_transferring-Balanced :
      (pool_id whole : ℕ) (deposits : AccountMap ℕ)
      → Ensures (Balances 0 c) (Liquidity.handle_start_transferring env pool_id whole deposits c)
  unfolding Liquidity.handle_start_transferring
  handle_start_transferring-Balanced pool_id whole deposits =
      Ensures-bind (Balances 0 c) (from_config_with_assert env.network pool_id) _ λ pool _.
        Ensures-bind (Balances 0 c) (extend_all whole pool.tokens pool.decimals) _ λ amounts _.
          Ensures-bind (Balances 0 c)
            (transfer_tokens env pool.ref_id deposits amounts c.token none) _
            λ (t, e, ps) h.
              Ensures-bind (Balances 0 c) (sub_checked (length pool.tokens) 1) _ λ owed _.
                Ensures-bind (Balances 0 c) (sub_checked env.attached_deposit owed) _ λ attached _.
                  omega (
                    arith,
                    (Ensures-of_ok
                        (λ (o : FungibleTokenFreeStorage × List Event × Option Promise).
                          Booked c.token o.0 o.1)
                        _
                        (transfer_tokens-Booked env pool.ref_id deposits amounts c.token none
                          v.token)
                        h).1,
                  )

  pub finish_removing_with_burn-Balanced :
      (a : ℕ) → Ensures (Balances 0 c) (Removal.finish_removing_with_burn env a c)
  unfolding Removal.finish_removing_with_burn
  finish_removing_with_burn-Balanced a = elim (Bool-cases env.is_promise_success) [
    | inl success ↦ rw success (
        Ensures-bind (Balances 0 c) (internal_withdraw env.current_account_id a c.token) _
          λ t h. omega (arith, (Debited-of_ok env.current_account_id a c.token v.token h).supply))
    | inr failed ↦ rw failed (omega arith)
  ]

  -- A new rate is logged, and is neither a mint nor a burn.
  rate-logs :
      (k : AccountId) (r : CommissionRate)
      → Ensures
          (λ o. (minted o.1 ≡ 0) × (burned o.1 ≡ 0))
          (Stable.set_commission_rate k r c.stable_treasury)
  unfolding Stable.set_commission_rate new_rate
  rate-logs k r = ground arith

  pub set_commission_rate-Balanced :
      (k : AccountId) (r : CommissionRate)
      → Ensures (Balances 0 c) (Treasury.set_commission_rate env k r c)
  unfolding Treasury.set_commission_rate
  set_commission_rate-Balanced k r = Ensures-bind (Balances 0 c) (assert_owner env c) _ λ _ _.
      Ensures-bind (Balances 0 c) (Stable.set_commission_rate k r c.stable_treasury) _ λ (s, e) h.
        omega (
          arith,
          Ensures-of_ok (λ (o : StableTreasury × List Event). (minted o.1 ≡ 0) × (burned o.1 ≡ 0)) _
              (rate-logs k r) h,
        )
