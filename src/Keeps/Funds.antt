-- ===== src/Keeps/Funds.antt =====
-- The invariant over the methods of src/lib.rs that move funds.
use usn.Base.{
  ℕ, String, inl, inr, not, Option, arith, ltb, ◌==◌, Bool-cases, AccountId, require, or_panic,
  Ensures-bind, Ensures-of_ok, checked_sub,
}
use usn.Base.{
  assertion_failed, no_black_funds, failed_to_decrease_supply, exchanges_to_nothing, not_positive,
}
use usn.Base.{List}
use usn.Event.{Event}
use usn.Ft.{FungibleTokenFreeStorage}
use usn.Near.{Env, Promise, assert_one_yocto}
use usn.Ft
use usn.Ft.{
  FungibleTokenFreeStorage, ft_balance_of, internal_deposit, internal_withdraw,
  gas_for_ft_transfer_call,
}
use usn.Ft.Ledger
use usn.Ft.Ledger.{balance, balance-le-supply, Credited-of_ok, Debited-of_ok}
use usn.Ft.Books.{Booked, ft_transfer-Booked, ft_transfer_call-Booked}
use usn.Ft.Resolve.{internal_ft_resolve_transfer-valid}
use usn.Stable
use usn.Stable.{StableTreasury, decrease_commission}
use usn.Stable.Invariant
use usn.Stable.Exchange.{withdraw-IsValid, refund-IsValid}
use usn.Contract.{
  Contract, Outcome, ExchangeRate, assert_owner, abort_if_pause, abort_if_blacklisted, is_allowable,
  blacklist_status,
}
use usn.Contract.Invariant.{IsValid, Keeps, with_token, with_treasury}
use usn.Wallet
use usn.Admin.{destroy_black_funds}
use usn.Admin.Funds.{destroyed-IsValid}
use usn.Oracle.{PriceData, exchange_rate}
use usn.Mint.{usn_for_near, finish_mint_by_near, mint_with_price_callback}
use usn.Redeem
use usn.Redeem.{asset_or_usdt}

abbrev IsKept : {A : Type 0} → Outcome A → Type 0
IsKept o = IsValid o.0

module _ (env : Env) (c : Contract) (v : IsValid c) where
  pub ft_transfer-Keeps :
      (r : AccountId) (a : ℕ) (memo : Option String) → Keeps (Wallet.ft_transfer env r a memo c)
  unfolding Wallet.ft_transfer
  ft_transfer-Keeps r a memo = Ensures-bind IsKept (abort_if_pause c) _ λ _ _.
      Ensures-bind IsKept (abort_if_blacklisted env.predecessor_account_id c) _ λ _ _.
        Ensures-bind IsKept (Ft.ft_transfer env r a memo c.token) _ λ (t, e) h.
          with_token v
            (Ensures-of_ok (λ o. Booked c.token o.0 o.1) _
              (ft_transfer-Booked c.token v.token env r a memo) h).0

  pub ft_transfer_call-Keeps :
      (r : AccountId) (a : ℕ) (memo : Option String) (msg : String)
      → Keeps (Wallet.ft_transfer_call env r a memo msg c)
  unfolding Wallet.ft_transfer_call
  ft_transfer_call-Keeps r a memo msg = Ensures-bind IsKept (abort_if_pause c) _ λ _ _.
      Ensures-bind IsKept (abort_if_blacklisted env.predecessor_account_id c) _ λ _ _.
        Ensures-bind IsKept (Ft.ft_transfer_call env r a memo msg c.token) _ λ (t, e, p) h.
          with_token v
            (Ensures-of_ok
              (λ (o : FungibleTokenFreeStorage × List Event × Promise). Booked c.token o.0 o.1) _
              (ft_transfer_call-Booked c.token v.token env r a memo msg) h).0

  pub ft_resolve_transfer-Keeps :
      (s r : AccountId) (a : ℕ) → Keeps (Wallet.ft_resolve_transfer env s r a c)
  unfolding Wallet.ft_resolve_transfer
  ft_resolve_transfer-Keeps s r a =
      Ensures-bind IsKept (Ft.internal_ft_resolve_transfer env s r a c.token) _ λ (t, e, used) h.
        with_token v (
          Ensures-of_ok (λ o. Ledger.IsValid o.0) _
            (internal_ft_resolve_transfer-valid env s r a c.token v.token) h)

  pub destroy_black_funds-Keeps : (a : AccountId) → Keeps (destroy_black_funds env a c)
  unfolding destroy_black_funds
  destroy_black_funds-Keeps a = Ensures-bind IsKept (assert_owner env c) _ λ _ _.
      Ensures-bind IsKept (require (not (is_allowable (blacklist_status a c))) assertion_failed) _
        λ _ _. Ensures-bind IsKept (require (ltb 0 (balance a c.token)) no_black_funds) _ λ _ _.
          Ensures-bind IsKept
            (or_panic (checked_sub c.token.total_supply (balance a c.token))
              failed_to_decrease_supply)
            _
            λ supply h. with_token v (
              destroyed-IsValid c v.token a supply
                (ground (arith, balance-le-supply a c.token v.token)))

  pub finish_mint_by_near-Keeps :
      (near : ℕ) (rate : ExchangeRate) (ratio : ℕ) → Keeps (finish_mint_by_near near rate ratio c)
  unfolding finish_mint_by_near
  finish_mint_by_near-Keeps near rate ratio =
      Ensures-bind IsKept (usn_for_near near rate ratio) _ λ amount _.
        Ensures-bind IsKept (require (not (amount == 0)) exchanges_to_nothing) _ λ _ _.
          Ensures-bind IsKept (internal_deposit c.owner_id amount c.token) _
            λ t h. with_token v (Credited-of_ok c.owner_id amount c.token v.token h).valid

  pub mint_with_price_callback-Keeps :
      (near ratio : ℕ) (price : PriceData) → Keeps (mint_with_price_callback env near ratio price c)
  unfolding mint_with_price_callback
  mint_with_price_callback-Keeps near ratio price =
      Ensures-bind IsKept (exchange_rate env price) _ λ rate _.
        Ensures-bind IsKept (require (ltb 0 near) not_positive) _
          λ _ _. finish_mint_by_near-Keeps near rate ratio

  pub withdraw-Keeps : (asset : Option AccountId) (a : ℕ) → Keeps (Redeem.withdraw env asset a c)
  unfolding Redeem.withdraw
  withdraw-Keeps asset a =
      let k = asset_or_usdt env asset in
      let me = env.predecessor_account_id in
      Ensures-bind IsKept (assert_one_yocto env) _ λ _ _.
        Ensures-bind IsKept (abort_if_pause c) _ λ _ _.
          Ensures-bind IsKept (abort_if_blacklisted me c) _ λ _ _.
            Ensures-bind IsKept (Stable.withdraw me k a c.stable_treasury c.token) _
              λ (s, t, e, out) h.
                let kept =
                  Ensures-of_ok (λ o. Invariant.IsValid o.0 × Ledger.IsValid o.1) _
                    (withdraw-IsValid me k a c.stable_treasury c.token v.treasury v.token) h in
                with_treasury (with_token v kept.1) kept.0

  pub handle_withdraw_refund-Keeps :
      (a k : AccountId) (amount : ℕ) → Keeps (Redeem.handle_withdraw_refund env a k amount c)
  unfolding Redeem.handle_withdraw_refund
  handle_withdraw_refund-Keeps a k amount = elim (Bool-cases env.is_promise_success) [
    | inl paid ↦ rw paid v
    | inr failed ↦ rw failed (
        Ensures-bind IsKept (Stable.refund a k amount c.stable_treasury c.token) _ λ (s, t, e) h.
          let kept =
            Ensures-of_ok (λ o. Invariant.IsValid o.0 × Ledger.IsValid o.1) _
              (refund-IsValid a k amount c.stable_treasury c.token v.treasury v.token) h in
          with_treasury (with_token v kept.1) kept.0)
  ]
