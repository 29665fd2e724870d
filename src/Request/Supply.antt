-- ===== src/Request/Supply.antt =====
-- The supply and the balances over a call of any method of src/lib.rs by an outsider.
use usn.Base.{
  ℕ, ◌≤◌, String, ◌≡◌, ◌≢◌, ◌⊎◌, inl, inr, true, Option, arith, AccountId, Result, ok, err, Ensures,
  Ensures-bind, Ensures-of_ok, Ensures-map, List,
}
use usn.Near.{Env, Promise}
use usn.Ft
use usn.Event.{Event}
use usn.Ft.{FungibleTokenFreeStorage}
use usn.Ft.Ledger.{balance}
use usn.Ft.Spending.{Spends, ft_transfer-Spends, ft_transfer_call-Spends}
use usn.Contract.{Contract, Outcome, abort_if_pause, abort_if_blacklisted}
use usn.Contract.Invariant.{IsValid}
use usn.Owner
use usn.Admin
use usn.Wallet
use usn.Redeem
use usn.Redeem.{asset_or_usdt}
use usn.Redeem.Success.{Paid, withdraw-returned_Paid}
use usn.Request.{Request, run, after, is_private}
use usn.Request.Access.{needs_owner, owner_only, IsRefused}

abbrev Harms : Env → Contract → Contract → Type 0
Harms env c d = Spends env.predecessor_account_id c.token d.token

refused-Harms :
    (env : Env) (c : Contract) (r : Result Contract) → IsRefused r → Ensures (Harms env c) r
refused-Harms env c (ok d) h = absurd h
refused-Harms env c (err e) h = tt

after-Harms :
    {A : Type 0} (env : Env) (c : Contract) (r : Result (Outcome A))
    → Ensures (λ o. Harms env c o.0) r
    → Ensures (Harms env c) (after r)
after-Harms env c (ok o) h = h
after-Harms env c (err e) h = tt

same_token-Spends : (env : Env) (c d : Contract) → d.token ≡ c.token → Harms env c d
same_token-Spends env c d same = record {
  supply = rw same (omega arith);
  others = λ j away. rw same (omega arith);
}

module _ (env : Env) (c : Contract) (v : IsValid c) where
  accept_ownership-token : Ensures (λ o. o.0.token ≡ c.token) (Owner.accept_ownership env c)
  unfolding Owner.accept_ownership
  accept_ownership-token = ground arith

  pause-token : Ensures (λ o. o.0.token ≡ c.token) (Admin.pause env c)
  unfolding Admin.pause
  pause-token = ground arith

  ft_transfer-Harms :
      (r : AccountId) (a : ℕ) (memo : Option String)
      → Ensures (λ o. Harms env c o.0) (Wallet.ft_transfer env r a memo c)
  unfolding Wallet.ft_transfer
  ft_transfer-Harms r a memo =
      let P = λ (o : Outcome (Unit {0})). Harms env c o.0 in
      Ensures-bind P (abort_if_pause c) _ λ _ _.
        Ensures-bind P (abort_if_blacklisted env.predecessor_account_id c) _ λ _ _.
          Ensures-bind P (Ft.ft_transfer env r a memo c.token) _ λ (t, e) h.
            Ensures-of_ok (λ o. Spends env.predecessor_account_id c.token o.0) _
              (ft_transfer-Spends c.token v.token env r a memo) h

  ft_transfer_call-Harms :
      (r : AccountId) (a : ℕ) (memo : Option String) (msg : String)
      → Ensures (λ o. Harms env c o.0) (Wallet.ft_transfer_call env r a memo msg c)
  unfolding Wallet.ft_transfer_call
  ft_transfer_call-Harms r a memo msg =
      let P = λ (o : Outcome Promise). Harms env c o.0 in
      Ensures-bind P (abort_if_pause c) _ λ _ _.
        Ensures-bind P (abort_if_blacklisted env.predecessor_account_id c) _ λ _ _.
          Ensures-bind P (Ft.ft_transfer_call env r a memo msg c.token) _ λ (t, e, p) h.
            Ensures-of_ok
              (λ (o : FungibleTokenFreeStorage × List Event × Promise).
                Spends env.predecessor_account_id c.token o.0)
              _ (ft_transfer_call-Spends c.token v.token env r a memo msg) h

  withdraw-Harms :
      (asset : Option AccountId) (a : ℕ)
      → Ensures (λ o. Harms env c o.0) (Redeem.withdraw env asset a c)
  withdraw-Harms asset a =
      Ensures-map (Paid env (asset_or_usdt env asset) a c) (λ o. Harms env c o.0)
        (Redeem.withdraw env asset a c)
        (λ o p.
          let d = p.withdrawn.debited in
          record {
            supply = omega (arith, d.supply);
            others = λ j away. omega (arith, d.others j away);
          })
        (withdraw-returned_Paid env asset a c v)

  private_or_owner :
      (request : Request)
      → (is_private request ≡ true) ⊎ (needs_owner request ≡ true)
      → (is_private request ≡ true → env.predecessor_account_id ≡ env.current_account_id)
      → env.predecessor_account_id ≢ c.owner_id
      → env.predecessor_account_id ≢ env.current_account_id
      → Ensures (Harms env c) (run env request c)
  private_or_owner request (inl private) allowed stranger other = absurd (other (allowed private))
  private_or_owner request (inr owner) allowed stranger other =
      refused-Harms env c (run env request c) (owner_only env c request owner stranger)

  -- In a valid state, a call that returns and comes from an account that is neither the owner nor
  -- the contract itself.
  pub outsider-Spends :
      (request : Request)
      → (is_private request ≡ true → env.predecessor_account_id ≡ env.current_account_id)
      → env.predecessor_account_id ≢ c.owner_id
      → env.predecessor_account_id ≢ env.current_account_id
      → Ensures (λ d. Spends env.predecessor_account_id c.token d.token) (run env request c)
  unfolding run is_private needs_owner Owner.accept_ownership Admin.pause Wallet.ft_on_transfer
  outsider-Spends (Request.ft_transfer r a memo) allowed stranger other =
      after-Harms env c _ (ft_transfer-Harms r a memo)
  outsider-Spends (Request.ft_transfer_call r a memo msg) allowed stranger other =
      after-Harms env c _ (ft_transfer_call-Harms r a memo msg)
  outsider-Spends (Request.withdraw asset a) allowed stranger other =
      after-Harms env c _ (withdraw-Harms asset a)
  outsider-Spends Request.accept_ownership allowed stranger other = after-Harms env c _ (
      Ensures-map _ (λ o. Harms env c o.0) (Owner.accept_ownership env c)
        (λ o same. same_token-Spends env c o.0 same) accept_ownership-token)
  outsider-Spends Request.pause allowed stranger other = after-Harms env c _ (
      Ensures-map _ (λ o. Harms env c o.0) (Admin.pause env c)
        (λ o same. same_token-Spends env c o.0 same) pause-token)
  outsider-Spends (Request.ft_on_transfer s a msg) allowed stranger other = tt
  outsider-Spends request allowed stranger other =
      private_or_owner request (ground arith) allowed stranger other

  -- In a valid state, a call that returns and comes from an account that is neither the owner nor
  -- the contract itself, and keeps to the methods that such an account may call, never makes the
  -- supply grow.
  pub outsider_supply :
      (request : Request)
      → (is_private request ≡ true → env.predecessor_account_id ≡ env.current_account_id)
      → env.predecessor_account_id ≢ c.owner_id
      → env.predecessor_account_id ≢ env.current_account_id
      → Ensures (λ d. d.token.total_supply ≤ c.token.total_supply) (run env request c)
  outsider_supply request allowed stranger other =
      Ensures-map _ (λ d. d.token.total_supply ≤ c.token.total_supply) (run env request c)
        (λ d spends. spends.supply) (outsider-Spends request allowed stranger other)

  -- In a valid state, a call that returns and comes from an account that is neither the owner nor
  -- the contract itself, and keeps to the methods that such an account may call, never makes the
  -- balance of another account fall.
  pub outsider_balances :
      (request : Request) (holder : AccountId)
      → holder ≢ env.predecessor_account_id
      → (is_private request ≡ true → env.predecessor_account_id ≡ env.current_account_id)
      → env.predecessor_account_id ≢ c.owner_id
      → env.predecessor_account_id ≢ env.current_account_id
      → Ensures (λ d. balance holder c.token ≤ balance holder d.token) (run env request c)
  outsider_balances request holder away allowed stranger other =
      Ensures-map _ (λ d. balance holder c.token ≤ balance holder d.token) (run env request c)
        (λ d spends. spends.others holder away) (outsider-Spends request allowed stranger other)
