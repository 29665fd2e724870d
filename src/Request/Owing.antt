-- ===== src/Request/Owing.antt =====
-- What the contract of src/lib.rs owes in USN over a call of an outsider: the supply and the
-- commissions together.
use usn.Base.{
  ℕ, ◌+◌, ◌≤◌, ◌≡◌, ◌≢◌, ◌⊎◌, inl, inr, true, Option, arith, AccountId, Result, ok, err, Ensures,
  Ensures-of_ok, Ensures-intro,
}
use usn.Base.{Ensures-map}
use usn.Near.{Env}
use usn.Event.{withdraw_action}
use usn.Stable.Fees.{Charged, total_commission}
use usn.Contract.{Contract, Outcome}
use usn.Contract.Invariant.{IsValid}
use usn.Owner
use usn.Admin
use usn.Wallet
use usn.Redeem
use usn.Redeem.{asset_or_usdt}
use usn.Redeem.Success.{Paid, withdraw-returned_Paid}
use usn.Request.{Request, run, after, is_private}
use usn.Request.Access.{needs_owner, owner_only, IsRefused}
use usn.Request.Ownership.{Untouched, run-Untouched}
use usn.Request.Supply.{outsider_supply}

-- The USN of v2, in circulation or booked as commission.
abbrev pub owed_v2 : Contract → ℕ
owed_v2 c = c.token.total_supply + total_commission c.stable_treasury

abbrev pub owed : Contract → ℕ
owed c = owed_v2 c + c.commission.usn

-- An exchange of USN for an asset: its commission was booked and the whole amount burned.
pub record Exchanged (c d : Contract) : Type 0 where
  pub asset_id : AccountId
  pub amount : ℕ
  pub rest : ℕ
  pub charged : Charged asset_id amount rest withdraw_action c.stable_treasury d.stable_treasury
  pub burned : d.token.total_supply + amount ≡ c.token.total_supply

-- What a call of an outsider does to the treasury and the supply.
abbrev pub Effect : Contract → Contract → Type 0
Effect c d =
    ((d.stable_treasury ≡ c.stable_treasury) × (d.token.total_supply ≤ c.token.total_supply))
    ⊎ Exchanged c d

refused-Ensures : (P : Contract → Type 0) (r : Result Contract) → IsRefused r → Ensures P r
refused-Ensures P (ok d) h = absurd h
refused-Ensures P (err e) h = tt

after-Ensures :
    {A : Type 0} (P : Contract → Type 0) (r : Result (Outcome A))
    → Ensures (λ o. P o.0) r
    → Ensures P (after r)
after-Ensures P (ok o) h = h
after-Ensures P (err e) h = tt

module _ (env : Env) (c : Contract) (v : IsValid c) where
  withdraw-Effect :
      (asset : Option AccountId) (a : ℕ)
      → Ensures (λ o. Effect c o.0) (Redeem.withdraw env asset a c)
  withdraw-Effect asset a =
      let k = asset_or_usdt env asset in
      Ensures-map (Paid env k a c) (λ o. Effect c o.0) (Redeem.withdraw env asset a c)
        (λ o p. inr (record {
          asset_id = k;
          amount = a;
          rest = p.withdrawn.rest;
          charged = p.withdrawn.charged;
          burned = p.withdrawn.debited.supply;
        }))
        (withdraw-returned_Paid env asset a c v)

  -- Calls that move USN, pass the ownership on or pause leave the treasury alone.
  IsPlain : Request → Type 0
  IsPlain (Request.ft_transfer r a memo) = Unit
  IsPlain (Request.ft_transfer_call r a memo msg) = Unit
  IsPlain Request.accept_ownership = Unit
  IsPlain Request.pause = Unit
  IsPlain _ = ⊥

  plain-treasury :
      (request : Request)
      → IsPlain request
      → Ensures (λ d. d.stable_treasury ≡ c.stable_treasury) (run env request c)
  unfolding run IsPlain Wallet.ft_transfer Wallet.ft_transfer_call Owner.accept_ownership
      Admin.pause
  plain-treasury (Request.ft_transfer r a memo) plain = ground arith
  plain-treasury (Request.ft_transfer_call r a memo msg) plain = ground arith
  plain-treasury Request.accept_ownership plain = ground arith
  plain-treasury Request.pause plain = ground arith
  plain-treasury request plain = absurd (ground arith)

  module _ (stranger : env.predecessor_account_id ≢ c.owner_id)
      (other : env.predecessor_account_id ≢ env.current_account_id) where
    plain-Effect :
        (request : Request)
        → IsPlain request
        → (is_private request ≡ true → env.predecessor_account_id ≡ env.current_account_id)
        → Ensures (λ d. Effect c d) (run env request c)
    plain-Effect request plain allowed =
        Ensures-intro (λ d. Effect c d) (run env request c)
          λ d returned.
            let same =
              Ensures-of_ok (λ e. e.stable_treasury ≡ c.stable_treasury) _
                (plain-treasury request plain) returned in
            let less =
              Ensures-of_ok (λ e. e.token.total_supply ≤ c.token.total_supply) _
                (outsider_supply env c v request allowed stranger other) returned in
            inl (same, less)

    refused-Effect :
        (request : Request)
        → (is_private request ≡ true) ⊎ (needs_owner request ≡ true)
        → (is_private request ≡ true → env.predecessor_account_id ≡ env.current_account_id)
        → Ensures (λ d. Effect c d) (run env request c)
    refused-Effect request (inl private) allowed = absurd (other (allowed private))
    refused-Effect request (inr owner) allowed =
        refused-Ensures (λ d. Effect c d) (run env request c)
          (owner_only env c request owner stranger)

    pub outsider-Effect :
        (request : Request)
        → (is_private request ≡ true → env.predecessor_account_id ≡ env.current_account_id)
        → Ensures (λ d. Effect c d) (run env request c)
    unfolding run is_private needs_owner IsPlain Wallet.ft_on_transfer
    outsider-Effect (Request.withdraw asset a) allowed =
        after-Ensures (λ d. Effect c d) _ (withdraw-Effect asset a)
    outsider-Effect (Request.ft_on_transfer s a msg) allowed = tt
    outsider-Effect (Request.ft_transfer r a memo) allowed =
        plain-Effect (Request.ft_transfer r a memo) tt allowed
    outsider-Effect (Request.ft_transfer_call r a memo msg) allowed =
        plain-Effect (Request.ft_transfer_call r a memo msg) tt allowed
    outsider-Effect Request.accept_ownership allowed =
        plain-Effect Request.accept_ownership tt allowed
    outsider-Effect Request.pause allowed = plain-Effect Request.pause tt allowed
    outsider-Effect request allowed = refused-Effect request (ground arith) allowed

    -- In a valid state, a call that returns and comes from an account that is neither the owner nor
    -- the contract itself, and keeps to the methods that such an account may call, never makes the
    -- supply, the booked commissions of the assets and the USN commission of v1 grow together.
    pub outsider_owed :
        (request : Request)
        → (is_private request ≡ true → env.predecessor_account_id ≡ env.current_account_id)
        → Ensures (λ d. owed d ≤ owed c) (run env request c)
    outsider_owed request allowed =
        Ensures-intro (λ d. owed d ≤ owed c) (run env request c)
          λ d returned.
            let untouched =
              Ensures-of_ok (Untouched env c) _ (run-Untouched env c stranger request) returned in
            let v1 = untouched.commission in
            let effect = Ensures-of_ok (Effect c) _ (outsider-Effect request allowed) returned in
            elim effect [
              | inl (same, less) ↦ rw (v1, same) (omega (arith, less))
              | inr e ↦ rw v1 (omega (arith, e.charged.total, e.charged.split, e.burned))
            ]
