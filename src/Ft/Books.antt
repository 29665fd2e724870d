-- ===== src/Ft/Books.antt =====
-- The supply of the token of src/ft.rs against the events of a call.
use usn.Base.{
  ℕ, ◌+◌, String, ◌≡◌, Option, List, arith, ltb, AccountId, require, Ensures, Ensures-bind,
  Ensures-of_ok, Ensures-intro, sub_checked,
}
use usn.Base.{more_gas_required}
use usn.Near.{Env, Promise, assert_one_yocto}
use usn.Event.{Event}
use usn.Event.Totals.{minted, burned}
use usn.Ft.{
  FungibleTokenFreeStorage, internal_transfer, internal_transfer_call, ft_transfer,
  ft_transfer_call, internal_ft_resolve_transfer, return_unused, refund_unused,
  gas_for_ft_transfer_call,
}
use usn.Ft.Ledger.{IsValid}
use usn.Ft.Transfer.{Moved-of_ok}
use usn.Ft.Resolve.{Settled, internal_ft_resolve_transfer-Settles}

-- A valid token whose supply differs from the one before by what the events minted and burned.
abbrev pub Booked : FungibleTokenFreeStorage → FungibleTokenFreeStorage → List Event → Type 0
Booked t t' events = IsValid t' × (t'.total_supply + burned events ≡ t.total_supply + minted events)

module _ (t : FungibleTokenFreeStorage) (v : IsValid t) where
  internal_transfer-Booked :
      (s r : AccountId) (a : ℕ) (memo : Option String)
      → Ensures (λ o. Booked t o.0 o.1) (internal_transfer s r a memo t)
  internal_transfer-Booked s r a memo =
      Ensures-intro (λ o. Booked t o.0 o.1) (internal_transfer s r a memo t)
        λ (t', e) h.
          let (moved, _, _, _, only) = Moved-of_ok s r a memo t v h in
          rw only (moved.valid, omega (arith, moved.supply))

  pub internal_transfer_call-Booked :
      (env : Env) (s r : AccountId) (a gas : ℕ) (memo : Option String) (msg : String)
      → Ensures (λ o. Booked t o.0 o.1) (internal_transfer_call env s r a gas memo msg t)
  unfolding internal_transfer_call
  internal_transfer_call-Booked env s r a gas memo msg =
      let P = λ (o : FungibleTokenFreeStorage × List Event × Promise). Booked t o.0 o.1 in
      Ensures-bind P (require (ltb gas_for_ft_transfer_call gas) more_gas_required) _ λ _ _.
        Ensures-bind P (internal_transfer s r a memo t) _ λ (t', e) h.
          Ensures-bind P (sub_checked gas gas_for_ft_transfer_call) _
            λ _ _. Ensures-of_ok (λ o. Booked t o.0 o.1) _ (internal_transfer-Booked s r a memo) h

  pub ft_transfer-Booked :
      (env : Env) (r : AccountId) (a : ℕ) (memo : Option String)
      → Ensures (λ o. Booked t o.0 o.1) (ft_transfer env r a memo t)
  unfolding ft_transfer
  ft_transfer-Booked env r a memo =
      Ensures-bind (λ o. Booked t o.0 o.1) (assert_one_yocto env) _
        λ _ _. internal_transfer-Booked env.predecessor_account_id r a memo

  pub ft_transfer_call-Booked :
      (env : Env) (r : AccountId) (a : ℕ) (memo : Option String) (msg : String)
      → Ensures (λ o. Booked t o.0 o.1) (ft_transfer_call env r a memo msg t)
  unfolding ft_transfer_call
  ft_transfer_call-Booked env r a memo msg =
      Ensures-bind (λ o. Booked t o.0 o.1) (assert_one_yocto env) _
        λ _ _.
          internal_transfer_call-Booked env env.predecessor_account_id r a env.prepaid_gas memo msg

  -- A refund is logged, and is neither a mint nor a burn.
  resolve-logs :
      (env : Env) (s r : AccountId) (a : ℕ)
      → Ensures
          (λ o. (minted o.1 ≡ 0) × (burned o.1 ≡ 0))
          (internal_ft_resolve_transfer env s r a t)
  unfolding internal_ft_resolve_transfer return_unused refund_unused
  resolve-logs env s r a = ground arith

  pub internal_ft_resolve_transfer-Booked :
      (env : Env) (s r : AccountId) (a : ℕ)
      → Ensures (λ o. Booked t o.0 o.1 × (o.2.1 ≡ 0)) (internal_ft_resolve_transfer env s r a t)
  unfolding Settled
  internal_ft_resolve_transfer-Booked env s r a =
      Ensures-intro (λ o. Booked t o.0 o.1 × (o.2.1 ≡ 0)) (internal_ft_resolve_transfer env s r a t)
        λ o h.
          let (u, settled) =
            Ensures-of_ok (λ o. (u : ℕ) × Settled s r a u t o) _
              (internal_ft_resolve_transfer-Settles env s r a t v) h in
          let logs =
            Ensures-of_ok
              (λ (o : FungibleTokenFreeStorage × List Event × (ℕ × ℕ)).
                (minted o.1 ≡ 0) × (burned o.1 ≡ 0))
              _ (resolve-logs env s r a) h in
          ((settled.0.valid, omega (arith, settled.0.supply, logs.0, logs.1)), settled.2)
