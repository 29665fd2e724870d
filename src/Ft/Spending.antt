-- ===== src/Ft/Spending.antt =====
-- Who loses by a transfer of src/ft.rs.
use usn.Base.{
  ℕ, ◌≤◌, String, ◌≢◌, inl, inr, Option, List, arith, ltb, AccountId, Bool-cases, same_account,
  same_account_iff, ne-same_account, require, Ensures, Ensures-bind, Ensures-of_ok, Ensures-intro,
  sub_checked,
}
use usn.Base.{more_gas_required}
use usn.Near.{Env, Promise, assert_one_yocto}
use usn.Event.{Event}
use usn.Ft.{
  FungibleTokenFreeStorage, internal_transfer, internal_transfer_call, ft_transfer,
  ft_transfer_call, gas_for_ft_transfer_call,
}
use usn.Ft.Ledger.{IsValid, balance}
use usn.Ft.Transfer.{Moved, Moved-of_ok}

-- Only the one account has less than before, and the supply has not grown.
pub record Spends (s : AccountId) (t t' : FungibleTokenFreeStorage) : Type 0 where
  pub supply : t'.total_supply ≤ t.total_supply
  pub others : (j : AccountId) → j ≢ s → balance j t ≤ balance j t'

Moved-Spends :
    (s r : AccountId) (a : ℕ) (t t' : FungibleTokenFreeStorage) → Moved s r a t t' → Spends s t t'
Moved-Spends s r a t t' m = record {
  supply = omega (arith, m.supply);
  others = λ j js. elim (Bool-cases (same_account j r)) [
    | inl receiver ↦ rw ((same_account_iff j r).0 receiver) (omega (arith, m.received))
    | inr other ↦ omega (arith, m.others j js (ne-same_account j r other))
  ];
}

module _ (t : FungibleTokenFreeStorage) (v : IsValid t) where
  internal_transfer-Spends :
      (s r : AccountId) (a : ℕ) (memo : Option String)
      → Ensures (λ o. Spends s t o.0) (internal_transfer s r a memo t)
  internal_transfer-Spends s r a memo =
      Ensures-intro (λ o. Spends s t o.0) (internal_transfer s r a memo t)
        λ (t', e) h. Moved-Spends s r a t t' (Moved-of_ok s r a memo t v h).0

  internal_transfer_call-Spends :
      (env : Env) (s r : AccountId) (a gas : ℕ) (memo : Option String) (msg : String)
      → Ensures (λ o. Spends s t o.0) (internal_transfer_call env s r a gas memo msg t)
  unfolding internal_transfer_call
  internal_transfer_call-Spends env s r a gas memo msg =
      let P = λ (o : FungibleTokenFreeStorage × List Event × Promise). Spends s t o.0 in
      Ensures-bind P (require (ltb gas_for_ft_transfer_call gas) more_gas_required) _ λ _ _.
        Ensures-bind P (internal_transfer s r a memo t) _ λ (t', e) h.
          Ensures-bind P (sub_checked gas gas_for_ft_transfer_call) _
            λ _ _. Ensures-of_ok (λ o. Spends s t o.0) _ (internal_transfer-Spends s r a memo) h

  pub ft_transfer-Spends :
      (env : Env) (r : AccountId) (a : ℕ) (memo : Option String)
      → Ensures (λ o. Spends env.predecessor_account_id t o.0) (ft_transfer env r a memo t)
  unfolding ft_transfer
  ft_transfer-Spends env r a memo =
      Ensures-bind (λ o. Spends env.predecessor_account_id t o.0) (assert_one_yocto env) _
        λ _ _. internal_transfer-Spends env.predecessor_account_id r a memo

  pub ft_transfer_call-Spends :
      (env : Env) (r : AccountId) (a : ℕ) (memo : Option String) (msg : String)
      → Ensures (λ o. Spends env.predecessor_account_id t o.0) (ft_transfer_call env r a memo msg t)
  unfolding ft_transfer_call
  ft_transfer_call-Spends env r a memo msg =
      Ensures-bind (λ o. Spends env.predecessor_account_id t o.0) (assert_one_yocto env) _
        λ _ _.
          internal_transfer_call-Spends env env.predecessor_account_id r a env.prepaid_gas memo msg
