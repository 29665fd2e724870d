-- ===== src/Liquidity/Books.antt =====
-- The token under the loop of src/treasury/transfer_stable_liquidity.rs, against its events.
use usn.Base.{
  ℕ, ◌-◌, inl, inr, not, Option, none, some, List, [], ◌∷◌, ◌++◌, arith, ltb, ◌==◌, Bool-cases,
  AccountId, same_account, Ensures, Ensures-bind, Ensures-of_ok, sub_checked,
}
use usn.Base.Maps.{AccountMap}
use usn.Near.{Env, Promise}
use usn.Event.{Event}
use usn.Event.Totals.{minted-append, burned-append}
use usn.Ft.{FungibleTokenFreeStorage, internal_deposit, internal_transfer_call}
use usn.Ft.Ledger
use usn.Ft.Ledger.{balance, Credited-of_ok}
use usn.Ft.Books.{Booked, internal_transfer_call-Booked}
use usn.Pool.{gas_for_ft_transfer_call}
use usn.Liquidity.{mint_missing, transfer_token, transfer_tokens, deposit_of, join}

abbrev IsBooked :
    {A : Type 0} → FungibleTokenFreeStorage → FungibleTokenFreeStorage × List Event × A → Type 0
IsBooked t o = Booked t o.0 o.1

-- Two calls one after the other.
Booked-append :
    (t t' t'' : FungibleTokenFreeStorage) (e e' : List Event)
    → Booked t t' e
    → Booked t' t'' e'
    → Booked t t'' (e ++ e')
Booked-append t t' t'' e e' b b' =
    (b'.0, omega (arith, b.1, b'.1, minted-append e e', burned-append e e'))

mint_missing-Booked :
    (a : AccountId) (amount : ℕ) (t : FungibleTokenFreeStorage)
    → Ledger.IsValid t
    → Ensures (λ o. Booked t o.0 o.1) (mint_missing a amount t)
unfolding mint_missing
mint_missing-Booked a amount t v = elim (Bool-cases (ltb (balance a t) amount)) [
  | inl less ↦ rw less (
      Ensures-bind (λ o. Booked t o.0 o.1) (sub_checked amount (balance a t)) _
        λ more _.
          Ensures-bind (λ o. Booked t o.0 o.1) (internal_deposit a more t) _
            λ t' h.
              let credited = Credited-of_ok a more t v h in
              (credited.valid, omega (arith, credited.supply)))
  | inr enough ↦ rw enough (v, omega arith)
]

transfer_token-Booked :
    (env : Env) (ref token_id : AccountId) (amount : ℕ) (t : FungibleTokenFreeStorage)
    → Ledger.IsValid t
    → Ensures (IsBooked t) (transfer_token env ref token_id amount t)
unfolding transfer_token
transfer_token-Booked env ref token_id amount t v =
    let usn_id = env.current_account_id in
    elim (Bool-cases (not (same_account token_id usn_id))) [
      | inl other ↦ rw other (v, omega arith)
      | inr usn ↦ rw usn (
          Ensures-bind (IsBooked t) (mint_missing usn_id amount t) _ λ (m, e) minting.
            let first =
              Ensures-of_ok (λ o. Booked t o.0 o.1) _ (mint_missing-Booked usn_id amount t v)
                minting in
            Ensures-bind (IsBooked t)
              (internal_transfer_call env usn_id ref amount gas_for_ft_transfer_call none "" m) _
              λ (t', e', p) moved. Booked-append t m t' e e' first (
                Ensures-of_ok (IsBooked m) _
                  (internal_transfer_call-Booked m first.0 env usn_id ref amount
                    gas_for_ft_transfer_call none "")
                  moved))
    ]

-- The whole loop leaves a valid token, whose supply grew by what its events minted.
pub transfer_tokens-Booked :
    (env : Env) (ref : AccountId) (deposits amounts : AccountMap ℕ) (t : FungibleTokenFreeStorage)
    (acc : Option Promise)
    → Ledger.IsValid t
    → Ensures (IsBooked t) (transfer_tokens env ref deposits amounts t acc)
unfolding transfer_tokens
transfer_tokens-Booked env ref deposits [] t acc v = (v, omega arith)
transfer_tokens-Booked env ref deposits ((k, amount) ∷ rest) t acc v =
    let missing = amount - deposit_of k deposits in
    elim (Bool-cases (not (missing == 0))) [
      | inl some_missing ↦ rw some_missing (
          Ensures-bind (IsBooked t) (transfer_token env ref k missing t) _ λ (t', e, p) h.
            let first =
              Ensures-of_ok (IsBooked t) _ (transfer_token-Booked env ref k missing t v) h in
            Ensures-bind (IsBooked t) (transfer_tokens env ref deposits rest t' (some (join acc p)))
              _
              λ (t'', e', ps) h'. Booked-append t t' t'' e e' first (
                Ensures-of_ok (IsBooked t') _
                  (transfer_tokens-Booked env ref deposits rest t' (some (join acc p)) first.0) h'))
      | inr covered ↦ rw covered (transfer_tokens-Booked env ref deposits rest t acc v)
    ]
