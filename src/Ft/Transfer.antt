-- ===== src/Ft/Transfer.antt =====
-- Transfers of src/ft.rs: who pays, who receives, and what is refused.
use usn.Base.{
  ℕ, ◌+◌, ◌≤◌, ◌<◌, String, ◌≡◌, refl, sym, ◌∙◌, ◌≢◌, not, Option, List, [], ◌∷◌, arith, ltb,
  AccountId, same_account, same_account_ne, not-same_account, lt→ltb, ltb→lt, ok, require, Returns,
  steps-ok, Returns-ok, require-true,
}
use usn.Base.{same_sender_receiver, not_positive}
use usn.Event.{Event}
use usn.Ft.{FungibleTokenFreeStorage, internal_deposit, internal_withdraw, internal_transfer}
use usn.Ft.Ledger.{
  IsValid, balance, Credited, Debited, Credited-of_ok, Debited-of_ok, internal_deposit-Credited,
  internal_withdraw-Debited,
}

-- An amount has moved from one account to another, and nothing else has changed.
pub record Moved (s r : AccountId) (a : ℕ) (t t' : FungibleTokenFreeStorage) : Type 0 where
  pub valid : IsValid t'
  pub supply : t'.total_supply ≡ t.total_supply
  pub paid : balance s t' + a ≡ balance s t
  pub received : balance r t' ≡ balance r t + a
  pub others : (j : AccountId) → j ≢ s → j ≢ r → balance j t' ≡ balance j t

module _ (s r : AccountId) (a : ℕ) (memo : Option String) (t : FungibleTokenFreeStorage) where
  Moved-of_parts :
      (p t' : FungibleTokenFreeStorage)
      → s ≢ r
      → Debited s a t p
      → Credited r a p t'
      → Moved s r a t t'
  Moved-of_parts p t' ne d c = record {
    valid = c.valid;
    supply = omega (arith, d.supply, c.supply);
    paid = omega (arith, d.own, c.others s ne);
    received = omega (arith, c.own, d.others r (λ e. ne (sym e)));
    others = λ j js jr. c.others j jr ∙ d.others j js;
  }

  -- What a transfer that returned has done.
  unfoldable pub Transferred : FungibleTokenFreeStorage × List Event → Type 0
  Transferred (t', events) = Moved s r a t t' × (events ≡ Event.ft_transfer s r a memo ∷ [])

  -- On a valid token, a transfer between different accounts of a positive amount that the sender
  -- holds returns, moves exactly the amount, emits one transfer event, and leaves the supply, every
  -- other balance and the validity as they were.
  pub internal_transfer-Moved :
      IsValid t
      → s ≢ r
      → 0 < a
      → a ≤ balance s t
      → Returns Transferred (internal_transfer s r a memo t)
  unfolding internal_transfer Transferred
  internal_transfer-Moved v ne pos cover =
      let (p, withdrawn, d) =
        Returns-ok (Debited s a t) _ (internal_withdraw-Debited s a t v cover) in
      let (t', deposited, c) =
        Returns-ok (Credited r a p) _
          (internal_deposit-Credited r a p d.valid (omega (arith, v.bounded, d.supply))) in
      rw (same_account_ne s r ne, lt→ltb 0 a pos, withdrawn, deposited)
        (Moved-of_parts p t' ne d c, refl)

  -- A transfer that returns met all three conditions.
  pub Moved-of_ok :
      {t' : FungibleTokenFreeStorage} {events : List Event}
      → IsValid t
      → internal_transfer s r a memo t ≡ ok (t', events)
      → Moved s r a t t'
        × (s ≢ r)
        × (0 < a)
        × (a ≤ balance s t)
        × (events ≡ Event.ft_transfer s r a memo ∷ [])
  unfolding internal_transfer
  Moved-of_ok {t'} {events} v h =
      let (_, different, h₁) =
        steps-ok (require (not (same_account s r)) same_sender_receiver) _ h in
      let (_, positive, h₂) = steps-ok (require (ltb 0 a) not_positive) _ h₁ in
      let (p, withdrawn, h₃) = steps-ok (internal_withdraw s a t) _ h₂ in
      let (q, deposited, h₄) = steps-ok (internal_deposit r a p) _ h₃ in
      let ne = not-same_account s r (require-true _ _ different) in
      let d = Debited-of_ok s a t v withdrawn in
      let c = Credited-of_ok r a p d.valid deposited in
      let same : q ≡ t' = cc in
      (
        rw (← same) (Moved-of_parts p q ne d c),
        ne,
        ltb→lt 0 a (require-true _ _ positive),
        omega (arith, d.own),
        cc,
      )
