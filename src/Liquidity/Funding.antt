-- ===== src/Liquidity/Funding.antt =====
-- The transfer of USN to ref.finance by src/treasury/transfer_stable_liquidity.rs.
use usn.Base.{
  ℕ, ◌+◌, ◌-◌, ◌≤◌, ◌<◌, ◌≡◌, sym, ◌∙◌, ◌≢◌, none, List, arith, AccountId, same_account_refl,
  Returns, Returns-ok, u128_bound,
}
use usn.Near.{Env}
use usn.Event.{Event}
use usn.Ft.{FungibleTokenFreeStorage, internal_transfer_call}
use usn.Ft.Ledger
use usn.Ft.Ledger.{balance, Credited}
use usn.Ft.Transfer.{Moved, Transferred, internal_transfer-Moved}
use usn.Liquidity.{transfer_token}
use usn.Liquidity.Missing.{mint_missing-Credited}

-- The amount went to the receiver, and the sender's account gave what it held of it; the rest is new.
pub record Funded (sender receiver : AccountId) (amount : ℕ) (t t' : FungibleTokenFreeStorage)
    : Type 0 where
  pub valid : Ledger.IsValid t'
  pub supply : t'.total_supply ≡ t.total_supply + (amount - balance sender t)
  pub paid : balance sender t' ≡ balance sender t - amount
  pub received : balance receiver t' ≡ balance receiver t + amount
  pub others : (j : AccountId) → j ≢ sender → j ≢ receiver → balance j t' ≡ balance j t

Funded-of_parts :
    (s r : AccountId) (a : ℕ) (t m t' : FungibleTokenFreeStorage)
    → s ≢ r
    → Credited s (a - balance s t) t m
    → Moved s r a m t'
    → Funded s r a t t'
Funded-of_parts s r a t m t' ne c moved = record {
  valid = moved.valid;
  supply = omega (arith, moved.supply, c.supply);
  paid = omega (arith, moved.paid, c.own);
  received = omega (arith, moved.received, c.others r (λ e. ne (sym e)));
  others = λ j js jr. moved.others j js jr ∙ c.others j js;
}

-- On a valid token with room in the supply, the transfer of a positive amount of USN from the
-- contract to another account returns: the receiver gains the amount, the balance of the contract
-- falls by it or to nothing, the supply grows by what the contract lacked, no other balance
-- changes, and the token stays valid.
pub transfer_token-Funded :
    (env : Env) (ref_id : AccountId) (amount : ℕ) (t : FungibleTokenFreeStorage)
    → Ledger.IsValid t
    → env.current_account_id ≢ ref_id
    → 0 < amount
    → t.total_supply + (amount - balance env.current_account_id t) < u128_bound
    → Returns
        (λ o. Funded env.current_account_id ref_id amount t o.0)
        (transfer_token env ref_id env.current_account_id amount t)
unfolding transfer_token internal_transfer_call Transferred
transfer_token-Funded env ref_id amount t v ne pos room =
    let me = env.current_account_id in
    let ((m, e), minted, (c, covered)) =
      Returns-ok
        (λ (o : FungibleTokenFreeStorage × List Event).
          Credited me (amount - balance me t) t o.0 × (amount ≤ balance me o.0))
        _ (mint_missing-Credited me amount t v room) in
    let ((t', events), sent, (moved, _)) =
      Returns-ok (Transferred me ref_id amount none m) _
        (internal_transfer-Moved me ref_id amount none m c.valid ne pos covered) in
    rw (same_account_refl me, minted, sent) (Funded-of_parts me ref_id amount t m t' ne c moved)
