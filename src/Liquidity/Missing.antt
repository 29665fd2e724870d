-- ===== src/Liquidity/Missing.antt =====
-- The USN that src/treasury/transfer_stable_liquidity.rs mints for a transfer to ref.finance.
use usn.Base.{
  ℕ, ◌+◌, ◌-◌, ◌≤◌, ◌<◌, ◌≡◌, refl, arith, AccountId, lt→ltb, not_lt→ltb, Returns, Returns-ok,
  sub_checked_within, u128_bound,
}
use native.Mathlib.Decide.{dec_lt}
use usn.Ft.{FungibleTokenFreeStorage}
use usn.Ft.Ledger
use usn.Ft.Ledger.{balance, Credited, internal_deposit-Credited}
use usn.Liquidity.{mint_missing}

-- Nothing credited.
same-Credited : (k : AccountId) (t : FungibleTokenFreeStorage) → Ledger.IsValid t → Credited k 0 t t
same-Credited k t w = record {
  valid = w;
  supply = omega arith;
  own = omega arith;
  others = λ j _. refl;
}

-- On a valid token with room in the supply, just what the account lacks of the amount is minted to
-- it, and nothing where it lacks nothing; afterwards it holds at least the amount.
pub mint_missing-Credited :
    (usn_id : AccountId) (amount : ℕ) (t : FungibleTokenFreeStorage)
    → Ledger.IsValid t
    → t.total_supply + (amount - balance usn_id t) < u128_bound
    → Returns
        (λ o. Credited usn_id (amount - balance usn_id t) t o.0 × (amount ≤ balance usn_id o.0))
        (mint_missing usn_id amount t)
unfolding mint_missing
mint_missing-Credited usn_id amount t w room = elim (dec_lt (balance usn_id t) amount) [
  | yes lacks ↦
      let (t', minted, c) =
        Returns-ok (Credited usn_id (amount - balance usn_id t) t) _
          (internal_deposit-Credited usn_id (amount - balance usn_id t) t w room) in
      rw
        (
          lt→ltb (balance usn_id t) amount lacks,
          sub_checked_within amount (balance usn_id t) (omega arith),
          minted,
        )
        (c, omega (arith, c.own))
  | no enough ↦
      let none_lacks : amount - balance usn_id t ≡ 0 = omega arith in
      rw (not_lt→ltb (balance usn_id t) amount enough, none_lacks)
        (same-Credited usn_id t w, omega arith)
]
