-- ===== src/Admin/Funds.antt =====
-- `destroy_black_funds` of src/lib.rs.
use usn.Base.{ℕ, ◌+◌, ◌-◌, ◌<◌, ◌≡◌, arith, AccountId, same_account_refl, lt→ltb, le→leb, Returns}
use usn.Base.Maps.{insert, get-insert_self, get-insert_ne, insert-HasDistinctKeys, sum_of-insert}
use usn.Near.{Env}
use usn.Ft.Ledger
use usn.Ft.Ledger.{balance, Debited, balance-le-supply}
use usn.Contract.{Contract, banned_account, blacklist_status, assert_owner}
use usn.Admin.{destroy_black_funds}

module _ (c : Contract) (w : Ledger.IsValid c.token) (a : AccountId) where
  pub destroyed-IsValid :
      (supply : ℕ)
      → supply + balance a c.token ≡ c.token.total_supply
      → Ledger.IsValid
          (record c.token { accounts = insert a 0 c.token.accounts; total_supply = supply })
  destroyed-IsValid supply e = record {
    distinct = insert-HasDistinctKeys a 0 c.token.accounts w.distinct;
    conserved = omega (arith, sum_of-insert (λ b. b) a 0 c.token.accounts, w.conserved);
    bounded = omega (arith, w.bounded);
  }

  -- On a valid token, the owner can destroy the funds of a banned account that has any: the whole
  -- balance leaves the account and the supply, no other balance changes, and the token stays valid.
  pub destroy_black_funds-Debited :
      (env : Env)
      → env.predecessor_account_id ≡ c.owner_id
      → blacklist_status a c ≡ banned_account
      → 0 < balance a c.token
      → Returns (λ o. Debited a (balance a c.token) c.token o.0.token) (destroy_black_funds env a c)
  unfolding destroy_black_funds assert_owner
  destroy_black_funds-Debited env owner banned some_left =
      let low = balance-le-supply a c.token w in
      rw
        (
          owner,
          same_account_refl c.owner_id,
          banned,
          lt→ltb 0 (balance a c.token) some_left,
          le→leb (balance a c.token) c.token.total_supply low,
        )
        (record {
          valid = destroyed-IsValid (c.token.total_supply - balance a c.token) (omega arith);
          supply = omega arith;
          own = ground (arith, get-insert_self a 0 c.token.accounts);
          others = λ j away. ground (arith, get-insert_ne j a 0 c.token.accounts away);
        })
