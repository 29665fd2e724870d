-- ===== src/Ft/Ledger.antt =====
-- The invariant of the token of src/ft.rs, and its balances and supply under each operation.
use usn.Base.{
  ℕ, ◌+◌, ◌-◌, ◌<◌, ◌≤◌, ◌≡◌, ◌≢◌, ◌⊎◌, refl, arith, AccountId, ok, err, Returns, ok-injective, sym,
  ◌∙◌, u128_bound, balance_overflow, supply_overflow, not_enough_balance,
}
use native.Mathlib.Decide.{dec_lt, dec_le}
use usn.Base.Maps.{
  HasDistinctKeys, sum_of, get-insert_self, get-insert_ne, get-remove_self, get-remove_ne,
  insert-HasDistinctKeys, remove-HasDistinctKeys, sum_of-insert, sum_of-remove,
}
use usn.Ft.{
  FungibleTokenFreeStorage, internal_unwrap_balance_of, internal_save_balance, internal_deposit,
  internal_withdraw,
}

abbrev pub balance : AccountId → FungibleTokenFreeStorage → ℕ
balance = internal_unwrap_balance_of

abbrev pub held : FungibleTokenFreeStorage → ℕ
held t = sum_of (λ v. v) t.accounts

-- The supply is the sum of the balances, and fits its word.
pub record IsValid (t : FungibleTokenFreeStorage) : Type 0 where
  pub distinct : HasDistinctKeys t.accounts
  pub conserved : held t ≡ t.total_supply
  pub bounded : t.total_supply < u128_bound

module _ (k : AccountId) (b : ℕ) (t : FungibleTokenFreeStorage) where
  pub save-distinct :
      HasDistinctKeys t.accounts → HasDistinctKeys (internal_save_balance k b t).accounts
  unfolding internal_save_balance
  save-distinct d =
      ground (arith, insert-HasDistinctKeys k b t.accounts d, remove-HasDistinctKeys k t.accounts d)

  pub held-save : held (internal_save_balance k b t) + balance k t ≡ held t + b
  unfolding internal_save_balance
  held-save =
      ground (arith, sum_of-insert (λ v. v) k b t.accounts, sum_of-remove (λ v. v) k t.accounts)

  pub balance-save_self : HasDistinctKeys t.accounts → balance k (internal_save_balance k b t) ≡ b
  unfolding internal_save_balance
  balance-save_self d =
      ground (arith, get-insert_self k b t.accounts, get-remove_self k t.accounts d)

  pub balance-save_ne :
      (j : AccountId) → j ≢ k → balance j (internal_save_balance k b t) ≡ balance j t
  unfolding internal_save_balance
  balance-save_ne j h =
      ground (arith, get-insert_ne j k b t.accounts h, get-remove_ne j k t.accounts h)

  pub supply-save : (internal_save_balance k b t).total_supply ≡ t.total_supply
  unfolding internal_save_balance
  supply-save = ground arith

-- No account holds more than the supply.
pub balance-le-supply :
    (k : AccountId) (t : FungibleTokenFreeStorage) → IsValid t → balance k t ≤ t.total_supply
balance-le-supply k t v = omega (arith, held-save k 0 t)

-- What it means to add an amount to one account, and to take it away.
pub record Credited (k : AccountId) (a : ℕ) (t t' : FungibleTokenFreeStorage) : Type 0 where
  pub valid : IsValid t'
  pub supply : t'.total_supply ≡ t.total_supply + a
  pub own : balance k t' ≡ balance k t + a
  pub others : (j : AccountId) → j ≢ k → balance j t' ≡ balance j t

pub record Debited (k : AccountId) (a : ℕ) (t t' : FungibleTokenFreeStorage) : Type 0 where
  pub valid : IsValid t'
  pub supply : t'.total_supply + a ≡ t.total_supply
  pub own : balance k t' + a ≡ balance k t
  pub others : (j : AccountId) → j ≢ k → balance j t' ≡ balance j t

module _ (k : AccountId) (a : ℕ) (t : FungibleTokenFreeStorage) (v : IsValid t) where
  deposited : FungibleTokenFreeStorage
  deposited = record (internal_save_balance k (balance k t + a) t) {
    total_supply = t.total_supply + a;
  }

  deposited-Credited : t.total_supply + a < u128_bound → Credited k a t deposited
  unfolding deposited
  deposited-Credited h = record {
    valid = record {
      distinct = save-distinct k (balance k t + a) t v.distinct;
      conserved = omega (arith, held-save k (balance k t + a) t);
      bounded = h;
    };
    supply = refl;
    own = balance-save_self k (balance k t + a) t v.distinct;
    others = balance-save_ne k (balance k t + a) t;
  }

  internal_deposit-deposited :
      t.total_supply + a < u128_bound → internal_deposit k a t ≡ ok deposited
  unfolding internal_deposit deposited
  internal_deposit-deposited h =
      ground (arith, supply-save k (balance k t + a) t, balance-le-supply k t v)

  withdrawn : FungibleTokenFreeStorage
  withdrawn = record (internal_save_balance k (balance k t - a) t) {
    total_supply = t.total_supply - a;
  }

  withdrawn-Debited : a ≤ balance k t → Debited k a t withdrawn
  unfolding withdrawn
  withdrawn-Debited h =
      let e : balance k t - a + a ≡ balance k t = omega arith in
      let low : balance k t ≤ t.total_supply = balance-le-supply k t v in
      record {
        valid = record {
          distinct = save-distinct k (balance k t - a) t v.distinct;
          conserved = omega (arith, held-save k (balance k t - a) t);
          bounded = omega arith;
        };
        supply = omega arith;
        own = omega (arith, balance-save_self k (balance k t - a) t v.distinct);
        others = balance-save_ne k (balance k t - a) t;
      }

  internal_withdraw-withdrawn : a ≤ balance k t → internal_withdraw k a t ≡ ok withdrawn
  unfolding internal_withdraw withdrawn
  internal_withdraw-withdrawn h =
      ground (arith, supply-save k (balance k t - a) t, balance-le-supply k t v)

  -- On a valid token, a deposit with which the supply fits 128 bits returns: it adds the amount to
  -- the account and to the supply, touches no other balance, and keeps the token valid.
  pub internal_deposit-Credited :
      t.total_supply + a < u128_bound → Returns (Credited k a t) (internal_deposit k a t)
  internal_deposit-Credited h = rw (internal_deposit-deposited h) (deposited-Credited h)

  -- Past 128 bits the deposit panics.
  pub internal_deposit_overflow :
      u128_bound ≤ t.total_supply + a
      → (internal_deposit k a t ≡ err balance_overflow)
        ⊎ (internal_deposit k a t ≡ err supply_overflow)
  unfolding internal_deposit
  internal_deposit_overflow h = ground (arith, supply-save k (balance k t + a) t)

  -- On a valid token, a withdrawal that the balance covers returns: it takes the amount off the
  -- account and off the supply, touches no other balance, and keeps the token valid.
  pub internal_withdraw-Debited :
      a ≤ balance k t → Returns (Debited k a t) (internal_withdraw k a t)
  internal_withdraw-Debited h = rw (internal_withdraw-withdrawn h) (withdrawn-Debited h)

  -- Any other withdrawal panics.
  pub internal_withdraw_short : balance k t < a → internal_withdraw k a t ≡ err not_enough_balance
  unfolding internal_withdraw
  internal_withdraw_short h = ground arith

  -- A deposit that returns has credited, a withdrawal that returns has debited.
  pub Credited-of_ok :
      {t' : FungibleTokenFreeStorage} → internal_deposit k a t ≡ ok t' → Credited k a t t'
  Credited-of_ok h = elim (dec_lt (t.total_supply + a) u128_bound) [
    | yes p ↦ rw (← ok-injective (sym (internal_deposit-deposited p) ∙ h)) (deposited-Credited p)
    | no p ↦ absurd (ground (arith, internal_deposit_overflow (omega arith)))
  ]

  pub Debited-of_ok :
      {t' : FungibleTokenFreeStorage} → internal_withdraw k a t ≡ ok t' → Debited k a t t'
  Debited-of_ok h = elim (dec_le a (balance k t)) [
    | yes p ↦ rw (← ok-injective (sym (internal_withdraw-withdrawn p) ∙ h)) (withdrawn-Debited p)
    | no p ↦ absurd (ground (arith, internal_withdraw_short (omega arith)))
  ]
