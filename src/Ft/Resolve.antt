-- ===== src/Ft/Resolve.antt =====
-- The callback that settles `ft_transfer_call`, `internal_ft_resolve_transfer` of src/ft.rs.
use usn.Base.{
  ℕ, ◌+◌, ◌-◌, ◌≤◌, ◌<◌, min, ◌≡◌, refl, sym, ap, ◌∙◌, ◌≢◌, none, some, List, [], ◌∷◌, arith,
  AccountId, lt→ltb, le→leb, not_lt→ltb, ok, Ensures, Returns, Ensures-bind, Ensures-intro,
  Ensures-map, u128_bound,
}
use native.Mathlib.Decide.{dec_lt}
use usn.Base.Maps.{HasDistinctKeys}
use mathlib.Core.Path.{subst}
use usn.Near.{Env, not_ready, failed, successful}
use usn.Event.{Event}
use usn.Ft.{
  FungibleTokenFreeStorage, internal_save_balance, unused_amount, refund_unused, return_unused,
  internal_ft_resolve_transfer,
}
use usn.Ft.Ledger.{
  IsValid, balance, held, held-save, save-distinct, balance-save_self, balance-save_ne, supply-save,
}

-- A refund has moved from the receiver back to the sender, and nothing else has changed.
pub record Refunded (s r : AccountId) (refund : ℕ) (t t' : FungibleTokenFreeStorage) : Type 0 where
  pub valid : IsValid t'
  pub supply : t'.total_supply ≡ t.total_supply
  pub taken : s ≢ r → balance r t' + refund ≡ balance r t
  pub given : s ≢ r → balance s t' ≡ balance s t + refund
  pub kept : s ≡ r → balance s t' ≡ balance s t
  pub others : (j : AccountId) → j ≢ s → j ≢ r → balance j t' ≡ balance j t

Refunded-nothing : (s r : AccountId) (t : FungibleTokenFreeStorage) → IsValid t → Refunded s r 0 t t
Refunded-nothing s r t v = record {
  valid = v;
  supply = refl;
  taken = λ _. omega arith;
  given = λ _. omega arith;
  kept = λ _. refl;
  others = λ j _ _. refl;
}

module _ (s r : AccountId) (refund : ℕ) (t : FungibleTokenFreeStorage) (v : IsValid t)
    (low : refund ≤ balance r t) where
  taken : FungibleTokenFreeStorage
  taken = internal_save_balance r (balance r t - refund) t

  given : FungibleTokenFreeStorage
  given = internal_save_balance s (balance s taken + refund) taken

  held-taken : held taken + refund ≡ held t
  unfolding taken
  held-taken = omega (arith, held-save r (balance r t - refund) t)

  taken-distinct : HasDistinctKeys taken.accounts
  unfolding taken
  taken-distinct = save-distinct r (balance r t - refund) t v.distinct

  held-given : held given ≡ held t
  unfolding given
  held-given = omega (arith, held-taken, held-save s (balance s taken + refund) taken)

  -- The credit cannot overflow: it stays within the supply.
  given_fits : balance s taken + refund < u128_bound
  given_fits = omega (arith, held-taken, v.bounded, v.conserved, held-save s 0 taken)

  supply-given : given.total_supply ≡ t.total_supply
  unfolding given taken
  supply-given =
      supply-save s (balance s taken + refund) taken ∙ supply-save r (balance r t - refund) t

  balance-taken_self : balance r taken ≡ balance r t - refund
  unfolding taken
  balance-taken_self = balance-save_self r (balance r t - refund) t v.distinct

  balance-taken_ne : (j : AccountId) → j ≢ r → balance j taken ≡ balance j t
  unfolding taken
  balance-taken_ne = balance-save_ne r (balance r t - refund) t

  balance-given_self : balance s given ≡ balance s taken + refund
  unfolding given
  balance-given_self = balance-save_self s (balance s taken + refund) taken taken-distinct

  balance-given_ne : (j : AccountId) → j ≢ s → balance j given ≡ balance j taken
  unfolding given
  balance-given_ne = balance-save_ne s (balance s taken + refund) taken

  given-Refunded : Refunded s r refund t given
  given-Refunded = record {
    valid = record {
      distinct = unfold given in save-distinct s (balance s taken + refund) taken taken-distinct;
      conserved = omega (arith, held-given, supply-given, v.conserved);
      bounded = omega (arith, supply-given, v.bounded);
    };
    supply = supply-given;
    taken = λ ne. omega (arith, low, balance-given_ne r (λ e. ne (sym e)), balance-taken_self);
    given = λ ne. omega (arith, balance-given_self, balance-taken_ne s ne);
    kept = λ e. omega (
      arith,
      low,
      balance-given_self,
      balance-taken_self,
      ap (λ x. balance x taken) e,
      ap (λ x. balance x t) e,
    );
    others = λ j js jr. balance-given_ne j js ∙ balance-taken_ne j jr;
  }

  refund_unused-given :
      (a u : ℕ)
      → refund ≤ a
      → min (balance r t) u ≡ refund
      → refund_unused s r a u t ≡ ok (given, Event.refund_log refund r s ∷ [], (a - refund, 0))
  unfolding refund_unused given taken
  refund_unused-given a u ha e = rw (
    e,
    le→leb refund (balance r t) low,
    lt→ltb (balance s taken + refund) u128_bound given_fits,
    le→leb refund a ha,
  )

module _ (s r : AccountId) (a u : ℕ) (t : FungibleTokenFreeStorage) where
  -- What the callback has done: it moved back the smaller of the unused amount and of what the
  -- receiver still holds, reports the rest as used, and burns nothing.
  unfoldable pub Settled : FungibleTokenFreeStorage × List Event × (ℕ × ℕ) → Type 0
  Settled (t', events, (used, burned)) =
      Refunded s r (min (balance r t) u) t t' × (used + min (balance r t) u ≡ a) × (burned ≡ 0)

  Settled-nothing : IsValid t → min (balance r t) u ≡ 0 → Settled (t, [], (a, 0))
  unfolding Settled
  Settled-nothing v e = rw e (Refunded-nothing s r t v, omega arith, refl)

  return_unused-Settled : IsValid t → u ≤ a → Returns Settled (return_unused s r a u t)
  unfolding return_unused Settled
  return_unused-Settled v h = elim (dec_lt 0 u) [
    | yes some_unused ↦ elim (dec_lt 0 (balance r t)) [
      | yes some_left ↦
          let refund = min (balance r t) u in
          let low : refund ≤ balance r t = omega arith in
          rw
            (
              lt→ltb 0 u some_unused,
              lt→ltb 0 (balance r t) some_left,
              refund_unused-given s r refund t v low a u (omega arith) refl,
            )
            (given-Refunded s r refund t v low, omega arith, refl)
      | no nothing_left ↦
          rw (lt→ltb 0 u some_unused, not_lt→ltb 0 (balance r t) nothing_left)
            (Settled-nothing v (omega arith))
    ]
    | no all_used ↦ rw (not_lt→ltb 0 u all_used) (Settled-nothing v (omega arith))
  ]

-- What the receiver's answer means: a failed call or an answer that is no amount leaves everything
-- unused, and no answer counts for more than was sent.
unfoldable pub unused_of : Env → ℕ → ℕ
unused_of env a = elim env.promise_result [
  | not_ready ↦ 0
  | failed ↦ a
  | successful value ↦ elim (env.from_slice value) [ none ↦ a | some reported ↦ min a reported ]
]

unused_of-le : (env : Env) (a : ℕ) → unused_of env a ≤ a
unfolding unused_of
unused_of-le env a = ground arith

unused_amount-eq :
    (env : Env) (a : ℕ)
    → env.promise_result ≢ not_ready
    → unused_amount env a env.promise_result ≡ ok (unused_of env a)
unfolding unused_of unused_amount
unused_amount-eq env a h = ground arith

-- On a valid token, with the promise answered, the resolve callback returns: it moves the smaller
-- of the unused amount and the balance of the receiver back to the sender, reports the rest of the
-- amount as used, burns nothing, and leaves the supply, every other balance and the validity as
-- they were.
pub internal_ft_resolve_transfer-Settled :
    (env : Env) (s r : AccountId) (a : ℕ) (t : FungibleTokenFreeStorage)
    → IsValid t
    → env.promise_result ≢ not_ready
    → Returns (Settled s r a (unused_of env a) t) (internal_ft_resolve_transfer env s r a t)
unfolding internal_ft_resolve_transfer
internal_ft_resolve_transfer-Settled env s r a t v h =
    rw (unused_amount-eq env a h)
      (return_unused-Settled s r a (unused_of env a) t v (unused_of-le env a))

unused_amount-le : (env : Env) (a u : ℕ) → unused_amount env a env.promise_result ≡ ok u → u ≤ a
unfolding unused_amount
unused_amount-le env a u h = ground arith

-- Where the callback returns, it has settled some unused amount.
pub internal_ft_resolve_transfer-Settles :
    (env : Env) (s r : AccountId) (a : ℕ) (t : FungibleTokenFreeStorage)
    → IsValid t
    → Ensures (λ o. (u : ℕ) × Settled s r a u t o) (internal_ft_resolve_transfer env s r a t)
unfolding internal_ft_resolve_transfer
internal_ft_resolve_transfer-Settles env s r a t v =
    let P =
      λ (o : FungibleTokenFreeStorage × List Event × (ℕ × ℕ)). (u : ℕ) × Settled s r a u t o in
    Ensures-bind P (unused_amount env a env.promise_result) _ λ u h.
      Ensures-intro P (return_unused s r a u t) λ o back. (
        u,
        subst (Returns (Settled s r a u t)) back
            (return_unused-Settled s r a u t v (unused_amount-le env a u h)),
      )

pub internal_ft_resolve_transfer-valid :
    (env : Env) (s r : AccountId) (a : ℕ) (t : FungibleTokenFreeStorage)
    → IsValid t
    → Ensures (λ o. IsValid o.0) (internal_ft_resolve_transfer env s r a t)
unfolding Settled
internal_ft_resolve_transfer-valid env s r a t v =
    Ensures-map _ (λ o. IsValid o.0) (internal_ft_resolve_transfer env s r a t)
      (λ o settled. settled.1.0.valid) (internal_ft_resolve_transfer-Settles env s r a t v)
