-- ===== src/Stable/Backing.antt =====
-- The exchange of src/stable.rs seen from its backing: supply, booked commissions, balances and
-- payments over `deposit`, `withdraw` and `refund`.
use usn.Base.{
  ℕ, ◌+◌, ◌-◌, ◌*◌, ◌≤◌, ◌≡◌, refl, ◌∙◌, ◌≢◌, inl, inr, some, List, arith, Bool-cases, Option-cases,
  AccountId, same_account, same_account_iff, ne-same_account, ok, err, Ensures, Returns, Returns-ok,
  Ensures-map, Ensures-of_ok,
}
use mathlib.Core.Path.{subst}
use usn.Base.{wrong_status}
use usn.Base.Maps.{get, get-insert_self}
use usn.Event.{Event}
use usn.Ft.{FungibleTokenFreeStorage, internal_deposit}
use usn.Ft.Ledger
use usn.Ft.Ledger.{balance, Credited, Debited, internal_deposit-Credited}
use usn.Asset.{AssetInfo, disabled, usn_decimals, convert_decimals}
use usn.Asset.Decimals.{convert_decimals_no_gain}
use usn.Stable.{StableTreasury, deposit, withdraw, refund, disable_asset}
use usn.Stable.Invariant.{IsValid}
use usn.Stable.Fees.{
  Charged-IsValid, Charged-found, Charged-decimals, total_commission, refund-withdraw_commission,
}
use usn.Stable.Exchange.{asserts-found, Deposited, Withdrawn, deposit-Deposited, withdraw-Withdrawn}

module _ (account k : AccountId) (x : ℕ) (s : StableTreasury) (ft : FungibleTokenFreeStorage)
    (v : IsValid s) (w : Ledger.IsValid ft) where
  -- On a valid treasury and token, a deposit that returns adds the converted amount of the asset to
  -- the supply and the booked commissions together, and at least 95 percent of it to the balance of
  -- the account.
  pub deposit_backed :
      Ensures
        (λ out.
          (info : AssetInfo) × (amount : ℕ) × (get k s.assets ≡ some info)
          × (convert_decimals x info.decimals usn_decimals ≡ ok amount)
          × (out.1.total_supply + total_commission out.0
              ≡ ft.total_supply + total_commission s + amount)
          × (amount * 19 ≤ (balance account out.1 - balance account ft) * 20))
        (deposit account k x s ft)
  deposit_backed =
      Ensures-map _ _ (deposit account k x s ft)
        (λ (s', ft', events) d. (
          d.info,
          d.amount,
          d.found,
          d.converted,
          omega (arith, d.charged.total, d.charged.split, d.credited.supply),
          omega (arith, d.charged.small, d.charged.split, d.credited.own),
        ))
        (deposit-Deposited account k x s ft v w)

  -- On a valid treasury and token, a withdrawal that returns takes from the supply and the booked
  -- commissions together a rest that is at most the amount and at least 95 percent of it, and pays
  -- that rest converted to the decimals of the asset, which is not zero.
  pub withdraw_backed :
      Ensures
        (λ out.
          (info : AssetInfo) × (rest : ℕ) × (get k s.assets ≡ some info)
          × (convert_decimals rest usn_decimals info.decimals ≡ ok out.3)
          × (out.1.total_supply + total_commission out.0 + rest
              ≡ ft.total_supply + total_commission s)
          × (x * 19 ≤ rest * 20)
          × (rest ≤ x)
          × (out.3 ≢ 0))
        (withdraw account k x s ft)
  withdraw_backed =
      Ensures-map _ _ (withdraw account k x s ft)
        (λ (s', ft', events, out) d. (
          d.info,
          d.rest,
          d.found,
          d.converted,
          omega (arith, d.charged.total, d.charged.split, d.debited.supply),
          omega (arith, d.charged.small, d.charged.split),
          omega (arith, d.charged.split),
          d.not_nothing,
        ))
        (withdraw-Withdrawn account k x s ft v w)

-- A withdrawal of at most what a deposit has minted pays at most what was deposited.
steps_no_gain :
    (account other k : AccountId) (x y : ℕ) {s s' s'' : StableTreasury}
    {ft ft' ft'' : FungibleTokenFreeStorage} {events events' : List Event} {out : ℕ}
    → Deposited account k x s s' ft ft' events
    → Withdrawn other k y s' s'' ft' ft'' events' out
    → y + ft.total_supply ≤ ft'.total_supply
    → out ≤ x
steps_no_gain account other k x y {out = out} d d' h =
    let same = (Charged-decimals d.charged d.found d'.found).0 in
    let back : convert_decimals d'.rest usn_decimals d.info.decimals ≡ ok out =
      subst (λ n. convert_decimals d'.rest usn_decimals n ≡ ok out) same d'.converted in
    convert_decimals_no_gain x d.info.decimals usn_decimals d'.rest d.converted
      (omega (arith, d.credited.supply, d.charged.split, d'.charged.split)) back

-- On a valid treasury and token, when a deposit returned and then a withdrawal of the same asset,
-- by whomever, of at most the USN that the deposit minted returned, it pays at most the amount of
-- the asset that was deposited, burns just its amount, and leaves the supply and the booked
-- commissions together no lower than before the deposit.
pub no_gain :
    (account other k : AccountId) (x y : ℕ) (s : StableTreasury) (ft : FungibleTokenFreeStorage)
    {s' s'' : StableTreasury} {ft' ft'' : FungibleTokenFreeStorage} {events events' : List Event}
    {out : ℕ}
    → IsValid s
    → Ledger.IsValid ft
    → deposit account k x s ft ≡ ok (s', ft', events)
    → withdraw other k y s' ft' ≡ ok (s'', ft'', events', out)
    → y + ft.total_supply ≤ ft'.total_supply
    → (out ≤ x)
      × (ft''.total_supply + y ≡ ft'.total_supply)
      × (ft.total_supply + total_commission s ≤ ft''.total_supply + total_commission s'')
no_gain account other k x y s ft {s'} {ft' = ft'} v w deposited withdrawn h =
    let d =
      Ensures-of_ok (λ o. Deposited account k x s o.0 ft o.1 o.2) _
        (deposit-Deposited account k x s ft v w) deposited in
    let d' =
      Ensures-of_ok (λ o. Withdrawn other k y s' o.0 ft' o.1 o.2 o.3) _
        (withdraw-Withdrawn other k y s' ft' (Charged-IsValid d.charged v) d.credited.valid)
        withdrawn in
    (
      steps_no_gain account other k x y d d' h,
      d'.debited.supply,
      omega (
        arith, h, d.charged.total, d.charged.split, d.credited.supply, d'.charged.total,
        d'.charged.split, d'.debited.supply,
      ),
    )

-- A refund after the steps of a withdrawal.
pub refund-Withdrawn :
    (account k : AccountId) (x : ℕ) (s : StableTreasury) (ft : FungibleTokenFreeStorage)
    {s' : StableTreasury} {ft' : FungibleTokenFreeStorage} {events : List Event} {out : ℕ}
    → Ledger.IsValid ft
    → Withdrawn account k x s s' ft ft' events out
    → Returns
        (λ back.
          (back.0 ≡ s)
          × Ledger.IsValid back.1
          × (back.1.total_supply ≡ ft.total_supply)
          × ((j : AccountId) → balance j back.1 ≡ balance j ft))
        (refund account k x s' ft')
unfolding refund
refund-Withdrawn account k x s ft {s'} {ft'} w d =
    let (ft'', minted, c) = Returns-ok (Credited account x ft') (internal_deposit account x ft') (
      internal_deposit-Credited account x ft' d.debited.valid
        (omega (arith, d.debited.supply, w.bounded))) in
    let active = (Charged-decimals d.charged d.found (Charged-found d.charged)).1 ∙ d.active in
    let passed = asserts-found k s' _ (Charged-found d.charged) active in
    rw (passed.0, passed.1, refund-withdraw_commission k x s d.charged, minted)
      (
        refl,
        c.valid,
        omega (arith, c.supply, d.debited.supply),
        λ j. elim (Bool-cases (same_account j account)) [
          | inl here ↦
              let e : j ≡ account = (same_account_iff j account).0 here in
              rw e (omega (arith, c.own, d.debited.own))
          | inr away ↦
              let ne = ne-same_account j account away in c.others j ne ∙ d.debited.others j ne
        ],
      )

-- On a valid treasury and token, when a withdrawal returned, a refund of the same account, asset
-- and amount right after it returns and undoes it: the treasury is as it was before, the token is
-- valid, and its supply and every balance are as they were.
pub refund_undoes_withdraw :
    (account k : AccountId) (x : ℕ) (s : StableTreasury) (ft : FungibleTokenFreeStorage)
    {s' : StableTreasury} {ft' : FungibleTokenFreeStorage} {events : List Event} {out : ℕ}
    → IsValid s
    → Ledger.IsValid ft
    → withdraw account k x s ft ≡ ok (s', ft', events, out)
    → Returns
        (λ back.
          (back.0 ≡ s)
          × Ledger.IsValid back.1
          × (back.1.total_supply ≡ ft.total_supply)
          × ((j : AccountId) → balance j back.1 ≡ balance j ft))
        (refund account k x s' ft')
refund_undoes_withdraw account k x s ft v w withdrawn = refund-Withdrawn account k x s ft w (
    Ensures-of_ok (λ o. Withdrawn account k x s o.0 ft o.1 o.2 o.3) _
      (withdraw-Withdrawn account k x s ft v w) withdrawn)

-- After the asset was disabled, a refund panics for the status of the asset, whatever the account
-- and the amount.
pub refund_of_disabled :
    (account k : AccountId) (x : ℕ) (s : StableTreasury) {s' : StableTreasury}
    (ft : FungibleTokenFreeStorage)
    → disable_asset k s ≡ ok s'
    → refund account k x s' ft ≡ err (wrong_status k)
unfolding refund disable_asset
refund_of_disabled account k x s {s'} ft h = elim (Option-cases (get k s.assets)) [
  | inl missing ↦ absurd (ground arith)
  | inr (info, found) ↦
      let changed : AssetInfo = record info { status = disabled } in
      ground (arith, get-insert_self k changed s.assets)
]
