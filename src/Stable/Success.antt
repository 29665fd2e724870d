-- ===== src/Stable/Success.antt =====
-- When an exchange of src/stable.rs returns: conditions under which `deposit` and `withdraw` do not
-- panic.
use usn.Base.{
  ℕ, ◌+◌, ◌-◌, ◌*◌, ◌≤◌, ◌<◌, ◌≡◌, refl, some, none, [], ◌∷◌, ◌^◌, arith, ne→==, AccountId, Result,
  ok, Ensures, Returns, Returns-ok, Returns-of_ok, Ensures-of_ok, u128_bound,
}
use usn.Base.Maps.{get}
use usn.Event.{Event, AssetAction, deposit_action, withdraw_action}
use usn.Ft.{FungibleTokenFreeStorage}
use usn.Ft.Ledger
use usn.Ft.Ledger.{balance, Credited, Debited, internal_deposit-Credited, internal_withdraw-Debited}
use usn.Asset.{AssetInfo, enabled, max_commission_rate, usn_decimals, convert_decimals}
use usn.Asset.Decimals.{convert_decimals_down}
use usn.Asset.Commission.{rate-ok}
use usn.Stable.{StableTreasury, withdraw_commission, deposit, withdraw}
use usn.Stable.Invariant.{IsValid}
use usn.Stable.Fees.{Charged, withdraw_commission-Charged, withdraw_commission_lem}
use usn.Stable.Exchange.{asserts-found, Deposited, Withdrawn, deposit-Deposited, withdraw-Withdrawn}

-- A value that is returned has what is ensured.
both_ways :
    {A : Type 0} (P : A → Type 0) (r : Result A) {a : A} → Ensures P r → r ≡ ok a → Returns P r
both_ways P r ensured returned = Returns-of_ok P r returned (Ensures-of_ok P r ensured returned)

-- A listed asset charges its commission where the words are wide enough at the highest rate.
charge :
    (k : AccountId) (amount : ℕ) (action : AssetAction) (s : StableTreasury)
    → IsValid s
    → (info : AssetInfo) → get k s.assets ≡ some info
    → amount * max_commission_rate < u128_bound
    → info.commission + amount < u128_bound
    → Returns (λ out. Charged k amount out.1 action s out.0) (withdraw_commission k amount action s)
charge k amount action s v info found wide room =
    let (rate, rated, low) = rate-ok action info (v.infos k info found) in
    let product : amount * rate ≤ amount * 50000 = grind arith in
    both_ways (λ out. Charged k amount out.1 action s out.0) (withdraw_commission k amount action s)
      (withdraw_commission-Charged k amount action s v)
      (withdraw_commission_lem k amount action s v info rate found rated (omega arith)
        (omega arith))

module _ (account k : AccountId) (s : StableTreasury) (ft : FungibleTokenFreeStorage)
    (v : IsValid s) (w : Ledger.IsValid ft) where
  -- On a valid treasury and token, a deposit of an enabled asset returns, and has done the steps of
  -- a deposit, where the amount converts and 128 bits are enough for the converted amount times the
  -- highest rate, for the commission of the asset plus the converted amount, and for the supply
  -- plus it.
  pub deposit_succeeds :
      (x : ℕ) (info : AssetInfo) {amount : ℕ}
      → get k s.assets ≡ some info
      → info.status ≡ enabled
      → convert_decimals x info.decimals usn_decimals ≡ ok amount
      → amount * max_commission_rate < u128_bound
      → info.commission + amount < u128_bound
      → ft.total_supply + amount < u128_bound
      → Returns (λ out. Deposited account k x s out.0 ft out.1 out.2) (deposit account k x s ft)
  unfolding deposit
  deposit_succeeds x info {amount} found active converted wide room supply =
      let passed = asserts-found k s info found active in
      let ((s', rest), taken, charged) =
        Returns-ok (λ (out : StableTreasury × ℕ). Charged k amount out.1 deposit_action s out.0) _
          (charge k amount deposit_action s v info found wide room) in
      let (ft', minted, c) =
        Returns-ok (Credited account rest ft) _
          (internal_deposit-Credited account rest ft w (omega (arith, charged.split))) in
      both_ways (λ out. Deposited account k x s out.0 ft out.1 out.2) (deposit account k x s ft)
        {a = (s', ft', Event.ft_mint account rest none ∷ [])}
        (deposit-Deposited account k x s ft v w)
        (rw (passed.0, passed.1, found, converted, taken, minted) refl)

  -- On a valid treasury and token, a withdrawal of an enabled asset of at most 18 decimals returns,
  -- and has done the steps of a withdrawal, where the account holds the amount, 95 percent of the
  -- amount are at least the smallest unit of the asset, and 128 bits are enough for the amount
  -- times the highest rate and for the commission of the asset plus the amount.
  pub withdraw_succeeds :
      (x : ℕ) (info : AssetInfo)
      → get k s.assets ≡ some info
      → info.status ≡ enabled
      → info.decimals ≤ usn_decimals
      → 10 ^ (usn_decimals - info.decimals) * 20 ≤ x * 19
      → x * max_commission_rate < u128_bound
      → info.commission + x < u128_bound
      → x ≤ balance account ft
      → Returns
          (λ out. Withdrawn account k x s out.0 ft out.1 out.2 out.3)
          (withdraw account k x s ft)
  unfolding withdraw
  withdraw_succeeds x info found active coarse unit wide room cover =
      let passed = asserts-found k s info found active in
      let ((s', rest), taken, charged) =
        Returns-ok (λ (out : StableTreasury × ℕ). Charged k x out.1 withdraw_action s out.0) _
          (charge k x withdraw_action s v info found wide room) in
      let (out, converted, pos) =
        Returns-ok (λ (n : ℕ). 0 < n) _
          (convert_decimals_down rest usn_decimals info.decimals coarse
            (omega (arith, charged.split, charged.small)) (omega (arith, charged.split))) in
      let (ft', burned, d) =
        Returns-ok (Debited account x ft) _ (internal_withdraw-Debited account x ft w cover) in
      both_ways (λ o. Withdrawn account k x s o.0 ft o.1 o.2 o.3) (withdraw account k x s ft)
        {a = (s', ft', Event.ft_burn account x none ∷ [], out)}
        (withdraw-Withdrawn account k x s ft v w)
        (rw (passed.0, passed.1, found, taken, converted, ne→== out 0 (omega arith), burned) refl)
