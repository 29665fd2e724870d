-- ===== src/Stable/Fees.antt =====
-- The commission of the treasury, src/stable.rs: `withdraw_commission` and `refund_commission`.
use usn.Base.{
  ℕ, ◌+◌, ◌-◌, ◌*◌, ◌/◌, ◌≤◌, ◌<◌, ◌≡◌, sym, ap, ◌∙◌, some, arith, AccountId, le→leb, eq_of_some-eq,
  ok, or_panic, Ensures, Ensures-bind, or_panic-ok, u128_bound, add_u128, sub_checked, fit-ok,
  fit_within, sub_checked-ok, sub_checked_within,
}
use mathlib.Core.Path.{subst}
use usn.Base.{unwrap_none}
use usn.Base.Maps.{get, sum_of, at, get-insert_self, insert-get, insert-insert, sum_of-insert}
use usn.Event.{AssetAction, deposit_action, withdraw_action}
use usn.Asset.{AssetInfo, CommissionRate, commission_for, rate_for}
use usn.Base.{refl, Option}
use usn.Asset.Commission.{rate-le, commission_for-ok, commission_for_within, commission_for-le}
use usn.Stable.{
  StableTreasury, get_asset, set_asset, withdraw_commission, decrease_commission, refund_commission,
}
use usn.Stable.Invariant.{IsValid, get_asset-IsValid, set_asset-IsValid}

-- The commission of all assets together.
abbrev pub total_commission : StableTreasury → ℕ
total_commission s = sum_of (λ info. info.commission) s.assets

abbrev pub with_commission : AssetInfo → ℕ → AssetInfo
with_commission info c = record info { commission = c }

pub total_commission-set :
    (k : AccountId) (info : AssetInfo) (c : ℕ) (s : StableTreasury)
    → get k s.assets ≡ some info
    → total_commission (set_asset k (with_commission info c) s) + info.commission
      ≡ total_commission s + c
total_commission-set k info c s e =
    rw (e, at) at
      (sum_of-insert (λ (i : AssetInfo). i.commission) k (with_commission info c) s.assets)

-- The rate that an asset has for an action.
abbrev pub agreed_rate : AssetAction → CommissionRate → Option ℕ
agreed_rate action rates = elim action [
  | deposit_action ↦ rates.deposit
  | withdraw_action ↦ rates.withdraw
]

rate_for-agreed :
    (action : AssetAction) (rates : CommissionRate)
    → rate_for action rates ≡ agreed_rate action rates
rate_for-agreed deposit_action rates = refl
rate_for-agreed withdraw_action rates = refl

-- A commission was taken: its rate in millionths of the amount; what is left and the commission make up the amount, the commission is at
-- most a twentieth of it, and it is booked to the asset.
pub record Charged (k : AccountId) (amount rest : ℕ) (action : AssetAction) (s s' : StableTreasury)
    : Type 0 where
  pub info : AssetInfo
  pub rate : ℕ
  pub commission : ℕ
  pub found : get k s.assets ≡ some info
  pub rated : agreed_rate action info.commission_rate ≡ some rate
  pub share : commission ≡ amount * rate / 1000000
  pub wide : amount * rate < u128_bound
  pub split : rest + commission ≡ amount
  pub small : commission * 20 ≤ amount
  pub booked : s' ≡ set_asset k (with_commission info (info.commission + commission)) s
  pub total : total_commission s' ≡ total_commission s + commission

module _ (k : AccountId) (amount : ℕ) (action : AssetAction) (s : StableTreasury)
    (v : IsValid s) where
  -- What is booked once the steps have returned.
  charged :
      (info : AssetInfo) (rate commission total rest : ℕ)
      → get_asset k s ≡ ok info
      → or_panic (rate_for action info.commission_rate) unwrap_none ≡ ok rate
      → commission_for amount rate ≡ ok commission
      → add_u128 info.commission commission ≡ ok total
      → sub_checked amount commission ≡ ok rest
      → Charged k amount rest action s (set_asset k (with_commission info total) s)
  charged info rate c total rest found rated computed added subtracted =
      let at_key = or_panic-ok (get k s.assets) unwrap_none found in
      let rate_is = or_panic-ok (rate_for action info.commission_rate) unwrap_none rated in
      let r_low = rate-le action info (get_asset-IsValid k s v found) rate_is in
      let (total_is, _) = fit-ok u128_bound (info.commission + c) added in
      record {
        info = info;
        rate = rate;
        commission = c;
        found = at_key;
        rated = sym (rate_for-agreed action info.commission_rate) ∙ rate_is;
        share = (commission_for-ok amount rate computed).0;
        wide = (commission_for-ok amount rate computed).1;
        split = sub_checked-ok amount c subtracted;
        small = commission_for-le amount rate (omega arith) computed;
        booked = ap (λ x. set_asset k (with_commission info x) s) total_is;
        total = omega (arith, total_is, total_commission-set k info total s at_key);
      }

  -- On a valid treasury, when the commission on an amount was taken, the asset has a rate for
  -- deposits or for withdrawals, whichever the action is, and the commission is that many
  -- millionths of the amount, rounded down, and at most a twentieth of it; the amount times the
  -- rate fits 128 bits, the commission and the rest make up the amount, and the commission is added
  -- to that of the asset and to nothing else.
  pub withdraw_commission-Charged :
      Ensures (λ out. Charged k amount out.1 action s out.0) (withdraw_commission k amount action s)
  unfolding withdraw_commission
  withdraw_commission-Charged =
      let P = λ (out : StableTreasury × ℕ). Charged k amount out.1 action s out.0 in
      Ensures-bind P (get_asset k s) _ λ info found.
        Ensures-bind P (or_panic (rate_for action info.commission_rate) unwrap_none) _ λ rate rated.
          Ensures-bind P (commission_for amount rate) _ λ c computed.
            Ensures-bind P (add_u128 info.commission c) _ λ total added.
              Ensures-bind P (sub_checked amount c) _ λ rest subtracted.
                charged info rate c total rest found rated computed added subtracted

  -- Where the product and the new total fit 128 bits, the commission is taken without a panic.
  pub withdraw_commission_lem :
      (info : AssetInfo) (rate : ℕ)
      → get k s.assets ≡ some info
      → rate_for action info.commission_rate ≡ some rate
      → amount * rate < u128_bound
      → info.commission + amount * rate / 1000000 < u128_bound
      → withdraw_commission k amount action s
        ≡ ok (
          set_asset k (with_commission info (info.commission + amount * rate / 1000000)) s,
          amount - amount * rate / 1000000,
        )
  unfolding withdraw_commission
  withdraw_commission_lem info rate found rated product total =
      let r_low = rate-le action info (v.infos k info found) rated in
      let computed = commission_for_within amount rate product in
      let low = commission_for-le amount rate (omega arith) computed in
      rw (
        found,
        rated,
        computed,
        fit_within u128_bound (info.commission + amount * rate / 1000000) total,
        sub_checked_within amount (amount * rate / 1000000) (omega arith),
      )

set_asset-back :
    (k : AccountId) (other info : AssetInfo) (s : StableTreasury)
    → get k s.assets ≡ some info
    → set_asset k info (set_asset k other s) ≡ s
set_asset-back k other info s found =
    ap (λ m. record { assets = m })
      (insert-insert k other info s.assets ∙ insert-get k info s.assets found)

refund_commission_lem :
    (k : AccountId) (amount c : ℕ) (info : AssetInfo) (s : StableTreasury) {rate : ℕ}
    → get k s.assets ≡ some info
    → info.commission_rate.withdraw ≡ some rate
    → commission_for amount rate ≡ ok c
    → refund_commission k amount (set_asset k (with_commission info (info.commission + c)) s) ≡ ok s
unfolding refund_commission decrease_commission
refund_commission_lem k amount c info s found rated computed =
    let more = info.commission + c in
    let back : more - c ≡ info.commission = omega arith in
    simp
      (
        get-insert_self k (with_commission info more) s.assets,
        rated,
        computed,
        le→leb c more (omega arith),
        back,
      )
      (ap ok (set_asset-back k (with_commission info more) info s found))

-- The code's commission is that share.
pub Charged-computed :
    {k : AccountId} {amount rest : ℕ} {action : AssetAction} {s s' : StableTreasury}
    (c : Charged k amount rest action s s')
    → commission_for amount c.rate ≡ ok c.commission
Charged-computed {amount = amount} c =
    commission_for_within amount c.rate c.wide ∙ ap ok (sym c.share)

-- Refunding the commission of a withdrawal gives the treasury back as it was.
pub refund-withdraw_commission :
    (k : AccountId) (amount : ℕ) (s : StableTreasury) {s' : StableTreasury} {rest : ℕ}
    → Charged k amount rest withdraw_action s s'
    → refund_commission k amount s' ≡ ok s
refund-withdraw_commission k amount s {s'} c =
    subst (λ t. refund_commission k amount t ≡ ok s) (sym c.booked)
      (refund_commission_lem k amount c.commission c.info s c.found c.rated (Charged-computed c))

-- The entry of the asset after its commission was taken.
pub Charged-found :
    {k : AccountId} {amount rest : ℕ} {action : AssetAction} {s s' : StableTreasury}
    (c : Charged k amount rest action s s')
    → get k s'.assets ≡ some (with_commission c.info (c.info.commission + c.commission))
Charged-found {k} {s = s} c =
    let changed = with_commission c.info (c.info.commission + c.commission) in
    subst (λ t. get k (StableTreasury.assets t) ≡ some changed) (sym c.booked)
      (get-insert_self k changed s.assets)

-- Taking a commission leaves the decimals and the status of the asset as they were.
pub Charged-decimals :
    {k : AccountId} {amount rest : ℕ} {action : AssetAction} {s s' : StableTreasury}
    {info info' : AssetInfo}
    → Charged k amount rest action s s'
    → get k s.assets ≡ some info
    → get k s'.assets ≡ some info'
    → (info'.decimals ≡ info.decimals) × (info'.status ≡ info.status)
Charged-decimals {info = info} {info' = info'} c found found' =
    let changed = with_commission c.info (c.info.commission + c.commission) in
    let after : info' ≡ changed = eq_of_some-eq (sym found' ∙ Charged-found c) in
    let before : c.info ≡ info = eq_of_some-eq (sym c.found ∙ found) in
    (
      ap AssetInfo.decimals after ∙ ap AssetInfo.decimals before,
      ap AssetInfo.status after ∙ ap AssetInfo.status before,
    )

-- Booking a commission keeps the treasury valid.
pub Charged-IsValid :
    {k : AccountId} {amount rest : ℕ} {action : AssetAction} {s s' : StableTreasury}
    → Charged k amount rest action s s'
    → IsValid s
    → IsValid s'
Charged-IsValid {k} {s = s} c v =
    let i = v.infos k c.info c.found in
    subst IsValid (sym c.booked) (
      set_asset-IsValid k (with_commission c.info (c.info.commission + c.commission)) s v (record {
        positive = i.positive;
        bounded = i.bounded;
        deposit_rate = i.deposit_rate;
        withdraw_rate = i.withdraw_rate;
      }))
