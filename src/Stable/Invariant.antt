-- ===== src/Stable/Invariant.antt =====
-- The invariant of the treasury of src/stable.rs over its operations.
use usn.Base.{
  ℕ, ◌≤◌, ◌<◌, ◌≡◌, refl, sym, inl, inr, true, false, none, some, [], Bool-cases, AccountId,
  same_account, ok, require, or_panic, Ensures, Ensures-bind, Ensures-of_ok, or_panic-ok, add_u128,
  sub_checked, checked_sub,
}
use mathlib.Core.Path.{subst}
use usn.Base.{unwrap_none, already_supported, failed_to_decrease_commission}
use usn.Base.Maps.{HasDistinctKeys, get, get-insert, insert-HasDistinctKeys}
use usn.Near.{Network}
use usn.Event.{AssetAction, deposit_action, withdraw_action}
use usn.Asset.{
  AssetInfo, AssetStatus, CommissionRate, enabled, disabled, commission_for, new_asset, new_rate,
  rate_for, usdt_id, usdt_decimals,
}
use usn.Asset.Commission
use usn.Asset.Commission.{IsRate, new_asset-IsValid, new_rate-IsRate}
use usn.Stable.{
  StableTreasury, get_asset, set_asset, add_asset, new, enable_asset, disable_asset, assert_asset,
  assert_status, switch_status, withdraw_commission, decrease_commission, refund_commission,
  set_commission_rate,
}

-- No asset is listed twice, and each has decimals and rates within their bounds.
pub record IsValid (s : StableTreasury) : Type 0 where
  pub distinct : HasDistinctKeys s.assets
  pub infos :
      (k : AccountId) (info : AssetInfo) → get k s.assets ≡ some info → Commission.IsValid info

pub get_asset-IsValid :
    (k : AccountId) (s : StableTreasury) {info : AssetInfo}
    → IsValid s
    → get_asset k s ≡ ok info
    → Commission.IsValid info
get_asset-IsValid k s {info} v e = v.infos k info (or_panic-ok (get k s.assets) unwrap_none e)

pub set_asset-IsValid :
    (k : AccountId) (info : AssetInfo) (s : StableTreasury)
    → IsValid s
    → Commission.IsValid info
    → IsValid (set_asset k info s)
set_asset-IsValid k info s v i = record {
  distinct = insert-HasDistinctKeys k info s.assets v.distinct;
  infos = λ j other e. elim (Bool-cases (same_account j k)) [
    | inl here ↦ subst Commission.IsValid (cc (get-insert j k info s.assets, here)) i
    | inr away ↦ v.infos j other (rw (get-insert j k info s.assets, away) at e)
  ];
}

-- Changing the status or the commission of an asset keeps the treasury valid.
update-IsValid :
    (k : AccountId) (s : StableTreasury) {info : AssetInfo} (info' : AssetInfo)
    → IsValid s
    → get_asset k s ≡ ok info
    → info'.decimals ≡ info.decimals
    → info'.commission_rate ≡ info.commission_rate
    → IsValid (set_asset k info' s)
update-IsValid k s {info} info' v e d r =
    let i = get_asset-IsValid k s v e in
    set_asset-IsValid k info' s v (record {
      positive = subst (λ n. 0 < n) (sym d) i.positive;
      bounded = subst (λ n. n ≤ 37) (sym d) i.bounded;
      deposit_rate = subst (λ x. IsRate (CommissionRate.deposit x)) (sym r) i.deposit_rate;
      withdraw_rate = subst (λ x. IsRate (CommissionRate.withdraw x)) (sym r) i.withdraw_rate;
    })

pub add_asset-IsValid :
    (k : AccountId) (decimals : ℕ) (s : StableTreasury)
    → IsValid s
    → Ensures IsValid (add_asset k decimals s)
unfolding add_asset
add_asset-IsValid k decimals s v =
    Ensures-bind IsValid
      (require (elim (get k s.assets) [ none ↦ true | some _ ↦ false ]) (already_supported k)) _
      λ _ _. Ensures-bind IsValid (new_asset decimals) _ λ info made.
        set_asset-IsValid k info s v
          (Ensures-of_ok Commission.IsValid (new_asset decimals) (new_asset-IsValid decimals) made)

switch_status-IsValid :
    (k : AccountId) (status : AssetStatus) (s : StableTreasury)
    → IsValid s
    → Ensures IsValid (switch_status k status s)
unfolding switch_status
switch_status-IsValid k status s v =
    Ensures-bind IsValid (get_asset k s) _
      λ info e. update-IsValid k s (record info { status = status }) v e refl refl

pub enable_asset-IsValid :
    (k : AccountId) (s : StableTreasury) → IsValid s → Ensures IsValid (enable_asset k s)
unfolding enable_asset
enable_asset-IsValid k s v = Ensures-bind IsValid (assert_asset k s) _ λ _ _.
    Ensures-bind IsValid (assert_status k disabled s) _ λ _ _. switch_status-IsValid k enabled s v

pub disable_asset-IsValid :
    (k : AccountId) (s : StableTreasury) → IsValid s → Ensures IsValid (disable_asset k s)
unfolding disable_asset
disable_asset-IsValid k s v = Ensures-bind IsValid (assert_asset k s) _ λ _ _.
    Ensures-bind IsValid (assert_status k enabled s) _ λ _ _. switch_status-IsValid k disabled s v

pub withdraw_commission-IsValid :
    (k : AccountId) (amount : ℕ) (action : AssetAction) (s : StableTreasury)
    → IsValid s
    → Ensures (λ out. IsValid out.0) (withdraw_commission k amount action s)
unfolding withdraw_commission
withdraw_commission-IsValid k amount action s v =
    Ensures-bind (λ out. IsValid out.0) (get_asset k s) _
      λ info e.
        Ensures-bind (λ out. IsValid out.0)
          (or_panic (rate_for action info.commission_rate) unwrap_none) _
          λ rate _.
            Ensures-bind (λ out. IsValid out.0) (commission_for amount rate) _
              λ commission _.
                Ensures-bind (λ out. IsValid out.0) (add_u128 info.commission commission) _
                  λ total _.
                    Ensures-bind (λ out. IsValid out.0) (sub_checked amount commission) _
                      λ rest _.
                        update-IsValid k s (record info { commission = total }) v e refl refl

pub decrease_commission-IsValid :
    (k : AccountId) (amount : ℕ) (s : StableTreasury)
    → IsValid s
    → Ensures IsValid (decrease_commission k amount s)
unfolding decrease_commission
decrease_commission-IsValid k amount s v = Ensures-bind IsValid (get_asset k s) _ λ info e.
    Ensures-bind IsValid
      (or_panic (checked_sub info.commission amount) (failed_to_decrease_commission k)) _
      λ rest _. update-IsValid k s (record info { commission = rest }) v e refl refl

pub refund_commission-IsValid :
    (k : AccountId) (amount : ℕ) (s : StableTreasury)
    → IsValid s
    → Ensures IsValid (refund_commission k amount s)
unfolding refund_commission
refund_commission-IsValid k amount s v = Ensures-bind IsValid (get_asset k s) _ λ info e.
    Ensures-bind IsValid (or_panic info.commission_rate.withdraw unwrap_none) _ λ rate _.
      Ensures-bind IsValid (commission_for amount rate) _
        λ commission _. decrease_commission-IsValid k commission s v

pub set_commission_rate-IsValid :
    (k : AccountId) (rate : CommissionRate) (s : StableTreasury)
    → IsValid s
    → Ensures (λ out. IsValid out.0) (set_commission_rate k rate s)
unfolding set_commission_rate
set_commission_rate-IsValid k rate s v =
    Ensures-bind (λ out. IsValid out.0) (assert_asset k s) _
      λ _ _.
        Ensures-bind (λ out. IsValid out.0) (get_asset k s) _
          λ info e.
            let i = get_asset-IsValid k s v e in
            Ensures-bind (λ out. IsValid out.0)
              (new_rate deposit_action rate.deposit info.commission_rate.deposit) _
              λ d de.
                Ensures-bind (λ out. IsValid out.0)
                  (new_rate withdraw_action rate.withdraw info.commission_rate.withdraw) _
                  λ w we. set_asset-IsValid k _ s v (record {
                    positive = i.positive;
                    bounded = i.bounded;
                    deposit_rate =
                        Ensures-of_ok _ _
                          (new_rate-IsRate deposit_action rate.deposit _ i.deposit_rate) de;
                    withdraw_rate =
                        Ensures-of_ok _ _
                          (new_rate-IsRate withdraw_action rate.withdraw _ i.withdraw_rate) we;
                  })

-- A new treasury supports USDT, and is valid.
pub new-IsValid : (network : Network) → Ensures IsValid (new network)
unfolding new
new-IsValid network =
    add_asset-IsValid (usdt_id network) usdt_decimals (record { assets = [] })
      (record { distinct = tt; infos = λ k info e. absurd (cc) })
