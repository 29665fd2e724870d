-- ===== src/Asset/Commission.antt =====
-- The commission on an amount and the rates of an asset, src/stable.rs.
use usn.Base.{ℕ, ◌*◌, ◌/◌, ◌≤◌, ◌<◌, ◌≡◌, refl, Option, none, some, arith, ok, Ensures, u128_bound}
use mathlib.Core.Path.{subst}
use usn.Event.{AssetAction, deposit_action, withdraw_action}
use usn.Asset.{
  AssetInfo, commission_for, new_asset, new_rate, assert_rate, rate_for, max_commission_rate,
  max_valid_decimals,
}

-- A rate that is set and within the maximum.
abbrev pub IsRate : Option ℕ → Type 0
IsRate none = ⊥
IsRate (some rate) = rate ≤ max_commission_rate

pub record IsValid (info : AssetInfo) : Type 0 where
  pub positive : 0 < info.decimals
  pub bounded : info.decimals ≤ max_valid_decimals
  pub deposit_rate : IsRate info.commission_rate.deposit
  pub withdraw_rate : IsRate info.commission_rate.withdraw

pub new_asset-IsValid : (decimals : ℕ) → Ensures IsValid (new_asset decimals)
unfolding new_asset
new_asset-IsValid decimals = ground arith

pub IsRate-rate_for :
    (action : AssetAction) (info : AssetInfo)
    → IsValid info
    → IsRate (rate_for action info.commission_rate)
IsRate-rate_for deposit_action info v = v.deposit_rate
IsRate-rate_for withdraw_action info v = v.withdraw_rate

pub rate-ok :
    (action : AssetAction) (info : AssetInfo)
    → IsValid info
    → (rate : ℕ) × (rate_for action info.commission_rate ≡ some rate) × (rate ≤ max_commission_rate)
rate-ok action info v = go (rate_for action info.commission_rate) refl
  where
    go :
        (o : Option ℕ)
        → rate_for action info.commission_rate ≡ o
        → (rate : ℕ) × (o ≡ some rate) × (rate ≤ max_commission_rate)
    go none e = absurd (subst IsRate e (IsRate-rate_for action info v))
    go (some rate) e = (rate, refl, subst IsRate e (IsRate-rate_for action info v))

-- A rate keeps its old value or takes a new one that passed the check.
pub new_rate-IsRate :
    (action : AssetAction) (new old : Option ℕ)
    → IsRate old
    → Ensures (λ out. IsRate out.0) (new_rate action new old)
unfolding new_rate assert_rate
new_rate-IsRate action none old h = h
new_rate-IsRate action (some rate) old h = ground arith

-- The commission is the product over a million, and the product fits 128 bits.
pub commission_for-ok :
    (a rate : ℕ) {c : ℕ}
    → commission_for a rate ≡ ok c
    → (c ≡ a * rate / 1000000) × (a * rate < u128_bound)
unfolding commission_for
commission_for-ok a rate e = ground arith

pub commission_for_within :
    (a rate : ℕ) → a * rate < u128_bound → commission_for a rate ≡ ok (a * rate / 1000000)
unfolding commission_for
commission_for_within a rate h = ground arith

-- At an allowed rate the commission is at most a twentieth of the amount.
pub commission_for-le :
    (a rate : ℕ) {c : ℕ} → rate ≤ max_commission_rate → commission_for a rate ≡ ok c → c * 20 ≤ a
commission_for-le a rate {c} h e =
    let (c_is, _) = commission_for-ok a rate e in
    let product : a * rate ≤ a * 50000 = grind arith in omega arith

pub rate-le :
    (action : AssetAction) (info : AssetInfo) {rate : ℕ}
    → IsValid info
    → rate_for action info.commission_rate ≡ some rate
    → rate ≤ max_commission_rate
rate-le action info v e = subst IsRate e (IsRate-rate_for action info v)
