-- ===== src/Stable.antt =====
-- The treasury of stable coins, src/stable.rs: the supported assets with their status, their
-- commission in USN and their rates, and the exchange of an asset for USN and back.
pub mod Invariant
pub mod Fees
pub mod Exchange
pub mod Backing
pub mod Success
pub mod Raised
pub mod Kept
use usn.Base.{
  ℕ, true, false, not, none, some, List, [], ◌∷◌, ◌++◌, ◌==◌, AccountId, Result, ok, ◌>>=◌, ◌>>◌,
  require, or_panic, add_u128, sub_checked, checked_sub,
}
use usn.Base.{
  unwrap_none, already_supported, not_supported, wrong_status, exchanges_to_nothing,
  failed_to_decrease_commission,
}
use usn.Base.Maps.{AccountMap, get, insert}
use usn.Near.{Network}
use usn.Event
use usn.Event.{Event, AssetAction, deposit_action, withdraw_action}
use usn.Ft.{FungibleTokenFreeStorage, internal_deposit, internal_withdraw}
use usn.Asset.{
  AssetInfo, AssetStatus, CommissionRate, enabled, disabled, same_status, new_asset, usdt_id,
  usdt_decimals, usn_decimals, rate_for, commission_for, convert_decimals, new_rate,
}

pub record StableTreasury : Type 0 where
  pub assets : AccountMap AssetInfo

-- `self.assets.get(asset_id).unwrap()` and `self.assets.insert(asset_id, &asset_info)`
abbrev pub get_asset : AccountId → StableTreasury → Result AssetInfo
get_asset asset_id s = or_panic (get asset_id s.assets) unwrap_none

abbrev pub set_asset : AccountId → AssetInfo → StableTreasury → StableTreasury
set_asset asset_id info s = record { assets = insert asset_id info s.assets }

unfoldable pub add_asset : AccountId → ℕ → StableTreasury → Result StableTreasury
add_asset asset_id decimals s = do
  require (elim (get asset_id s.assets) [ none ↦ true | some _ ↦ false ])
      (already_supported asset_id)
  asset_info ← new_asset decimals
  ok (set_asset asset_id asset_info s)

unfoldable pub new : Network → Result StableTreasury
unfolding add_asset new_asset
new network = add_asset (usdt_id network) usdt_decimals (record { assets = [] })

unfoldable pub assert_asset : AccountId → StableTreasury → Result (Unit {0})
assert_asset asset_id s =
    require (elim (get asset_id s.assets) [ none ↦ false | some _ ↦ true ]) (not_supported asset_id)

unfoldable pub assert_status : AccountId → AssetStatus → StableTreasury → Result (Unit {0})
assert_status asset_id status s = do
  info ← get_asset asset_id s
  require (same_status info.status status) (wrong_status asset_id)

unfoldable pub switch_status : AccountId → AssetStatus → StableTreasury → Result StableTreasury
switch_status asset_id status s = do
  info ← get_asset asset_id s
  ok (set_asset asset_id (record info { status = status }) s)

unfoldable pub enable_asset : AccountId → StableTreasury → Result StableTreasury
unfolding assert_asset assert_status switch_status
enable_asset asset_id s = do
  assert_asset asset_id s
  assert_status asset_id disabled s
  switch_status asset_id enabled s

unfoldable pub disable_asset : AccountId → StableTreasury → Result StableTreasury
unfolding assert_asset assert_status switch_status
disable_asset asset_id s = do
  assert_asset asset_id s
  assert_status asset_id enabled s
  switch_status asset_id disabled s

abbrev pub supported_assets : StableTreasury → AccountMap AssetInfo
supported_assets s = s.assets

unfoldable pub withdraw_commission :
    AccountId → ℕ → AssetAction → StableTreasury → Result (StableTreasury × ℕ)
withdraw_commission asset_id amount action s = do
  info ← get_asset asset_id s
  rate ← or_panic (rate_for action info.commission_rate) unwrap_none
  commission ← commission_for amount rate
  total ← add_u128 info.commission commission
  rest ← sub_checked amount commission
  ok (set_asset asset_id (record info { commission = total }) s, rest)

unfoldable pub decrease_commission : AccountId → ℕ → StableTreasury → Result StableTreasury
decrease_commission asset_id commission s = do
  info ← get_asset asset_id s
  rest ← or_panic (checked_sub info.commission commission) (failed_to_decrease_commission asset_id)
  ok (set_asset asset_id (record info { commission = rest }) s)

unfoldable pub refund_commission : AccountId → ℕ → StableTreasury → Result StableTreasury
refund_commission asset_id amount s = do
  info ← get_asset asset_id s
  rate ← or_panic info.commission_rate.withdraw unwrap_none
  commission ← commission_for amount rate
  decrease_commission asset_id commission s

unfoldable pub deposit :
    AccountId
    → AccountId
    → ℕ
    → StableTreasury
    → FungibleTokenFreeStorage
    → Result (StableTreasury × FungibleTokenFreeStorage × List Event)
deposit account_id asset_id asset_amount s ft = do
  assert_asset asset_id s
  assert_status asset_id enabled s
  asset ← get_asset asset_id s
  amount ← convert_decimals asset_amount asset.decimals usn_decimals
  (s', amount_without_fee) ← withdraw_commission asset_id amount deposit_action s
  ft' ← internal_deposit account_id amount_without_fee ft
  ok (s', ft', Event.ft_mint account_id amount_without_fee none ∷ [])

unfoldable pub withdraw :
    AccountId
    → AccountId
    → ℕ
    → StableTreasury
    → FungibleTokenFreeStorage
    → Result (StableTreasury × FungibleTokenFreeStorage × List Event × ℕ)
withdraw account_id asset_id amount s ft = do
  assert_asset asset_id s
  assert_status asset_id enabled s
  asset ← get_asset asset_id s
  (s', amount_without_fee) ← withdraw_commission asset_id amount withdraw_action s
  asset_amount ← convert_decimals amount_without_fee usn_decimals asset.decimals
  require (not (asset_amount == 0)) exchanges_to_nothing
  ft' ← internal_withdraw account_id amount ft
  ok (s', ft', Event.ft_burn account_id amount none ∷ [], asset_amount)

unfoldable pub refund :
    AccountId
    → AccountId
    → ℕ
    → StableTreasury
    → FungibleTokenFreeStorage
    → Result (StableTreasury × FungibleTokenFreeStorage × List Event)
refund account_id asset_id original_amount s ft = do
  assert_asset asset_id s
  assert_status asset_id enabled s
  s' ← refund_commission asset_id original_amount s
  ft' ← internal_deposit account_id original_amount ft
  ok (s', ft', Event.ft_mint account_id original_amount (some "Refund") ∷ [])

unfoldable pub set_commission_rate :
    AccountId → CommissionRate → StableTreasury → Result (StableTreasury × List Event)
set_commission_rate asset_id rate s = do
  assert_asset asset_id s
  info ← get_asset asset_id s
  (deposit_rate, deposit_log) ← new_rate deposit_action rate.deposit info.commission_rate.deposit
  (withdraw_rate, withdraw_log) ←
      new_rate withdraw_action rate.withdraw info.commission_rate.withdraw
  let rates : CommissionRate = record { deposit = deposit_rate; withdraw = withdraw_rate }
  ok (set_asset asset_id (record info { commission_rate = rates }) s, deposit_log ++ withdraw_log)

unfoldable pub commission_rate : AccountId → StableTreasury → Result CommissionRate
commission_rate asset_id s = do
  assert_asset asset_id s
  info ← get_asset asset_id s
  ok info.commission_rate
