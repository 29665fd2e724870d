-- ===== src/Asset.antt =====
-- One supported asset, src/stable.rs: its data, its constants, the conversion between decimals and
-- the commission on an amount.
pub mod Decimals
pub mod Commission
use usn.Base.{
  ℕ, ◌-◌, ◌/◌, Bool, true, false, ◌&&◌, Option, none, some, List, [], ◌∷◌, ltb, leb, if◌then◌else◌,
  AccountId, Result, ok, ◌>>=◌, ◌>>◌, require, mul_u128, pow10,
}
use usn.Base.{decimals_out_of_bounds, rate_too_high}
use usn.Near.{Network, mainnet, testnet, sandbox}
use usn.Event
use usn.Event.{Event, AssetAction, deposit_action, withdraw_action}

-- `USN_DECIMALS` of src/lib.rs.
abbrev pub usn_decimals : ℕ
usn_decimals = 18

abbrev pub usdt_decimals : ℕ
usdt_decimals = 6

abbrev pub max_valid_decimals : ℕ
max_valid_decimals = 37

abbrev pub max_commission_rate : ℕ
max_commission_rate = 50000

abbrev pub spread_decimal : ℕ
spread_decimal = 6

abbrev pub initial_commission_rate : ℕ
initial_commission_rate = 100

abbrev pub usdt_id : Network → AccountId
usdt_id mainnet = "dac17f958d2ee523a2206206994597c13d831ec7.factory.bridge.near"
usdt_id testnet = "usdt.fakes.testnet"
usdt_id sandbox = "usdt.test.near"

pub data AssetStatus : Type 0 where
  enabled disabled : AssetStatus

abbrev pub same_status : AssetStatus → AssetStatus → Bool
same_status enabled enabled = true
same_status disabled disabled = true
same_status _ _ = false

pub record CommissionRate : Type 0 where
  pub deposit : Option ℕ
  pub withdraw : Option ℕ

abbrev pub default_rate : CommissionRate
default_rate = record {
  deposit = some initial_commission_rate;
  withdraw = some initial_commission_rate;
}

pub record AssetInfo : Type 0 where
  pub decimals : ℕ
  pub status : AssetStatus
  pub commission : ℕ
  pub commission_rate : CommissionRate

unfoldable pub new_asset : ℕ → Result AssetInfo
new_asset decimals = do
  require (ltb 0 decimals && leb decimals max_valid_decimals) decimals_out_of_bounds
  ok (record {
    decimals = decimals;
    status = enabled;
    commission = 0;
    commission_rate = default_rate;
  })

unfoldable pub convert_decimals : ℕ → ℕ → ℕ → Result ℕ
convert_decimals amount decimals_from decimals_to =
    let up = do power ← pow10 (decimals_to - decimals_from); mul_u128 amount power
    in let down = do power ← pow10 (decimals_from - decimals_to); ok (amount / power)
      in if ltb decimals_from decimals_to
        then up
        else (if ltb decimals_to decimals_from then down else ok amount)

abbrev pub rate_for : AssetAction → CommissionRate → Option ℕ
rate_for deposit_action rate = rate.deposit
rate_for withdraw_action rate = rate.withdraw

-- `amount * rate / 10^6`, with the overflow check of the product.
unfoldable pub commission_for : ℕ → ℕ → Result ℕ
commission_for amount rate = do
  scaled ← mul_u128 amount rate
  spread ← pow10 spread_decimal
  ok (scaled / spread)

unfoldable pub assert_rate : ℕ → Result (Unit {0})
assert_rate rate = require (leb rate max_commission_rate) rate_too_high

-- One of the two optional writes of `set_commission_rate`: the new rate, or the old one kept.
unfoldable pub new_rate : AssetAction → Option ℕ → Option ℕ → Result (Option ℕ × List Event)
new_rate action none old = ok (old, [])
new_rate action (some rate) old = do
  assert_rate rate
  ok (some rate, Event.new_rate_log action rate ∷ [])
