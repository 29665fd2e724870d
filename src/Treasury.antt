-- ===== src/Treasury.antt =====
-- The treasury from the contract, src/lib.rs: the assets and their rates, the commissions of v1
-- and v2 and their transfer, and the transfer of NEAR.
pub mod Commissions
pub mod Transfer
pub mod Drain
use usn.Base.{
  ℕ, ◌*◌, ◌/◌, none, [], ◌∷◌, ltb, leb, if◌then◌else◌, AccountId, Result, ok, ◌>>=◌, ◌>>◌, require,
  u128_bound, u256_bound, fit, add_u128, sub_checked,
}
use usn.Base.{not_positive, exceeded_commission}
use usn.Base.Maps.{AccountMap}
use usn.Near.{Env, Promise, assert_one_yocto}
use usn.Event
use usn.Ft.{internal_deposit}
use usn.Asset.{AssetInfo, CommissionRate}
use usn.Stable
use usn.Stable.{StableTreasury, supported_assets, decrease_commission}
use usn.Contract.{Contract, CommissionV1, Outcome, done, assert_owner}

unfoldable pub add_stable_asset : Env → AccountId → ℕ → Contract → Result (Outcome (Unit {0}))
add_stable_asset env asset_id decimals c = do
  assert_owner env c
  treasury ← Stable.add_asset asset_id decimals c.stable_treasury
  done (record c { stable_treasury = treasury })

unfoldable pub enable_stable_asset : Env → AccountId → Contract → Result (Outcome (Unit {0}))
enable_stable_asset env asset_id c = do
  assert_owner env c
  treasury ← Stable.enable_asset asset_id c.stable_treasury
  done (record c { stable_treasury = treasury })

unfoldable pub disable_stable_asset : Env → AccountId → Contract → Result (Outcome (Unit {0}))
disable_stable_asset env asset_id c = do
  assert_owner env c
  treasury ← Stable.disable_asset asset_id c.stable_treasury
  done (record c { stable_treasury = treasury })

abbrev pub treasury : Contract → AccountMap AssetInfo
treasury c = supported_assets c.stable_treasury

unfoldable pub set_commission_rate :
    Env → AccountId → CommissionRate → Contract → Result (Outcome (Unit {0}))
set_commission_rate env asset_id rate c = do
  assert_owner env c
  (treasury', events) ← Stable.set_commission_rate asset_id rate c.stable_treasury
  ok (record c { stable_treasury = treasury' }, events, tt)

unfoldable pub commission_rate : AccountId → Contract → Result CommissionRate
commission_rate asset_id c = Stable.commission_rate asset_id c.stable_treasury

-- `sum()` of the assets' commissions, in 128 bits.
unfoldable pub sum_commissions : ℕ → AccountMap AssetInfo → Result ℕ
sum_commissions total [] = ok total
sum_commissions total ((_, info) ∷ rest) = do
  total' ← add_u128 total info.commission
  sum_commissions total' rest

pub record CommissionOutput : Type 0 where
  pub v1 : CommissionV1
  pub v2_usn : ℕ

unfoldable pub commission : Contract → Result CommissionOutput
unfolding sum_commissions
commission c = do
  usn ← sum_commissions 0 (treasury c)
  ok (record { v1 = c.commission; v2_usn = usn })

-- The parts of an amount that the v1 commission gives, in USN and in NEAR.
unfoldable pub v1_parts : CommissionV1 → ℕ → Result (ℕ × ℕ)
v1_parts v1 amount =
    let part = do
      product ← fit u256_bound (v1.near * amount)
      near_amount ← fit u128_bound (product / v1.usn)
      ok (amount, near_amount)
    in if ltb amount v1.usn then part else ok (v1.usn, v1.near)

-- The loop over the assets as they were before it began.
unfoldable pub take_commissions : ℕ → AccountMap AssetInfo → StableTreasury → Result StableTreasury
take_commissions usn [] s = ok s
take_commissions usn ((asset_id, info) ∷ rest) s =
    let whole = do
      s' ← decrease_commission asset_id info.commission s
      left ← sub_checked usn info.commission
      take_commissions left rest s'
    in if ltb info.commission usn then whole else decrease_commission asset_id usn s

unfoldable pub transfer_commission : Env → AccountId → ℕ → Contract → Result (Outcome (Unit {0}))
transfer_commission env account_id amount c = do
  assert_owner env c
  require (ltb 0 amount) not_positive
  (usn_v1, near_v1) ← v1_parts c.commission amount
  usn_v2 ← sub_checked amount usn_v1
  output ← commission c
  require (leb usn_v2 output.v2_usn) exceeded_commission
  usn_left ← sub_checked c.commission.usn usn_v1
  near_left ← sub_checked c.commission.near near_v1
  treasury' ← take_commissions usn_v2 (treasury c) c.stable_treasury
  token ← internal_deposit account_id amount c.token
  ok (
    record c {
      commission = record { usn = usn_left; near = near_left };
      stable_treasury = treasury';
      token = token;
    },
    Event.ft_mint account_id amount none ∷ [],
    tt,
  )

unfoldable pub transfer_near : Env → AccountId → ℕ → Contract → Result (Outcome Promise)
transfer_near env account_id amount c = do
  assert_one_yocto env
  assert_owner env c
  ok (c, [], Promise.transfer account_id amount)
