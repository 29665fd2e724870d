-- ===== src/Redeem.antt =====
-- Withdrawing a stable coin for USN: `withdraw` and `handle_withdraw_refund` of src/lib.rs.
pub mod Refund
pub mod Success
use usn.Base.{
  ℕ, Option, none, some, [], ◌∷◌, ◌++◌, if◌then◌else◌, AccountId, Result, ok, ◌>>=◌, ◌>>◌,
}
use usn.Near
use usn.Near.{Env, Promise, and_then, as_return, assert_one_yocto}
use usn.Event
use usn.Ft.{no_deposit}
use usn.Asset.{usdt_id}
use usn.Stable
use usn.Contract.{Contract, Outcome, abort_if_pause, abort_if_blacklisted}
use usn.Mint.{gas_for_refund_promise}

abbrev pub gas_for_ft_transfer : ℕ
gas_for_ft_transfer = 25_000_000_000_000

abbrev pub one_yocto : ℕ
one_yocto = 1

abbrev pub asset_or_usdt : Env → Option AccountId → AccountId
asset_or_usdt env none = usdt_id env.network
asset_or_usdt env (some asset_id) = asset_id

-- The payment in the asset, then the callback that refunds if it fails.
abbrev pub payment : Env → AccountId → AccountId → ℕ → ℕ → Promise
payment env account_id asset_id asset_amount amount =
    and_then
      (as_return (
        Promise.call (Near.ft_transfer account_id asset_amount none) asset_id one_yocto
          gas_for_ft_transfer))
      (Promise.call (Near.handle_withdraw_refund account_id asset_id amount) env.current_account_id
        no_deposit gas_for_refund_promise)

unfoldable pub withdraw : Env → Option AccountId → ℕ → Contract → Result (Outcome Promise)
withdraw env asset amount c = do
  let account_id = env.predecessor_account_id
  let asset_id = asset_or_usdt env asset
  assert_one_yocto env
  abort_if_pause c
  abort_if_blacklisted account_id c
  (treasury, token, events, asset_amount) ←
      Stable.withdraw account_id asset_id amount c.stable_treasury c.token
  ok (
    record c { token = token; stable_treasury = treasury },
    events,
    payment env account_id asset_id asset_amount amount,
  )

unfoldable pub handle_withdraw_refund :
    Env → AccountId → AccountId → ℕ → Contract → Result (Outcome (Unit {0}))
handle_withdraw_refund env account_id token_id amount c =
    let refunded = do
      (treasury, token, events) ← Stable.refund account_id token_id amount c.stable_treasury c.token
      ok (
        record c { token = token; stable_treasury = treasury },
        events ++ Event.withdraw_refund_log amount account_id token_id ∷ [],
        tt,
      )
    in if env.is_promise_success then ok (c, [], tt) else refunded
