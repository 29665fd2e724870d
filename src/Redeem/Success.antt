-- ===== src/Redeem/Success.antt =====
-- Which withdrawals the contract of src/lib.rs serves, and the payment that it schedules.
use usn.Base.{
  ℕ, ◌+◌, ◌-◌, ◌*◌, ◌^◌, ◌≤◌, ◌<◌, ◌≡◌, refl, Option, some, AccountId, Returns, Returns-ok,
  u128_bound,
}
use usn.Base.Maps.{get}
use usn.Near.{Env, Promise, and_then, as_return, assert_one_yocto}
use usn.Ft.Ledger.{balance}
use usn.Asset.{AssetInfo, enabled, usn_decimals, max_commission_rate}
use usn.Stable.Exchange.{Withdrawn, withdraw-Withdrawn}
use usn.Stable.Success.{withdraw_succeeds}
use usn.Contract.{
  Contract, Outcome, working, allowable, blacklist_status, abort_if_pause, abort_if_blacklisted,
}
use usn.Contract.Invariant.{IsValid}
use usn.Base.{Ensures, Ensures-bind, Ensures-of_ok}
use usn.Redeem
use usn.Stable
use usn.Redeem.{asset_or_usdt}
use usn.Base.{none}
use usn.Near

-- The amount is burned against the asset, and what it is worth is on its way to the account.
pub record Paid (env : Env) (k : AccountId) (x : ℕ) (c : Contract) (o : Outcome Promise)
    : Type 0 where
  pub asset_amount : ℕ
  pub withdrawn :
      Withdrawn env.predecessor_account_id k x c.stable_treasury o.0.stable_treasury c.token
        o.0.token o.1 asset_amount
  pub scheduled :
      o.2
      ≡ and_then
          (as_return (
            Promise.call
              (Near.ft_transfer env.predecessor_account_id asset_amount none)
              k
              1
              25_000_000_000_000))
          (Promise.call
            (Near.handle_withdraw_refund env.predecessor_account_id k x)
            env.current_account_id
            0
            5_000_000_000_000)

-- A withdrawal of a valid state that returned.
pub withdraw-returned_Paid :
    (env : Env) (asset : Option AccountId) (x : ℕ) (c : Contract)
    → IsValid c
    → Ensures (Paid env (asset_or_usdt env asset) x c) (Redeem.withdraw env asset x c)
unfolding Redeem.withdraw
withdraw-returned_Paid env asset x c v =
    let me = env.predecessor_account_id in
    let k = asset_or_usdt env asset in
    let P = Paid env k x c in
    Ensures-bind P (assert_one_yocto env) _ λ _ _. Ensures-bind P (abort_if_pause c) _ λ _ _.
      Ensures-bind P (abort_if_blacklisted me c) _ λ _ _.
        Ensures-bind P (Stable.withdraw me k x c.stable_treasury c.token) _ λ (s, t, e, out) h.
          record {
            asset_amount = out;
            withdrawn =
                Ensures-of_ok (λ o. Withdrawn me k x c.stable_treasury o.0 c.token o.1 o.2 o.3) _
                  (withdraw-Withdrawn me k x c.stable_treasury c.token v.treasury v.token) h;
            scheduled = refl;
          }

module _ (env : Env) (c : Contract) (v : IsValid c) (one : env.attached_deposit ≡ 1)
    (on : c.status ≡ working)
    (free : blacklist_status env.predecessor_account_id c ≡ allowable) where
  -- In a valid state, a withdrawal returns where one yoctoNEAR is attached, the contract works, the
  -- caller is not banned and holds the amount, the asset is enabled with at most 18 decimals, 95
  -- percent of the amount are at least its smallest unit, and 128 bits are enough for the amount
  -- times the highest rate and for the commission of the asset plus the amount; it has done the
  -- steps of a withdrawal of the treasury, and has scheduled a transfer by the asset contract of
  -- just what was withdrawn to the caller, with one yoctoNEAR and 25 Tgas, as the answer, and after
  -- it, with 5 Tgas and no deposit, the call of handle_withdraw_refund on the contract itself with
  -- the caller, the asset and the burned amount.
  pub withdraw-Paid :
      (asset : Option AccountId) (x : ℕ) (info : AssetInfo)
      → get (asset_or_usdt env asset) c.stable_treasury.assets ≡ some info
      → info.status ≡ enabled
      → info.decimals ≤ usn_decimals
      → 10 ^ (usn_decimals - info.decimals) * 20 ≤ x * 19
      → x * max_commission_rate < u128_bound
      → info.commission + x < u128_bound
      → x ≤ balance env.predecessor_account_id c.token
      → Returns (Paid env (asset_or_usdt env asset) x c) (Redeem.withdraw env asset x c)
  unfolding Redeem.withdraw abort_if_pause abort_if_blacklisted
  withdraw-Paid asset x info found active coarse unit wide room cover =
      let me = env.predecessor_account_id in
      let k = asset_or_usdt env asset in
      let (o, returned, w) =
        Returns-ok (λ o. Withdrawn me k x c.stable_treasury o.0 c.token o.1 o.2 o.3) _
          (withdraw_succeeds me k c.stable_treasury c.token v.treasury v.token x info found active
            coarse unit wide room cover) in
      rw (one, on, free, returned) (record { asset_amount = o.3; withdrawn = w; scheduled = refl })
