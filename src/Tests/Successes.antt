-- ===== src/Tests/Successes.antt =====
-- What the contract serves, at the test data.
use usn.Base.{◌+◌, ◌≡◌, ok, false}
use usn.Event
use usn.Stable
use usn.Admin
use usn.Asset.{convert_decimals, commission_for}
use usn.Ft.{internal_withdraw, internal_save_balance}
use usn.Ft.Ledger.{Credited}
use usn.Contract.{Contract, paused, abort_if_pause, abort_if_blacklisted, assert_owner_or_guardian}
use usn.Redeem.{payment, handle_withdraw_refund}
use usn.Request.{Request, run, is_private}
use usn.Request.Owing.{owed_v2}
use usn.Request.Refunds.{start, call, late_refund}
use usn.Tests.Data.{stable_with}
use usn.Base.{refl, none, some, [], ◌∷◌, arith, ne-same_account, Returns}
use usn.Ft.Transfer.{Transferred}
use usn.Wallet
use usn.Wallet.Success.{ft_transfer-Transferred}
use usn.Redeem
use usn.Redeem.{asset_or_usdt}
use usn.Redeem.Success.{Paid, withdraw-Paid}
use usn.Upgrade.{upgrade, Upgraded, upgrade_succeeds}
use usn.Tests.Data.{call_from, usdt, usdt_info, contract, contract-IsValid}

ft_transfer-Transferred_example :
    Returns
      (λ o. Transferred "alice" "carol" 3 none contract.token (o.0.token, o.1))
      (Wallet.ft_transfer (call_from "alice") "carol" 3 none contract)
ft_transfer-Transferred_example =
    ft_transfer-Transferred (call_from "alice") contract contract-IsValid refl refl refl "carol" 3
      none (ne-same_account "alice" "carol" refl) (omega arith) (omega arith)

withdraw-Paid_example :
    Returns
      (Paid
        (call_from "alice")
        (asset_or_usdt (call_from "alice") none)
        2_000_000_000_000_000
        contract)
      (Redeem.withdraw (call_from "alice") none 2_000_000_000_000_000 contract)
withdraw-Paid_example =
    withdraw-Paid (call_from "alice") contract contract-IsValid refl refl refl none
      2_000_000_000_000_000 usdt_info refl refl (omega arith) (omega arith) (omega arith)
      (omega arith) (omega arith)

upgrade_succeeds_example :
    Returns
      (Upgraded (call_from "owner") (1 ∷ 2 ∷ []) (some contract))
      (upgrade (call_from "owner") (1 ∷ 2 ∷ []) (some contract))
upgrade_succeeds_example =
    upgrade_succeeds (call_from "owner") (1 ∷ 2 ∷ []) contract refl (omega arith)

-- "alice" withdraws, a guardian pauses the contract, and then the payment turns out to have failed.
abbrev withdrawn : Contract
withdrawn = record contract {
  token = record {
    accounts = ("alice", 3_000_000_000_000_000) ∷ ("bob", 7) ∷ [];
    total_supply = 3_000_000_000_000_007;
    unused = 0;
  };
  stable_treasury = stable_with 200_000_000_040;
}

withdrawn_run :
    Redeem.withdraw (call_from "alice") none 2_000_000_000_000_000 contract
    ≡ ok (
      withdrawn,
      Event.ft_burn "alice" 2_000_000_000_000_000 none ∷ [],
      payment (call_from "alice") "alice" usdt 1999 2_000_000_000_000_000,
    )
unfolding Redeem.withdraw Stable.withdraw Stable.withdraw_commission Stable.assert_asset
    Stable.assert_status convert_decimals commission_for internal_withdraw internal_save_balance
    abort_if_pause abort_if_blacklisted
withdrawn_run = refl

stopped_run :
    run (call_from "guard") Request.pause withdrawn ≡ ok (record withdrawn { status = paused })
unfolding run Admin.pause assert_owner_or_guardian
stopped_run = refl

late_refund_example :
    Returns
      (λ o.
        Credited "alice" 2_000_000_000_000_000 withdrawn.token o.0.token
        × (owed_v2 o.0 + owed_v2 withdrawn ≡ owed_v2 withdrawn + owed_v2 contract))
      (handle_withdraw_refund
        (record (call_from "usn.test.near") { is_promise_success = false })
        "alice"
        (asset_or_usdt (call_from "alice") none)
        2_000_000_000_000_000
        (record withdrawn { status = paused }))
unfolding is_private
late_refund_example =
    late_refund (call_from "alice")
      (record (call_from "usn.test.near") { is_promise_success = false }) none 2_000_000_000_000_000
      contract contract-IsValid withdrawn_run
      (call (call_from "guard") Request.pause start (λ e. absurd (ground arith))
        (ne-same_account "guard" "owner" refl) (ne-same_account "guard" "usn.test.near" refl)
        stopped_run)
      refl
