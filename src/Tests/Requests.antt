-- ===== src/Tests/Requests.antt =====
-- The theorems of the contract's requests at the test data.
use usn.Request.Owing.{owed, outsider_owed}
use usn.Request.Supply.{outsider_balances}
use usn.Ft.Ledger.{balance}
use usn.Base.{◌≤◌, ◌≡◌, refl, some, none, [], ◌∷◌, arith, ok, Ensures, ne-same_account}
use usn.Contract.{Contract, new, paused, assert_owner, assert_owner_or_guardian}
use usn.Contract.Invariant.{IsValid}
use usn.Request.{Request, run, is_private, Reach, here, next, step}
use usn.Request.Safety.{new-Reach-IsValid}
use usn.Request.Access.{
  IsRefused, needs_owner, is_pausable, is_bannable, owner_only, paused_refuses, banned_refuses,
}
use usn.Request.Ownership.{Succession, Untouched, run-Succession, run-Untouched}
use usn.Request.Supply.{outsider_supply}
use usn.Owner
use usn.Admin
use usn.Ft
use usn.Stable
use usn.Base.{false, Returns}
use usn.Redeem
use usn.Redeem.{handle_withdraw_refund, asset_or_usdt}
use usn.Redeem.Refund.{Restored, failed_payment_reverts}
use usn.Tests.Data.{call_from, usdt, usdt_info, contract, contract-IsValid}

abbrev pub created : Contract
created = record contract {
  proposed_owner_id = "owner";
  guardians = [];
  token = Ft.new;
  metadata = some (record {
    spec = "ft-1.0.0";
    name = "USN";
    symbol = "USN";
    icon = some "icon";
    reference = none;
    reference_hash = none;
    decimals = 18;
  });
  black_list = [];
  commission = record { usn = 0; near = 0 };
  stable_treasury = record { assets = (usdt, record usdt_info { commission = 0 }) ∷ [] };
}

pub created_run : new (call_from "owner") "ft-1.0.0" "icon" "owner" ≡ ok created
unfolding new Stable.new
created_run = refl

-- The owner names a guardian and the guardian pauses the contract.
stopped_Reach : Reach created (record created { guardians = "guard" ∷ []; status = paused })
unfolding run is_private Admin.pause Owner.extend_guardians Owner.insert_guardians assert_owner
    assert_owner_or_guardian
stopped_Reach =
    next
      (next here (
        step (call_from "owner") (Request.extend_guardians ("guard" ∷ []))
          (λ e. absurd (ground arith)) refl))
      (step (call_from "guard") Request.pause (λ e. absurd (ground arith)) refl)

new-Reach-IsValid_example : IsValid (record created { guardians = "guard" ∷ []; status = paused })
new-Reach-IsValid_example =
    new-Reach-IsValid (call_from "owner") "ft-1.0.0" "icon" "owner" created_run stopped_Reach

owner_only_example :
    IsRefused (run (call_from "alice") (Request.transfer_commission "alice" 5) contract)
unfolding needs_owner
owner_only_example =
    owner_only (call_from "alice") contract (Request.transfer_commission "alice" 5) refl
      (ne-same_account "alice" "owner" refl)

paused_refuses_example :
    IsRefused
      (run (call_from "alice") (Request.withdraw none 5) (record contract { status = paused }))
unfolding is_pausable
paused_refuses_example =
    paused_refuses (call_from "alice") (record contract { status = paused })
      (Request.withdraw none 5) refl refl

banned_refuses_example :
    IsRefused (run (call_from "bob") (Request.ft_transfer "alice" 5 none) contract)
unfolding is_bannable
banned_refuses_example =
    banned_refuses (call_from "bob") contract (Request.ft_transfer "alice" 5 none) refl refl

outsider_supply_example :
    Ensures
      (λ d. d.token.total_supply ≤ contract.token.total_supply)
      (run (call_from "alice") (Request.withdraw none 2_000_000_000_000_000) contract)
unfolding is_private
outsider_supply_example =
    outsider_supply (call_from "alice") contract contract-IsValid
      (Request.withdraw none 2_000_000_000_000_000) (λ e. absurd (ground arith))
      (ne-same_account "alice" "owner" refl) (ne-same_account "alice" "usn.test.near" refl)

run-Succession_example :
    Ensures
      (Succession (call_from "heir") contract)
      (run (call_from "heir") Request.accept_ownership contract)
run-Succession_example = run-Succession (call_from "heir") contract Request.accept_ownership

run-Untouched_example :
    Ensures
      (Untouched (call_from "guard") contract)
      (run (call_from "guard") Request.pause contract)
run-Untouched_example =
    run-Untouched (call_from "guard") contract (ne-same_account "guard" "owner" refl) Request.pause

failed_payment_reverts_example :
    Ensures
      (λ o.
        Returns
          (λ p. Restored contract p.0)
          (handle_withdraw_refund
            (record (call_from "usn.test.near") { is_promise_success = false })
            "alice"
            (asset_or_usdt (call_from "alice") none)
            2_000_000_000_000_000
            o.0))
      (Redeem.withdraw (call_from "alice") none 2_000_000_000_000_000 contract)
failed_payment_reverts_example =
    failed_payment_reverts (call_from "alice")
      (record (call_from "usn.test.near") { is_promise_success = false }) none 2_000_000_000_000_000
      contract contract-IsValid refl

outsider_balances_example :
    Ensures
      (λ d. balance "bob" contract.token ≤ balance "bob" d.token)
      (run (call_from "alice") (Request.withdraw none 2_000_000_000_000_000) contract)
unfolding is_private
outsider_balances_example =
    outsider_balances (call_from "alice") contract contract-IsValid
      (Request.withdraw none 2_000_000_000_000_000) "bob" (ne-same_account "bob" "alice" refl)
      (λ e. absurd (ground arith)) (ne-same_account "alice" "owner" refl)
      (ne-same_account "alice" "usn.test.near" refl)

outsider_owed_example :
    Ensures
      (λ d. owed d ≤ owed contract)
      (run (call_from "alice") (Request.withdraw none 2_000_000_000_000_000) contract)
unfolding is_private
outsider_owed_example =
    outsider_owed (call_from "alice") contract contract-IsValid
      (ne-same_account "alice" "owner" refl) (ne-same_account "alice" "usn.test.near" refl)
      (Request.withdraw none 2_000_000_000_000_000) (λ e. absurd (ground arith))
