-- ===== src/Tests/Histories.antt =====
-- Whole histories of the contract at the test data.
use usn.Base.{false, ℕ, ◌+◌, ◌≡◌, refl, some, none, [], ◌∷◌, arith, ok}
use usn.Base.Maps.{AccountMap}
use usn.Near.{Env}
use usn.Event.{Event}
use usn.Event.Totals.{minted, burned}
use usn.Ft.{
  FungibleTokenFreeStorage, internal_deposit, internal_withdraw, internal_transfer,
  internal_save_balance,
}
use usn.Ft
use usn.Stable
use usn.Asset.{commission_for}
use usn.Stable.{StableTreasury}
use usn.Contract.{
  Contract, BlackListStatus, banned_account, assert_owner, abort_if_pause, abort_if_blacklisted,
}
use usn.Admin
use usn.Wallet
use usn.Redeem
use usn.Request.{Request, run_logged, is_private}
use usn.Request.Books.{destroyed}
use usn.Request.History.{start, call, new-History-Balanced}
use usn.Base.{ne-same_account}
use usn.Contract.{paused, assert_owner_or_guardian}
use usn.Request.{run}
use usn.Request.Handover.{Others, handover_completes}
use usn.Request.Handover as Handover
use usn.Tests.Data.{call_from, usdt, contract}
use usn.Tests.Requests.{created, created_run}

abbrev own_call : Env
own_call = record (call_from "usn.test.near") { is_promise_success = false }

abbrev holding : AccountMap ℕ → ℕ → AccountMap BlackListStatus → Contract
holding accounts supply black_list = record created {
  token = record { accounts = accounts; total_supply = supply; unused = 0 };
  black_list = black_list;
}

refund_run :
    run_logged own_call (Request.handle_withdraw_refund "alice" usdt 5) created
    ≡ ok (
      holding (("alice", 5) ∷ []) 5 [],
      Event.ft_mint "alice" 5 (some "Refund") ∷ Event.withdraw_refund_log 5 "alice" usdt ∷ [],
    )
unfolding run_logged Redeem.handle_withdraw_refund Stable.refund Stable.refund_commission
    Stable.assert_asset Stable.assert_status Stable.decrease_commission commission_for
    internal_deposit internal_save_balance
refund_run = refl

transfer_run :
    run_logged
      (call_from "alice")
      (Request.ft_transfer "bob" 3 none)
      (holding (("alice", 5) ∷ []) 5 [])
    ≡ ok
        (holding (("alice", 2) ∷ ("bob", 3) ∷ []) 5 [], Event.ft_transfer "alice" "bob" 3 none ∷ [])
unfolding run_logged Wallet.ft_transfer Ft.ft_transfer internal_transfer internal_deposit
    internal_withdraw internal_save_balance abort_if_pause abort_if_blacklisted
transfer_run = refl

ban_run :
    run_logged
      (call_from "owner")
      (Request.add_to_blacklist "bob")
      (holding (("alice", 2) ∷ ("bob", 3) ∷ []) 5 [])
    ≡ ok (holding (("alice", 2) ∷ ("bob", 3) ∷ []) 5 (("bob", banned_account) ∷ []), [])
unfolding run_logged Admin.add_to_blacklist assert_owner
ban_run = refl

destroy_run :
    run_logged
      (call_from "owner")
      (Request.destroy_black_funds "bob")
      (holding (("alice", 2) ∷ ("bob", 3) ∷ []) 5 (("bob", banned_account) ∷ []))
    ≡ ok (holding (("alice", 2) ∷ ("bob", 0) ∷ []) 2 (("bob", banned_account) ∷ []), [])
unfolding run_logged Admin.destroy_black_funds assert_owner
destroy_run = refl

new-History-Balanced_example : 2 + 0 + 3 ≡ 5
unfolding destroyed minted burned is_private
new-History-Balanced_example =
    new-History-Balanced (call_from "owner") "ft-1.0.0" "icon" "owner" created_run (
      call (call_from "owner") (Request.destroy_black_funds "bob") []
        (call (call_from "owner") (Request.add_to_blacklist "bob") []
          (call (call_from "alice") (Request.ft_transfer "bob" 3 none) _
            (call own_call (Request.handle_withdraw_refund "alice" usdt 5) _ start (λ e. refl)
              refund_run)
            (λ e. absurd (ground arith)) transfer_run)
          (λ e. absurd (ground arith)) ban_run)
        (λ e. absurd (ground arith)) destroy_run)

-- The owner proposes "carol"; a guardian pauses the contract meanwhile.
abbrev proposed : Contract
proposed = record contract { proposed_owner_id = "carol" }

abbrev stopped : Contract
stopped = record proposed { status = paused }

guarded_run : run (call_from "guard") Request.pause proposed ≡ ok stopped
unfolding run Admin.pause assert_owner_or_guardian
guarded_run = refl

handover_completes_example :
    (run (call_from "owner") (Request.propose_new_owner "carol") contract ≡ ok proposed)
    × (run (call_from "carol") Request.accept_ownership stopped
        ≡ ok (record stopped { owner_id = "carol" }))
handover_completes_example =
    handover_completes (call_from "owner") (call_from "carol") contract "carol" refl refl
      (ne-same_account "carol" "owner" refl)
      (Handover.call (call_from "guard") Request.pause Handover.start
        (ne-same_account "guard" "owner" refl) (ne-same_account "guard" "carol" refl) guarded_run)
