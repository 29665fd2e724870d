-- ===== src/Tests/Rules.antt =====
-- Runs of src/stable.rs, and the theorems of the exchange and of the commission at the test data.
use usn.Base.{some}
use usn.Stable.{StableTreasury}
use usn.Asset.{initial_commission_rate}
use usn.Treasury.Drain.{drawn, take_commissions-drawn}
use usn.Treasury.{take_commissions}
use usn.Base.{
  ℕ, ◌+◌, ◌≤◌, ◌<◌, ◌≡◌, refl, none, [], ◌∷◌, arith, AccountId, ok, err, Returns, Ensures-of_ok,
  u128_bound,
}
use usn.Base.{wrong_status, exceeded_commission}
use usn.Event.{Event}
use usn.Ft.{FungibleTokenFreeStorage, internal_deposit, internal_withdraw, internal_save_balance}
use usn.Ft.Ledger
use usn.Ft.Ledger.{balance}
use usn.Stable.{
  deposit, withdraw, refund, disable_asset, assert_asset, assert_status, withdraw_commission,
  get_asset,
}
use usn.Treasury.{transfer_commission}
use usn.Treasury.Transfer.{
  Transferred, transfer_commission-Transferred, transfer_commission_exceeded,
}
use usn.Asset.{disabled, convert_decimals, commission_for}
use usn.Stable.Fees.{total_commission}
use usn.Stable.Exchange.{Deposited, Withdrawn, withdraw-Withdrawn}
use usn.Stable.Success.{deposit_succeeds}
use usn.Stable.Backing.{no_gain, refund_undoes_withdraw, refund_of_disabled}
use usn.Tests.Data.{
  call_from, token, token-IsValid, usdt, stable, stable-IsValid, stable_with, stable_with-IsValid,
  usdt_info, contract, contract-IsValid,
}

abbrev token_of : ℕ → FungibleTokenFreeStorage
token_of n = record { accounts = ("alice", n) ∷ ("bob", 7) ∷ []; total_supply = n + 7; unused = 0 }

token_of-IsValid : (n : ℕ) → n + 7 < u128_bound → Ledger.IsValid (token_of n)
token_of-IsValid n h = record {
  distinct = (refl, (refl, tt));
  conserved = omega arith;
  bounded = h;
}

deposit_run :
    deposit "alice" usdt 1000 stable token
    ≡ ok (
      stable_with 100000000040,
      token_of 5999900000000000,
      Event.ft_mint "alice" 999900000000000 none ∷ [],
    )
unfolding deposit convert_decimals commission_for withdraw_commission internal_deposit
    internal_save_balance assert_asset assert_status get_asset
deposit_run = refl

withdraw_run :
    withdraw "alice" usdt 900_000_000_000_000 (stable_with 100000000040) (token_of 5999900000000000)
    ≡ ok (
      stable_with 190000000040,
      token_of 5099900000000000,
      Event.ft_burn "alice" 900000000000000 none ∷ [],
      899,
    )
unfolding withdraw convert_decimals commission_for withdraw_commission internal_withdraw
    internal_save_balance assert_asset assert_status get_asset
withdraw_run = refl

withdrawn :
    Withdrawn "alice" usdt 900_000_000_000_000
      (stable_with 100000000040)
      (stable_with 190000000040)
      (token_of 5999900000000000)
      (token_of 5099900000000000)
      (Event.ft_burn "alice" 900000000000000 none ∷ [])
      899
withdrawn =
    Ensures-of_ok
      (λ out.
        Withdrawn "alice" usdt 900_000_000_000_000 (stable_with 100000000040) out.0
          (token_of 5999900000000000) out.1 out.2 out.3)
      _
      (withdraw-Withdrawn "alice" usdt 900_000_000_000_000 (stable_with 100000000040)
        (token_of 5999900000000000) (stable_with-IsValid 100000000040)
        (token_of-IsValid 5999900000000000 (omega arith)))
      withdraw_run

no_gain_example :
    (899 ≤ 1000)
    × ((token_of 5099900000000000).total_supply + 900_000_000_000_000
        ≡ (token_of 5999900000000000).total_supply)
    × (token.total_supply + total_commission stable
        ≤ (token_of 5099900000000000).total_supply + total_commission (stable_with 190000000040))
no_gain_example =
    no_gain "alice" "alice" usdt 1000 900_000_000_000_000 stable token stable-IsValid token-IsValid
      deposit_run withdraw_run (omega arith)

refund_undoes_withdraw_example :
    Returns
      (λ back.
        (back.0 ≡ stable_with 100000000040)
        × Ledger.IsValid back.1
        × (back.1.total_supply ≡ 5999900000000007)
        × ((j : AccountId) → balance j back.1 ≡ balance j (token_of 5999900000000000)))
      (refund "alice" usdt 900_000_000_000_000
        (stable_with 190000000040)
        (token_of 5099900000000000))
refund_undoes_withdraw_example =
    refund_undoes_withdraw "alice" usdt 900_000_000_000_000 (stable_with 100000000040)
      (token_of 5999900000000000) (stable_with-IsValid 100000000040)
      (token_of-IsValid 5999900000000000 (omega arith)) withdraw_run

disable_run :
    disable_asset "dai" (record { assets = ("dai", usdt_info) ∷ [] })
    ≡ ok (record { assets = ("dai", record usdt_info { status = disabled }) ∷ [] })
unfolding disable_asset
disable_run = refl

refund_of_disabled_example :
    refund "alice" "dai" 5
      (record { assets = ("dai", record usdt_info { status = disabled }) ∷ [] })
      token
    ≡ err (wrong_status "dai")
refund_of_disabled_example =
    refund_of_disabled "alice" "dai" 5 (record { assets = ("dai", usdt_info) ∷ [] }) token
      disable_run

transfer_commission-Transferred_example :
    Returns
      (λ o. Transferred "alice" 120 contract o.0)
      (transfer_commission (call_from "owner") "alice" 120 contract)
transfer_commission-Transferred_example =
    transfer_commission-Transferred (call_from "owner") "alice" 120 contract contract-IsValid refl
      (omega arith) (omega arith) (omega arith) (omega arith) (omega arith)

transfer_commission_exceeded_example :
    transfer_commission (call_from "owner") "alice" 143 contract ≡ err exceeded_commission
transfer_commission_exceeded_example =
    transfer_commission_exceeded (call_from "owner") "alice" 143 contract contract-IsValid refl
      (omega arith) (omega arith) (omega arith)

converted_run : convert_decimals 1000 6 18 ≡ ok 1000000000000000
unfolding convert_decimals
converted_run = refl

deposit_succeeds_example :
    Returns
      (λ out. Deposited "alice" usdt 1000 stable out.0 token out.1 out.2)
      (deposit "alice" usdt 1000 stable token)
deposit_succeeds_example =
    deposit_succeeds "alice" usdt stable token stable-IsValid token-IsValid 1000
      (record usdt_info { commission = 40 }) refl refl converted_run (omega arith) (omega arith)
      (omega arith)

take_commissions-drawn_example :
    take_commissions 41 stable.assets stable ≡ ok (record { assets = drawn 41 stable.assets })
take_commissions-drawn_example = take_commissions-drawn 41 stable (refl, (refl, tt)) (omega arith)

abbrev raised : StableTreasury
raised = record {
  assets =
      (
        usdt,
        record usdt_info {
          commission = 190000000040;
          commission_rate = record {
            deposit = some initial_commission_rate;
            withdraw = some 50000;
          };
        },
      )
      ∷ ("dai", record usdt_info { commission = 2 })
      ∷ [];
}
