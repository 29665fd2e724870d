-- ===== src/Tests/Exchange.antt =====
-- The theorems of the conversion and of the commission of src/stable.rs at the test data.
use usn.Base.{ℕ, ◌+◌, ◌-◌, ◌*◌, ◌^◌, ◌≤◌, ◌<◌, ◌≡◌, refl, ◌≢◌, some, arith, ok, Ensures, Returns}
use usn.Base.Maps.{get}
use usn.Event.{deposit_action}
use usn.Ft.{internal_deposit, internal_withdraw, internal_save_balance}
use usn.Ft.Ledger.{balance}
use usn.Asset.{AssetInfo, usn_decimals, convert_decimals, commission_for}
use usn.Asset.Decimals.{convert_decimals_round_trip, convert_decimals_loss}
use usn.Stable.{
  deposit, withdraw, refund, disable_asset, assert_asset, assert_status, withdraw_commission,
}
use usn.Stable.Fees.{Charged, withdraw_commission-Charged, total_commission}
use usn.Stable.Backing.{deposit_backed, withdraw_backed}
use usn.Tests.Data.{token, token-IsValid, usdt, stable, stable-IsValid}

exchange_runs : Unit {0}
unfolding deposit withdraw refund disable_asset convert_decimals commission_for withdraw_commission
    internal_deposit internal_withdraw internal_save_balance assert_asset assert_status
exchange_runs = tt

-- `test_convert_decimals_up` and `test_convert_decimals_down` of src/stable.rs.
convert_up_run : convert_decimals 10000 16 18 ≡ ok 1000000
unfolding convert_decimals
convert_up_run = refl

convert_down_run : convert_decimals 10099 20 18 ≡ ok 100
unfolding convert_decimals
convert_down_run = refl

convert_decimals_round_trip_example : convert_decimals 1000000 18 16 ≡ ok 10000
convert_decimals_round_trip_example =
    convert_decimals_round_trip 10000 16 18 (omega arith) convert_up_run

convert_decimals_loss_example :
    Returns (λ c. (c ≤ 10099) × (10099 < c + 10 ^ 2)) (convert_decimals 100 18 20)
convert_decimals_loss_example =
    convert_decimals_loss 10099 20 18 (omega arith) (omega arith) convert_down_run

withdraw_commission-Charged_example :
    Ensures
      (λ out. Charged usdt 100000 out.1 deposit_action stable out.0)
      (withdraw_commission usdt 100000 deposit_action stable)
withdraw_commission-Charged_example =
    withdraw_commission-Charged usdt 100000 deposit_action stable stable-IsValid

deposit_backed_example :
    Ensures
      (λ out.
        (info : AssetInfo) × (amount : ℕ) × (get usdt stable.assets ≡ some info)
        × (convert_decimals 1000 info.decimals usn_decimals ≡ ok amount)
        × (out.1.total_supply + total_commission out.0
            ≡ token.total_supply + total_commission stable + amount)
        × (amount * 19 ≤ (balance "alice" out.1 - balance "alice" token) * 20))
      (deposit "alice" usdt 1000 stable token)
deposit_backed_example = deposit_backed "alice" usdt 1000 stable token stable-IsValid token-IsValid

withdraw_backed_example :
    Ensures
      (λ out.
        (info : AssetInfo) × (rest : ℕ) × (get usdt stable.assets ≡ some info)
        × (convert_decimals rest usn_decimals info.decimals ≡ ok out.3)
        × (out.1.total_supply + total_commission out.0 + rest
            ≡ token.total_supply + total_commission stable)
        × (2_000_000_000_000_000 * 19 ≤ rest * 20)
        × (rest ≤ 2_000_000_000_000_000)
        × (out.3 ≢ 0))
      (withdraw "alice" usdt 2_000_000_000_000_000 stable token)
withdraw_backed_example =
    withdraw_backed "alice" usdt 2_000_000_000_000_000 stable token stable-IsValid token-IsValid
