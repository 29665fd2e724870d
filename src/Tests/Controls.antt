-- ===== src/Tests/Controls.antt =====
-- The theorems of the administration, the oracle and the stable pool at the test data.
use usn.Near.{Env}
use usn.Base.{none}
use usn.Liquidity.{transfer_tokens}
use usn.Liquidity.Funding.{Funded}
use usn.Liquidity.Loop.{transfer_tokens-Funded}
use usn.Removal.{finish_removing_with_burn}
use usn.Removal.Burn.{to_burn, finish_removing_with_burn-Debited}
use usn.Base.{ℕ, ◌-◌, ◌≤◌, ◌≡◌, refl, some, [], ◌∷◌, arith, ok, Returns}
use usn.Base.{ne-same_account}
use usn.Tests.Data.{contract-IsValid}
use usn.Ft.Ledger.{balance, Credited, Debited}
use usn.Contract.{ExchangeRate}
use usn.Owner.{extend_guardians, erase_guardians}
use usn.Owner.Guardians.{Extended, extend_guardians-Extended}
use usn.Admin.{destroy_black_funds}
use usn.Admin.Funds.{destroy_black_funds-Debited}
use usn.Oracle.{
  Price, PriceData, AssetOptionalPrice, price, find_asset, exchange_rate, recency_duration,
}
use usn.Oracle.Freshness.{exchange_rate_lem}
use usn.Mint.{mint_with_price_callback}
use usn.Mint.Callback.{Minted, mint_with_price_callback-Minted}
use usn.Liquidity.{mint_missing}
use usn.Liquidity.Missing.{mint_missing-Credited}
use usn.Tests.Data.{call_from, token, token-IsValid, contract}

abbrev near_price : Price
near_price = record { multiplier = 37500; decimals = 28 }

abbrev near_entry : AssetOptionalPrice
near_entry = record { asset_id = "wrap.test.near"; price = some near_price }

abbrev other_price : AssetOptionalPrice
other_price = record { asset_id = "usdt.test.near"; price = none }

abbrev answer_at : ℕ → PriceData
answer_at time = record { timestamp = time; recency_duration_sec = 1; prices = near_entry ∷ [] }

abbrev near_rate : ExchangeRate
near_rate = record {
  multiplier = 37500;
  decimals = 28;
  timestamp = 5;
  recency_duration = 1_000_000_000;
}

exchange_rate_lem_example :
    exchange_rate
      (call_from "oracle")
      (record (answer_at 5) { prices = other_price ∷ near_entry ∷ [] })
    ≡ ok near_rate
exchange_rate_lem_example =
    exchange_rate_lem (call_from "oracle")
      (record (answer_at 5) { prices = other_price ∷ near_entry ∷ [] }) near_price
      (other_price ∷ []) [] refl (ne-same_account "usdt.test.near" "wrap.test.near" refl, tt)
      (omega arith)

rate_run : exchange_rate (call_from "usn.test.near") (answer_at 5) ≡ ok near_rate
unfolding exchange_rate price find_asset recency_duration
rate_run = refl

mint_with_price_callback-Minted_example :
    Returns (Minted 2_000_000_000 150 near_rate contract) (
      mint_with_price_callback (call_from "usn.test.near") 2_000_000_000 150 (answer_at 5) contract)
mint_with_price_callback-Minted_example =
    mint_with_price_callback-Minted (call_from "usn.test.near") 2_000_000_000 150 (answer_at 5)
      contract near_rate contract-IsValid rate_run (omega arith) (omega arith) (omega arith)
      (omega arith) (omega arith) (omega arith) (omega arith)

destroy_black_funds-Debited_example :
    Returns
      (λ o. Debited "bob" (balance "bob" contract.token) contract.token o.0.token)
      (destroy_black_funds (call_from "owner") "bob" contract)
destroy_black_funds-Debited_example =
    destroy_black_funds-Debited contract token-IsValid "bob" (call_from "owner") refl refl
      (omega arith)

mint_missing-Credited_example :
    Returns
      (λ o. Credited "bob" (10 - balance "bob" token) token o.0 × (10 ≤ balance "bob" o.0))
      (mint_missing "bob" 10 token)
mint_missing-Credited_example = mint_missing-Credited "bob" 10 token token-IsValid (omega arith)

-- The last name moves into the freed place.
erased_run : erase_guardians ("b" ∷ []) ("a" ∷ "b" ∷ "c" ∷ "d" ∷ []) ≡ ok ("a" ∷ "d" ∷ "c" ∷ [])
unfolding erase_guardians
erased_run = refl

extend_guardians-Extended_example :
    Returns
      (Extended (call_from "owner") ("carol" ∷ "dave" ∷ []) "dave" contract)
      (extend_guardians (call_from "owner") ("carol" ∷ "dave" ∷ []) contract)
extend_guardians-Extended_example =
    extend_guardians-Extended (call_from "owner") ("carol" ∷ "dave" ∷ []) "dave" contract refl
      (refl, refl, (refl, refl, tt)) refl

-- The contract of "bob" sends 10 USN and holds 7.
abbrev bobs_env : Env
bobs_env = record (call_from "bob") { current_account_id = "bob" }

transfer_tokens-Funded_example :
    Returns
      (λ o. Funded "bob" "ref.test.near" 10 token o.0)
      (transfer_tokens bobs_env "ref.test.near"
        (("usdt.test.near", 1) ∷ [])
        (("usdt.test.near", 5) ∷ ("bob", 10) ∷ [])
        token
        none)
transfer_tokens-Funded_example =
    transfer_tokens-Funded bobs_env "ref.test.near" (("usdt.test.near", 1) ∷ [])
      (ne-same_account "bob" "ref.test.near" refl) (("usdt.test.near", 5) ∷ ("bob", 10) ∷ []) token
      none token-IsValid (refl, (refl, tt)) (omega arith)

finish_removing_with_burn-Debited_example :
    Returns
      (λ o. Debited "bob" (to_burn bobs_env 5) contract.token o.0.token)
      (finish_removing_with_burn bobs_env 5 contract)
finish_removing_with_burn-Debited_example =
    finish_removing_with_burn-Debited bobs_env 5 contract contract-IsValid (omega arith)
