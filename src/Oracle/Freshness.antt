-- ===== src/Oracle/Freshness.antt =====
-- The conversion of the oracle's answer to a rate in src/oracle/oracle.rs.
use usn.Base.{◌+◌, ◌*◌, ◌^◌, ◌<◌, ◌≡◌, refl, arith, ok, err, u64_bound, le→leb, lt→leb, fit_within}
use usn.Base.{
  ℕ, String, Option, none, some, List, [], ◌∷◌, ◌++◌, ◌≢◌, ltb, if◌then◌else◌, lt→ltb, not_lt→ltb,
  same_account_refl, same_account_ne, outdated_price, no_exchange_rate,
}
use native.Mathlib.Decide.{dec_lt}
use usn.Near.{Env}
use usn.Oracle.{
  Price, PriceData, AssetOptionalPrice, price, find_asset, config, recency_duration, exchange_rate,
}

-- No entry is for the asset.
abbrev pub IsUnlisted : String → List AssetOptionalPrice → Type 0
IsUnlisted asset [] = Unit
IsUnlisted asset (entry ∷ rest) = (entry.asset_id ≢ asset) × IsUnlisted asset rest

find_asset-append :
    (asset : String) (found : Option Price) (before after : List AssetOptionalPrice)
    → IsUnlisted asset before
    → find_asset asset (before ++ record { asset_id = asset; price = found } ∷ after)
      ≡ some (record { asset_id = asset; price = found })
unfolding find_asset
find_asset-append asset found [] after unlisted = rw (same_account_refl asset) refl
find_asset-append asset found (entry ∷ before) after (away, unlisted) =
    rw (same_account_ne entry.asset_id asset away)
      (find_asset-append asset found before after unlisted)

find_asset_unlisted :
    (asset : String) (prices : List AssetOptionalPrice)
    → IsUnlisted asset prices
    → find_asset asset prices ≡ none
unfolding find_asset
find_asset_unlisted asset [] unlisted = refl
find_asset_unlisted asset (entry ∷ rest) (away, unlisted) =
    rw (same_account_ne entry.asset_id asset away) (find_asset_unlisted asset rest unlisted)

pub exchange_rate_unlisted :
    (env : Env) (answer : PriceData)
    → IsUnlisted (config env.network).asset_id answer.prices
    → exchange_rate env answer ≡ err no_exchange_rate
unfolding exchange_rate price
exchange_rate_unlisted env answer unlisted =
    rw (find_asset_unlisted (config env.network).asset_id answer.prices unlisted) refl

-- The time up to which an answer is recent, in nanoseconds.
abbrev pub recent_until : PriceData → ℕ
recent_until answer = answer.timestamp + answer.recency_duration_sec * 1_000_000_000

-- Where the first entry of the answer for the configured asset has a price, whatever the other
-- entries are, and the time of the answer plus its recency duration in nanoseconds fits 64 bits,
-- the conversion gives the rate with the multiplier and decimals of that price and the time and
-- duration of the answer where the block is before that sum, and refuses the price as outdated
-- where it is not.
pub exchange_rate_lem :
    (env : Env) (answer : PriceData) (found : Price) (before after : List AssetOptionalPrice)
    → answer.prices
      ≡ before ++ record { asset_id = (config env.network).asset_id; price = some found } ∷ after
    → IsUnlisted (config env.network).asset_id before
    → recent_until answer < u64_bound
    → exchange_rate env answer ≡ (
        if ltb env.block_timestamp (recent_until answer)
        then ok (record {
          multiplier = found.multiplier;
          decimals = found.decimals;
          timestamp = answer.timestamp;
          recency_duration = answer.recency_duration_sec * 1_000_000_000;
        })
        else err outdated_price)
unfolding exchange_rate recency_duration price
exchange_rate_lem env answer found before after listed unlisted fits =
    let asset = (config env.network).asset_id in
    let look_up : find_asset asset answer.prices
        ≡ some (record { asset_id = asset; price = some found }) =
      rw listed (find_asset-append asset (some found) before after unlisted) in
    let duration : answer.recency_duration_sec * 10 ^ 9 < u64_bound = omega (arith, fits) in
    elim (dec_lt env.block_timestamp (recent_until answer)) [
      | yes fresh ↦
          rw
            (
              look_up,
              fit_within u64_bound (answer.recency_duration_sec * 10 ^ 9) duration,
              fit_within u64_bound (answer.timestamp + answer.recency_duration_sec * 10 ^ 9) fits,
              lt→leb (answer.timestamp + answer.recency_duration_sec * 10 ^ 9) env.block_timestamp
                  fresh,
              lt→ltb env.block_timestamp (recent_until answer) fresh,
            )
            refl
      | no old ↦
          rw
            (
              look_up,
              fit_within u64_bound (answer.recency_duration_sec * 10 ^ 9) duration,
              fit_within u64_bound (answer.timestamp + answer.recency_duration_sec * 10 ^ 9) fits,
              le→leb (answer.timestamp + answer.recency_duration_sec * 10 ^ 9) env.block_timestamp
                  (omega (arith, old)),
              not_lt→ltb env.block_timestamp (recent_until answer) old,
            )
            refl
    ]
