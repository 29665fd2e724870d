-- ===== src/Oracle.antt =====
-- The price oracle: src/oracle/oracle.rs and src/oracle/priceoracle.rs.
pub mod Freshness
use usn.Base.{
  ℕ, ◌+◌, ◌*◌, ◌^◌, String, not, Option, none, some, List, [], ◌∷◌, leb, if◌then◌else◌, AccountId,
  same_account, Result, ok, ◌>>=◌, ◌>>◌, require, or_panic, u64_bound, fit,
}
use usn.Base.{no_exchange_rate, outdated_price}
use usn.Near
use usn.Near.{Env, Network, mainnet, testnet, sandbox, Promise}
use usn.Contract.{ExchangeRate}

-- `CONFIG`
pub record OracleConfig : Type 0 where
  pub oracle_address : AccountId
  pub asset_id : String
  pub gas : ℕ

abbrev pub config : Network → OracleConfig
config mainnet = record {
  oracle_address = "priceoracle.near";
  asset_id = "wrap.near";
  gas = 5_000_000_000_000;
}
config testnet = record {
  oracle_address = "priceoracle.testnet";
  asset_id = "wrap.testnet";
  gas = 5_000_000_000_000;
}
config sandbox = record {
  oracle_address = "priceoracle.test.near";
  asset_id = "wrap.test.near";
  gas = 5_000_000_000_000;
}

pub record Price : Type 0 where
  pub multiplier : ℕ
  pub decimals : ℕ

pub record AssetOptionalPrice : Type 0 where
  pub asset_id : String
  pub price : Option Price

pub record PriceData : Type 0 where
  pub timestamp : ℕ
  pub recency_duration_sec : ℕ
  pub prices : List AssetOptionalPrice

-- Seconds to nanoseconds, in 64 bits.
unfoldable pub recency_duration : PriceData → Result ℕ
recency_duration p = fit u64_bound (p.recency_duration_sec * 10 ^ 9)

-- `prices.iter().find(…)`
unfoldable pub find_asset : String → List AssetOptionalPrice → Option AssetOptionalPrice
find_asset asset [] = none
find_asset asset (aop ∷ rest) =
    if same_account aop.asset_id asset then some aop else find_asset asset rest

unfoldable pub price : String → PriceData → Result Price
price asset p = do
  aop ← or_panic (find_asset asset p.prices) no_exchange_rate
  or_panic aop.price no_exchange_rate

unfoldable pub get_exchange_rate_promise : Network → Promise
get_exchange_rate_promise network =
    let conf = config network in
    Promise.call (Near.get_price_data (conf.asset_id ∷ [])) conf.oracle_address 0 conf.gas

-- `ExchangeRate::from(PriceData)`: a price that is too old is refused.
unfoldable pub exchange_rate : Env → PriceData → Result ExchangeRate
exchange_rate env price_data = do
  found ← price (config env.network).asset_id price_data
  duration ← recency_duration price_data
  limit ← fit u64_bound (price_data.timestamp + duration)
  require (not (leb limit env.block_timestamp)) outdated_price
  ok (record {
    multiplier = found.multiplier;
    decimals = found.decimals;
    timestamp = price_data.timestamp;
    recency_duration = duration;
  })
