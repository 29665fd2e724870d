-- ===== src/Pool.antt =====
-- The pools of ref.finance that the contract may use: src/treasury/pool.rs and the gas of
-- src/treasury/gas.rs.
use usn.Base.{
  ℕ, Option, none, some, List, [], ◌∷◌, map, ◌==◌, if◌then◌else◌, AccountId, Result, ok, ◌>>=◌,
  or_panic, mul_u128, pow10,
}
use usn.Base.{pool_not_allowed, unwrap_none}
use usn.Base.Maps.{AccountMap}
use usn.Near.{Network, mainnet, testnet, sandbox}
use usn.Asset.{usn_decimals}

abbrev pub usdt_decimals : ℕ
usdt_decimals = 6

abbrev pub gas_for_get_deposits : ℕ
gas_for_get_deposits = 7_000_000_000_000

abbrev pub gas_for_get_shares : ℕ
gas_for_get_shares = 7_000_000_000_000

abbrev pub gas_for_ft_transfer_call : ℕ
gas_for_ft_transfer_call = 45_000_000_000_000

abbrev pub gas_for_add_liquidity : ℕ
gas_for_add_liquidity = 17_000_000_000_000

abbrev pub gas_for_remove_liquidity : ℕ
gas_for_remove_liquidity = 17_000_000_000_000

abbrev pub gas_for_withdraw : ℕ
gas_for_withdraw = 55_000_000_000_000

abbrev pub gas_for_finish_burning : ℕ
gas_for_finish_burning = 7_000_000_000_000

abbrev pub gas_surplus : ℕ
gas_surplus = 7_000_000_000_000

pub record PoolsConfig : Type 0 where
  pub ref_address : AccountId
  pub pools : List (ℕ × AccountMap ℕ)

abbrev pub config : Network → PoolsConfig
config mainnet = record {
  ref_address = "v2.ref-finance.near";
  pools =
      (
        3020,
        ("usn", usn_decimals)
            ∷ ("dac17f958d2ee523a2206206994597c13d831ec7.factory.bridge.near", usdt_decimals)
            ∷ [],
      )
      ∷ [];
}
config testnet = record {
  ref_address = "ref-finance-101.testnet";
  pools = (356, ("usdn.testnet", usn_decimals) ∷ ("usdt.fakes.testnet", usdt_decimals) ∷ []) ∷ [];
}
config sandbox = record {
  ref_address = "ref.test.near";
  pools =
      (0, ("usn.test.near", usn_decimals) ∷ ("usdt.test.near", usdt_decimals) ∷ [])
      ∷ (1, ("usn.test.near", usn_decimals) ∷ ("usdt.test.near", usdt_decimals) ∷ [])
      ∷ [];
}

unfoldable pub pools : Network → List ℕ
pools network = map (λ p. p.0) (config network).pools

pub record Pool : Type 0 where
  pub ref_id : AccountId
  pub id : ℕ
  pub tokens : List AccountId
  pub decimals : List ℕ

abbrev pub pool_of : AccountId → ℕ × AccountMap ℕ → Pool
pool_of ref_id (id, tokens) = record {
  ref_id = ref_id;
  id = id;
  tokens = map (λ t. t.0) tokens;
  decimals = map (λ t. t.1) tokens;
}

abbrev pub find_pool : AccountId → ℕ → List (ℕ × AccountMap ℕ) → Option Pool
find_pool ref_id pool_id [] = none
find_pool ref_id pool_id (p ∷ rest) =
    if pool_id == p.0 then some (pool_of ref_id p) else find_pool ref_id pool_id rest

unfoldable pub from_config_with_assert : Network → ℕ → Result Pool
from_config_with_assert network pool_id =
    let conf = config network in
    or_panic (find_pool conf.ref_address pool_id conf.pools) (pool_not_allowed pool_id)

unfoldable pub extend_decimals : ℕ → ℕ → Result ℕ
extend_decimals whole decimals = do power ← pow10 decimals; mul_u128 whole power

-- `Pool::extend_decimals`: each token with the whole amount in its decimals.
unfoldable pub extend_all : ℕ → List AccountId → List ℕ → Result (AccountMap ℕ)
unfolding extend_decimals
extend_all whole (token ∷ tokens) (d ∷ decimals) = do
  amount ← extend_decimals whole d
  rest ← extend_all whole tokens decimals
  ok ((token, amount) ∷ rest)
extend_all whole _ _ = ok []

abbrev pub first_pool : AccountId → List (ℕ × AccountMap ℕ) → Option Pool
first_pool ref_id [] = none
first_pool ref_id (p ∷ rest) = some (pool_of ref_id p)

unfoldable pub stable_pool : Network → Result Pool
stable_pool network =
    let conf = config network in or_panic (first_pool conf.ref_address conf.pools) unwrap_none
