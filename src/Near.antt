-- ===== src/Near.antt =====
-- What the contract is given by the NEAR runtime and what it asks of it: the answers of the host
-- functions during one call, and the cross-contract calls that a call schedules.
use usn.Base.{ℕ, List, Option, Bool, String, AccountId, Result, require, requires_one_yocto, ◌==◌}

-- The build features of Cargo.toml; with neither feature the contract is built for the sandbox.
pub data Network : Type 0 where
  mainnet testnet sandbox : Network

-- `near_sdk::PromiseResult`, with the bytes that a successful callee returned.
pub data PromiseResult : Type 0 where
  not_ready failed : PromiseResult
  successful : List ℕ → PromiseResult

-- The host functions' answers during one call. `from_slice` is the JSON reader of a `U128`.
pub record Env : Type 0 where
  pub network : Network
  pub current_account_id : AccountId
  pub predecessor_account_id : AccountId
  pub attached_deposit : ℕ
  pub account_balance : ℕ
  pub block_timestamp : ℕ
  pub prepaid_gas : ℕ
  pub used_gas : ℕ
  pub promise_result : PromiseResult
  pub is_promise_success : Bool
  pub from_slice : List ℕ → Option ℕ

-- `near_sdk::assert_one_yocto`: exactly one yoctoNEAR must be attached.
abbrev pub assert_one_yocto : Env → Result (Unit {0})
assert_one_yocto env = require (env.attached_deposit == 1) requires_one_yocto

-- The methods that the contract calls, on other contracts and on itself, with their arguments.
pub data FunctionCall : Type 0 where
  ft_transfer : AccountId → ℕ → Option String → FunctionCall
  ft_transfer_call : AccountId → ℕ → Option String → String → FunctionCall
  ft_on_transfer : AccountId → ℕ → String → FunctionCall
  ft_resolve_transfer : AccountId → AccountId → ℕ → FunctionCall
  get_price_data : List String → FunctionCall
  mint_with_price_callback : ℕ → ℕ → FunctionCall
  handle_refund : ℕ → FunctionCall
  handle_withdraw_refund : AccountId → AccountId → ℕ → FunctionCall
  deposit_and_stake unstake_all withdraw_all : FunctionCall
  unstake : ℕ → FunctionCall
  get_account : AccountId → FunctionCall
  handle_unstake : ℕ → AccountId → FunctionCall
  get_deposits : AccountId → FunctionCall
  handle_start_transferring handle_deposit_then_add_liquidity : ℕ → ℕ → FunctionCall
  add_stable_liquidity : ℕ → List ℕ → ℕ → FunctionCall
  get_pool_shares : ℕ → AccountId → FunctionCall
  handle_start_removing : Option ℕ → FunctionCall
  remove_liquidity : ℕ → ℕ → List ℕ → FunctionCall
  handle_remove_deposit : FunctionCall
  withdraw : AccountId → ℕ → Option Bool → FunctionCall
  finish_removing_with_burn : ℕ → FunctionCall

-- A scheduled promise: a call with its receiver, attached deposit and gas, a transfer of NEAR, and
-- the combinators `then`, `and` and `as_return`.
pub data Promise : Type 0 where
  call : FunctionCall → AccountId → ℕ → ℕ → Promise
  transfer : AccountId → ℕ → Promise
  and_then both : Promise → Promise → Promise
  as_return : Promise → Promise
