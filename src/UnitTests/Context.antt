-- ===== src/UnitTests/Context.antt =====
-- What the unit tests of src/lib.rs share: the context of a call, a new contract, the treasury's
-- exchanges on the contract's own token, and a fresh rate.
use usn.Base.{ℕ, ◌+◌, ◌^◌, AccountId, Result, ok, ◌>>=◌, fit, u64_bound}
use usn.Near.{Env, sandbox}
use usn.Stable
use usn.Contract.{Contract, ExchangeRate, new}

-- `ONE_NEAR` of near_sdk, in yoctoNEAR.
abbrev pub one_near : ℕ
one_near = 10 ^ 24

-- `get_context`: a call of the contract "alice"; the rest is as the builder has it.
abbrev pub get_context : Env → AccountId → Env
get_context builder predecessor_account_id = record builder {
  network = sandbox;
  current_account_id = "alice";
  predecessor_account_id = predecessor_account_id;
}

-- `Contract::new`, with texts that no test reads.
abbrev pub new_contract : Env → AccountId → Result Contract
new_contract env owner_id = new env "ft-1.0.0" "icon" owner_id

-- `contract.stable_treasury.deposit(&mut contract.token, …)`, and so on.
abbrev pub deposit_asset : AccountId → AccountId → ℕ → Contract → Result Contract
deposit_asset account_id asset_id amount c = do
  (treasury, token, _) ← Stable.deposit account_id asset_id amount c.stable_treasury c.token
  ok (record c { stable_treasury = treasury; token = token })

abbrev pub withdraw_asset : AccountId → AccountId → ℕ → Contract → Result Contract
withdraw_asset account_id asset_id amount c = do
  (treasury, token, _, _) ← Stable.withdraw account_id asset_id amount c.stable_treasury c.token
  ok (record c { stable_treasury = treasury; token = token })

abbrev pub refund_asset : AccountId → AccountId → ℕ → Contract → Result Contract
refund_asset account_id asset_id amount c = do
  (treasury, token, _) ← Stable.refund account_id asset_id amount c.stable_treasury c.token
  ok (record c { stable_treasury = treasury; token = token })

-- `contract.commission.usn = …` and `contract.commission.near = …`
abbrev pub with_v1_usn : ℕ → Contract → Contract
with_v1_usn usn c = record c { commission = record c.commission { usn = usn } }

abbrev pub with_v1_near : ℕ → Contract → Contract
with_v1_near near c = record c { commission = record c.commission { near = near } }

-- `ExchangeRate::test_fresh_rate` of src/oracle/oracle.rs.
abbrev pub test_fresh_rate : Env → Result ExchangeRate
test_fresh_rate env = do
  recency_duration ← fit u64_bound (env.block_timestamp + 1_000_000_000)
  ok (record {
    multiplier = 111439;
    decimals = 28;
    timestamp = env.block_timestamp;
    recency_duration = recency_duration;
  })
