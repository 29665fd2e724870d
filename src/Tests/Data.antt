-- ===== src/Tests/Data.antt =====
-- The data of the tests: a call from "alice", a token, a treasury and a contract on the sandbox.
use usn.Base.{ℕ, refl, true, none, some, [], ◌∷◌, arith, AccountId}
use usn.Near.{Env, sandbox, failed}
use usn.Ft.{FungibleTokenFreeStorage}
use usn.Ft.Ledger
use usn.Asset.{AssetInfo, enabled, default_rate}
use usn.Asset.Commission
use usn.Stable.{StableTreasury}
use usn.Stable.Invariant
use usn.Contract.{Contract, working, banned_account}
use usn.Contract.Invariant as ContractInvariant

abbrev pub call_from : AccountId → Env
call_from account = record {
  network = sandbox;
  current_account_id = "usn.test.near";
  predecessor_account_id = account;
  attached_deposit = 1;
  account_balance = 1000;
  block_timestamp = 100;
  prepaid_gas = 300_000_000_000_000;
  used_gas = 1_000_000_000_000;
  promise_result = failed;
  is_promise_success = true;
  from_slice = λ _. none;
}

abbrev pub usdt : AccountId
usdt = "usdt.test.near"

abbrev pub token : FungibleTokenFreeStorage
token = record {
  accounts = ("alice", 5_000_000_000_000_000) ∷ ("bob", 7) ∷ [];
  total_supply = 5_000_000_000_000_007;
  unused = 0;
}

pub token-IsValid : Ledger.IsValid token
token-IsValid = record { distinct = (refl, (refl, tt)); conserved = refl; bounded = omega arith }

abbrev pub usdt_info : AssetInfo
usdt_info = record {
  decimals = 6;
  status = enabled;
  commission = 40;
  commission_rate = default_rate;
}

abbrev pub stable_with : ℕ → StableTreasury
stable_with n = record {
  assets =
      (usdt, record usdt_info { commission = n })
      ∷ ("dai", record usdt_info { commission = 2 })
      ∷ [];
}

abbrev pub stable : StableTreasury
stable = stable_with 40

abbrev pub empty_stable : StableTreasury
empty_stable = record { assets = [] }

empty-IsValid : Invariant.IsValid empty_stable
empty-IsValid = record { distinct = tt; infos = λ k info e. absurd (cc) }

info-IsValid : (n : ℕ) → Commission.IsValid (record usdt_info { commission = n })
info-IsValid n = omega arith

pub stable_with-IsValid : (n : ℕ) → Invariant.IsValid (stable_with n)
stable_with-IsValid n =
    Invariant.set_asset-IsValid "dai" (record usdt_info { commission = 2 })
      (record { assets = (usdt, record usdt_info { commission = n }) ∷ [] })
      (Invariant.set_asset-IsValid usdt (record usdt_info { commission = n }) empty_stable
        empty-IsValid (info-IsValid n))
      (info-IsValid 2)

pub stable-IsValid : Invariant.IsValid stable
stable-IsValid = stable_with-IsValid 40

abbrev pub contract : Contract
contract = record {
  owner_id = "owner";
  proposed_owner_id = "heir";
  guardians = "guard" ∷ [];
  token = token;
  metadata = some (record {
    spec = "ft-1.0.0";
    name = "USN";
    symbol = "USN";
    icon = none;
    reference = none;
    reference_hash = none;
    decimals = 18;
  });
  black_list = ("bob", banned_account) ∷ [];
  status = working;
  commission = record { usn = 100; near = 50 };
  stable_treasury = stable;
  oracle = record { last_report = none };
}

pub contract-IsValid : ContractInvariant.IsValid contract
contract-IsValid = record { token = token-IsValid; treasury = stable-IsValid; described = λ e. cc }
