-- ===== src/Contract.antt =====
-- The state of the contract, src/lib.rs, its constructor, and the checks that its methods begin
-- with (src/lib.rs and src/owner.rs). A method that returns gives the new state, the events and
-- log lines, and its value.
pub mod Invariant
use usn.Base.{
  ℕ, String, Bool, true, false, not, ◌||◌, Option, none, some, List, [], ◌∷◌, AccountId,
  same_account, Result, ok, ◌>>=◌, require,
}
use usn.Base.{banned, only_owner, only_owner_or_guardian, under_maintenance}
use usn.Base.Maps.{AccountMap, get}
use usn.Near.{Env}
use usn.Event.{Event}
use usn.Ft
use usn.Ft.{FungibleTokenFreeStorage}
use usn.Asset.{usn_decimals}
use usn.Stable
use usn.Stable.{StableTreasury}

pub data BlackListStatus : Type 0 where
  allowable banned_account : BlackListStatus

pub data ContractStatus : Type 0 where
  working paused : ContractStatus

-- The commission accumulated by USN v1.
pub record CommissionV1 : Type 0 where
  pub usn : ℕ
  pub near : ℕ

-- `near_contract_standards::FungibleTokenMetadata`.
pub record FungibleTokenMetadata : Type 0 where
  pub spec : String
  pub name : String
  pub symbol : String
  pub icon : Option String
  pub reference : Option String
  pub reference_hash : Option (List ℕ)
  pub decimals : ℕ

-- `ExchangeRate` and `Oracle` of src/oracle/oracle.rs.
pub record ExchangeRate : Type 0 where
  pub multiplier : ℕ
  pub decimals : ℕ
  pub timestamp : ℕ
  pub recency_duration : ℕ

pub record Oracle : Type 0 where
  pub last_report : Option ExchangeRate

pub record Contract : Type 0 where
  pub owner_id : AccountId
  pub proposed_owner_id : AccountId
  pub guardians : List AccountId
  pub token : FungibleTokenFreeStorage
  pub metadata : Option FungibleTokenMetadata
  pub black_list : AccountMap BlackListStatus
  pub status : ContractStatus
  pub commission : CommissionV1
  pub stable_treasury : StableTreasury
  pub oracle : Oracle

abbrev pub Outcome : Type 0 → Type 0
Outcome A = Contract × List Event × A

-- A method that only changes the state.
abbrev pub done : Contract → Result (Outcome (Unit {0}))
done c = ok (c, [], tt)

-- `Contract::new`; the specification's version and the icon are given as texts.
unfoldable pub new : Env → String → String → AccountId → Result Contract
new env spec icon owner_id = do
  stable_treasury ← Stable.new env.network
  ok (record {
    owner_id = owner_id;
    proposed_owner_id = owner_id;
    guardians = [];
    token = Ft.new;
    metadata = some (record {
      spec = spec;
      name = "USN";
      symbol = "USN";
      icon = some icon;
      reference = none;
      reference_hash = none;
      decimals = usn_decimals;
    });
    black_list = [];
    status = working;
    commission = record { usn = 0; near = 0 };
    stable_treasury = stable_treasury;
    oracle = record { last_report = none };
  })

-- `UnorderedSet::contains` of the guardians.
abbrev pub contains : AccountId → List AccountId → Bool
contains a [] = false
contains a (b ∷ l) = same_account a b || contains a l

unfoldable pub assert_owner : Env → Contract → Result (Unit {0})
assert_owner env c = require (same_account env.predecessor_account_id c.owner_id) only_owner

unfoldable pub assert_owner_or_guardian : Env → Contract → Result (Unit {0})
assert_owner_or_guardian env c =
    require
      (same_account env.predecessor_account_id c.owner_id
        || contains env.predecessor_account_id c.guardians)
      only_owner_or_guardian

abbrev pub blacklist_status : AccountId → Contract → BlackListStatus
blacklist_status account_id c = elim (get account_id c.black_list) [ none ↦ allowable | some x ↦ x ]

abbrev pub is_paused : ContractStatus → Bool
is_paused paused = true
is_paused working = false

abbrev pub is_allowable : BlackListStatus → Bool
is_allowable allowable = true
is_allowable banned_account = false

unfoldable pub abort_if_pause : Contract → Result (Unit {0})
abort_if_pause c = require (not (is_paused c.status)) under_maintenance

unfoldable pub abort_if_blacklisted : AccountId → Contract → Result (Unit {0})
abort_if_blacklisted account_id c =
    require (is_allowable (blacklist_status account_id c)) (banned account_id)
