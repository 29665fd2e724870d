-- ===== src/Admin.antt =====
-- The owner's controls of src/lib.rs: the metadata, the blacklist, and the pause.
pub mod Funds
use usn.Base.{
  ℕ, String, not, Option, some, ltb, AccountId, Result, ok, ◌>>=◌, ◌>>◌, require, or_panic,
  checked_sub,
}
use usn.Base.{unwrap_none, assertion_failed, no_black_funds, failed_to_decrease_supply}
use usn.Base.Maps.{insert, remove}
use usn.Near.{Env, assert_one_yocto}
use usn.Ft.{ft_balance_of}
use usn.Contract.{
  Contract, Outcome, done, banned_account, working, paused, ContractStatus, blacklist_status,
  is_allowable, assert_owner, assert_owner_or_guardian,
}

unfoldable pub upgrade_name_symbol : Env → String → String → Contract → Result (Outcome (Unit {0}))
upgrade_name_symbol env name symbol c = do
  assert_owner env c
  metadata ← or_panic c.metadata unwrap_none
  done (record c { metadata = some (record metadata { name = name; symbol = symbol }) })

unfoldable pub upgrade_icon : Env → String → Contract → Result (Outcome (Unit {0}))
upgrade_icon env icon c = do
  assert_owner env c
  metadata ← or_panic c.metadata unwrap_none
  done (record c { metadata = some (record metadata { icon = some icon }) })

unfoldable pub add_to_blacklist : Env → AccountId → Contract → Result (Outcome (Unit {0}))
add_to_blacklist env account_id c = do
  assert_owner env c
  done (record c { black_list = insert account_id banned_account c.black_list })

unfoldable pub remove_from_blacklist : Env → AccountId → Contract → Result (Outcome (Unit {0}))
remove_from_blacklist env account_id c = do
  assert_owner env c
  done (record c { black_list = remove account_id c.black_list })

unfoldable pub destroy_black_funds : Env → AccountId → Contract → Result (Outcome (Unit {0}))
destroy_black_funds env account_id c = do
  assert_owner env c
  require (not (is_allowable (blacklist_status account_id c))) assertion_failed
  let black_balance = ft_balance_of account_id c.token
  require (ltb 0 black_balance) no_black_funds
  supply ← or_panic (checked_sub c.token.total_supply black_balance) failed_to_decrease_supply
  done (record c {
    token = record c.token {
      accounts = insert account_id 0 c.token.accounts;
      total_supply = supply;
    };
  })

unfoldable pub pause : Env → Contract → Result (Outcome (Unit {0}))
pause env c = do
  assert_one_yocto env
  assert_owner_or_guardian env c
  done (record c { status = paused })

unfoldable pub resume : Env → Contract → Result (Outcome (Unit {0}))
resume env c = do assert_owner env c; done (record c { status = working })

abbrev pub contract_status : Contract → ContractStatus
contract_status c = c.status

-- `Display` of the status.
abbrev pub display : ContractStatus → String
display working = "working"
display paused = "paused"

-- `version`, with the package's name and version of Cargo.toml.
abbrev pub version : String
version = "usn:2.3.4"

unfoldable pub name : Contract → Result String
name c = do metadata ← or_panic c.metadata unwrap_none; ok metadata.name

unfoldable pub symbol : Contract → Result String
symbol c = do metadata ← or_panic c.metadata unwrap_none; ok metadata.symbol

unfoldable pub decimals : Contract → Result ℕ
decimals c = do metadata ← or_panic c.metadata unwrap_none; ok metadata.decimals

-- `migrate`: the state that is stored, unchanged.
unfoldable pub migrate : Option Contract → Result Contract
migrate stored = or_panic stored unwrap_none
