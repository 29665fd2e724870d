-- ===== src/Upgrade.antt =====
-- Upgrading the contract: `upgrade` of src/lib.rs, and the migration that it schedules.
use usn.Base.{
  ℕ, ◌+◌, ◌-◌, ◌≤◌, String, ◌≡◌, refl, Option, some, List, [], ◌∷◌, arith, AccountId,
  same_account_iff, Result, ok, ◌>>=◌, ◌>>◌, or_panic, or_panic-ok, require-true, sub_checked,
  sub_checked-ok, sub_checked_within, Returns, ◌≢◌, same_account_refl, same_account_ne, err,
  only_owner, steps-ok, unwrap_none, Ensures, Ensures-intro,
}
use usn.Near.{Env}
use usn.Contract.{Contract, assert_owner}
use usn.Admin.{migrate}

-- The actions of a promise batch that the host functions append: the code to deploy; a method with
-- its arguments, the address of the attached amount, and the gas.
pub data BatchAction : Type 0 where
  deploy_contract : List ℕ → BatchAction
  function_call : String → List ℕ → ℕ → ℕ → BatchAction

-- A batch of actions on one account, which take effect together or not at all.
pub record Batch : Type 0 where
  pub account_id : AccountId
  pub actions : List BatchAction

abbrev pub update_gas_leftover : ℕ
update_gas_leftover = 5_000_000_000_000

-- The input of the call is the new code; the migration gets the gas that is left, less a reserve.
unfoldable pub upgrade : Env → List ℕ → Option Contract → Result Batch
upgrade env input stored = do
  contract ← or_panic stored unwrap_none
  assert_owner env contract
  unused_gas ← sub_checked env.prepaid_gas env.used_gas
  migration_gas ← sub_checked unused_gas update_gas_leftover
  ok (record {
    account_id = env.current_account_id;
    actions = deploy_contract input ∷ function_call "migrate" [] 0 migration_gas ∷ [];
  })

-- Who upgraded, what was scheduled and with which gas, and that the migration keeps the state.
pub record Upgraded (env : Env) (input : List ℕ) (stored : Option Contract) (b : Batch)
    : Type 0 where
  pub contract : Contract
  pub found : stored ≡ some contract
  pub by_owner : env.predecessor_account_id ≡ contract.owner_id
  pub kept : migrate stored ≡ ok contract
  pub itself : b.account_id ≡ env.current_account_id
  pub migration_gas : ℕ
  pub scheduled :
      b.actions ≡ deploy_contract input ∷ function_call "migrate" [] 0 migration_gas ∷ []
  pub enough : env.used_gas + migration_gas + update_gas_leftover ≡ env.prepaid_gas

pub upgrade-Upgraded :
    (env : Env) (input : List ℕ) (stored : Option Contract)
    → Ensures (Upgraded env input stored) (upgrade env input stored)
unfolding upgrade assert_owner migrate
upgrade-Upgraded env input stored =
    Ensures-intro (Upgraded env input stored) (upgrade env input stored) λ b returned.
      let (c, found, h₁) = steps-ok (or_panic stored unwrap_none) _ returned in
      let (_, owner, h₂) = steps-ok (assert_owner env c) _ h₁ in
      let (unused, first, h₃) = steps-ok (sub_checked env.prepaid_gas env.used_gas) _ h₂ in
      let (gas, second, h₄) = steps-ok (sub_checked unused update_gas_leftover) _ h₃ in
      record {
        contract = c;
        found = or_panic-ok stored unwrap_none found;
        by_owner =
            (same_account_iff env.predecessor_account_id c.owner_id).0 (require-true _ _ owner);
        kept = found;
        itself = cc;
        migration_gas = gas;
        scheduled = cc;
        enough = omega (
          arith,
          sub_checked-ok env.prepaid_gas env.used_gas first,
          sub_checked-ok unused update_gas_leftover second,
        );
      }

pub upgrade_by_stranger :
    (env : Env) (input : List ℕ) (c : Contract)
    → env.predecessor_account_id ≢ c.owner_id
    → upgrade env input (some c) ≡ err only_owner
unfolding upgrade assert_owner
upgrade_by_stranger env input c stranger =
    rw (same_account_ne env.predecessor_account_id c.owner_id stranger) refl

-- The owner can upgrade a stored contract where the gas covers what is used and the reserve: on the
-- account of the contract itself, the input is deployed and the migration called in one batch, with
-- all the gas that is left but the reserve, and the migration keeps the state.
pub upgrade_succeeds :
    (env : Env) (input : List ℕ) (c : Contract)
    → env.predecessor_account_id ≡ c.owner_id
    → env.used_gas + update_gas_leftover ≤ env.prepaid_gas
    → Returns (Upgraded env input (some c)) (upgrade env input (some c))
unfolding upgrade assert_owner migrate
upgrade_succeeds env input c by_owner enough =
    let unused = env.prepaid_gas - env.used_gas in
    rw
      (
        by_owner,
        same_account_refl c.owner_id,
        sub_checked_within env.prepaid_gas env.used_gas (omega arith),
        sub_checked_within unused update_gas_leftover (omega arith),
      )
      (record {
        contract = c;
        found = refl;
        by_owner = refl;
        kept = refl;
        itself = refl;
        migration_gas = unused - update_gas_leftover;
        scheduled = refl;
        enough = omega arith;
      })
