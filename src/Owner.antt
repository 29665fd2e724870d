-- ===== src/Owner.antt =====
-- Ownership and guardians, src/owner.rs.
pub mod Guardians
use usn.Base.{
  not, List, [], ◌∷◌, ◌++◌, if◌then◌else◌, AccountId, same_account, Result, ok, ◌>>=◌, ◌>>◌,
  require,
}
use usn.Base.{assertion_failed, guardian_exists, guardian_missing}
use usn.Near.{Env}
use usn.Contract.{Contract, Outcome, done, contains, assert_owner}

unfoldable pub propose_new_owner : Env → AccountId → Contract → Result (Outcome (Unit {0}))
propose_new_owner env proposed_owner_id c = do
  assert_owner env c
  done (record c { proposed_owner_id = proposed_owner_id })

unfoldable pub accept_ownership : Env → Contract → Result (Outcome (Unit {0}))
accept_ownership env c = do
  require (not (same_account c.owner_id c.proposed_owner_id)) assertion_failed
  require (same_account env.predecessor_account_id c.proposed_owner_id) assertion_failed
  done (record c { owner_id = c.proposed_owner_id })

abbrev pub owner : Contract → AccountId
owner c = c.owner_id

abbrev pub last_of : AccountId → List AccountId → AccountId
last_of a [] = a
last_of a (b ∷ l) = last_of b l

abbrev pub without_last : AccountId → List AccountId → List AccountId
without_last a [] = []
without_last a (b ∷ l) = a ∷ without_last b l

-- The elements behind a freed place: the last one moves into it.
abbrev pub fill_gap : List AccountId → List AccountId
fill_gap [] = []
fill_gap (b ∷ l) = last_of b l ∷ without_last b l

-- `UnorderedSet::remove`
abbrev pub erase_account : AccountId → List AccountId → List AccountId
erase_account a [] = []
erase_account a (b ∷ l) = if same_account a b then fill_gap l else b ∷ erase_account a l

-- The loop of `extend_guardians`: each name must be new.
unfoldable pub insert_guardians : List AccountId → List AccountId → Result (List AccountId)
insert_guardians [] present = ok present
insert_guardians (guardian ∷ rest) present = do
  require (not (contains guardian present)) (guardian_exists guardian)
  insert_guardians rest (present ++ guardian ∷ [])

-- The loop of `remove_guardians`: each name must be there.
unfoldable pub erase_guardians : List AccountId → List AccountId → Result (List AccountId)
erase_guardians [] present = ok present
erase_guardians (guardian ∷ rest) present = do
  require (contains guardian present) (guardian_missing guardian)
  erase_guardians rest (erase_account guardian present)

unfoldable pub extend_guardians : Env → List AccountId → Contract → Result (Outcome (Unit {0}))
extend_guardians env guardians c = do
  assert_owner env c
  present ← insert_guardians guardians c.guardians
  done (record c { guardians = present })

unfoldable pub remove_guardians : Env → List AccountId → Contract → Result (Outcome (Unit {0}))
remove_guardians env guardians c = do
  assert_owner env c
  present ← erase_guardians guardians c.guardians
  done (record c { guardians = present })

abbrev pub guardians : Contract → List AccountId
guardians c = c.guardians
