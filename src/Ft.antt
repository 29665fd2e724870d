-- ===== src/Ft.antt =====
-- The fungible token with free storage, src/ft.rs: the balances, the supply, and the NEP-141
-- operations. A u128 amount is a ℕ; the checked operations panic past 128 bits.
pub mod Ledger
pub mod Transfer
pub mod Resolve
pub mod Revert
pub mod Books
pub mod Spending
pub mod Book
pub mod View
pub mod Refinement
use usn.Base.{
  ℕ, ◌+◌, ◌-◌, min, AccountId, String, List, [], ◌∷◌, Option, none, some, Result, ok, err, ◌>>=◌,
  ◌>>◌, or_panic, require, if◌then◌else◌, ltb, not, same_account, balance_overflow, supply_overflow,
  not_enough_balance, same_sender_receiver, not_positive, more_gas_required, aborted, checked_add,
  checked_sub, sub_checked, add_u128,
}
use usn.Base.Maps.{AccountMap, get, insert, remove}
use usn.Near
use usn.Near.{
  Env, Promise, PromiseResult, not_ready, failed, successful, and_then, assert_one_yocto,
}
use usn.Event
use usn.Event.{Event}

abbrev pub gas_for_resolve_transfer : ℕ
gas_for_resolve_transfer = 5_000_000_000_000

abbrev pub gas_for_ft_transfer_call : ℕ
gas_for_ft_transfer_call = 25_000_000_000_000 + gas_for_resolve_transfer

abbrev pub no_deposit : ℕ
no_deposit = 0

pub record FungibleTokenFreeStorage : Type 0 where
  pub accounts : AccountMap ℕ
  pub total_supply : ℕ
  pub unused : ℕ

abbrev pub new : FungibleTokenFreeStorage
new = record { accounts = []; total_supply = 0; unused = 0 }

abbrev pub internal_unwrap_balance_of : AccountId → FungibleTokenFreeStorage → ℕ
internal_unwrap_balance_of account_id t = elim (get account_id t.accounts) [
  | none ↦ 0
  | some balance ↦ balance
]

unfoldable pub internal_save_balance :
    AccountId → ℕ → FungibleTokenFreeStorage → FungibleTokenFreeStorage
internal_save_balance account_id balance t =
    if ltb 0 balance
    then record t { accounts = insert account_id balance t.accounts }
    else record t { accounts = remove account_id t.accounts }

unfoldable pub internal_deposit :
    AccountId → ℕ → FungibleTokenFreeStorage → Result FungibleTokenFreeStorage
internal_deposit account_id amount t = do
  let balance = internal_unwrap_balance_of account_id t
  new_balance ← or_panic (checked_add balance amount) balance_overflow
  let saved = internal_save_balance account_id new_balance t
  supply ← or_panic (checked_add saved.total_supply amount) supply_overflow
  ok (record saved { total_supply = supply })

unfoldable pub internal_withdraw :
    AccountId → ℕ → FungibleTokenFreeStorage → Result FungibleTokenFreeStorage
internal_withdraw account_id amount t = do
  let balance = internal_unwrap_balance_of account_id t
  new_balance ← or_panic (checked_sub balance amount) not_enough_balance
  let saved = internal_save_balance account_id new_balance t
  supply ← or_panic (checked_sub saved.total_supply amount) supply_overflow
  ok (record saved { total_supply = supply })

unfoldable pub internal_transfer :
    AccountId
    → AccountId
    → ℕ
    → Option String
    → FungibleTokenFreeStorage
    → Result (FungibleTokenFreeStorage × List Event)
internal_transfer sender_id receiver_id amount memo t = do
  require (not (same_account sender_id receiver_id)) same_sender_receiver
  require (ltb 0 amount) not_positive
  paid ← internal_withdraw sender_id amount t
  t' ← internal_deposit receiver_id amount paid
  ok (t', Event.ft_transfer sender_id receiver_id amount memo ∷ [])

unfoldable pub internal_transfer_call :
    Env
    → AccountId
    → AccountId
    → ℕ
    → ℕ
    → Option String
    → String
    → FungibleTokenFreeStorage
    → Result (FungibleTokenFreeStorage × List Event × Promise)
internal_transfer_call env sender_id receiver_id amount gas memo msg t = do
  require (ltb gas_for_ft_transfer_call gas) more_gas_required
  (t', events) ← internal_transfer sender_id receiver_id amount memo t
  receiver_gas ← sub_checked gas gas_for_ft_transfer_call
  let receive =
      Promise.call (Near.ft_on_transfer sender_id amount msg) receiver_id no_deposit receiver_gas
  let resolve =
      Promise.call (Near.ft_resolve_transfer sender_id receiver_id amount) env.current_account_id
        no_deposit gas_for_resolve_transfer
  ok (t', events, and_then receive resolve)

unfoldable pub ft_transfer :
    Env
    → AccountId
    → ℕ
    → Option String
    → FungibleTokenFreeStorage
    → Result (FungibleTokenFreeStorage × List Event)
ft_transfer env receiver_id amount memo t = do
  assert_one_yocto env
  internal_transfer env.predecessor_account_id receiver_id amount memo t

unfoldable pub ft_transfer_call :
    Env
    → AccountId
    → ℕ
    → Option String
    → String
    → FungibleTokenFreeStorage
    → Result (FungibleTokenFreeStorage × List Event × Promise)
ft_transfer_call env receiver_id amount memo msg t = do
  assert_one_yocto env
  internal_transfer_call env env.predecessor_account_id receiver_id amount env.prepaid_gas memo msg
      t

abbrev pub ft_total_supply : FungibleTokenFreeStorage → ℕ
ft_total_supply t = t.total_supply

abbrev pub ft_balance_of : AccountId → FungibleTokenFreeStorage → ℕ
ft_balance_of account_id t = internal_unwrap_balance_of account_id t

-- The amount that the receiver of `ft_transfer_call` reports as unused.
unfoldable pub unused_amount : Env → ℕ → PromiseResult → Result ℕ
unused_amount env amount not_ready = err aborted
unused_amount env amount (successful value) =
    ok (elim (env.from_slice value) [ none ↦ amount | some reported ↦ min amount reported ])
unused_amount env amount failed = ok amount

-- The inner block of `internal_ft_resolve_transfer`: takes the refund from the receiver and gives
-- it to the sender. The result is the used and the burned amount.
unfoldable pub refund_unused :
    AccountId
    → AccountId
    → ℕ
    → ℕ
    → FungibleTokenFreeStorage
    → Result (FungibleTokenFreeStorage × List Event × (ℕ × ℕ))
refund_unused sender_id receiver_id amount unused t = do
  let receiver_balance = internal_unwrap_balance_of receiver_id t
  let refund_amount = min receiver_balance unused
  receiver_left ← sub_checked receiver_balance refund_amount
  let taken = internal_save_balance receiver_id receiver_left t
  let sender_balance = internal_unwrap_balance_of sender_id taken
  sender_new ← add_u128 sender_balance refund_amount
  let given = internal_save_balance sender_id sender_new taken
  used ← sub_checked amount refund_amount
  ok (given, Event.refund_log refund_amount receiver_id sender_id ∷ [], (used, 0))

unfoldable pub return_unused :
    AccountId
    → AccountId
    → ℕ
    → ℕ
    → FungibleTokenFreeStorage
    → Result (FungibleTokenFreeStorage × List Event × (ℕ × ℕ))
return_unused sender_id receiver_id amount unused t =
    if ltb 0 unused
    then (if ltb 0 (internal_unwrap_balance_of receiver_id t)
        then refund_unused sender_id receiver_id amount unused t
        else ok (t, [], (amount, 0)))
    else ok (t, [], (amount, 0))

unfoldable pub internal_ft_resolve_transfer :
    Env
    → AccountId
    → AccountId
    → ℕ
    → FungibleTokenFreeStorage
    → Result (FungibleTokenFreeStorage × List Event × (ℕ × ℕ))
internal_ft_resolve_transfer env sender_id receiver_id amount t = do
  unused ← unused_amount env amount env.promise_result
  return_unused sender_id receiver_id amount unused t
