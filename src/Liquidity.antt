-- ===== src/Liquidity.antt =====
-- Adding liquidity to ref.finance: src/treasury/transfer_stable_liquidity.rs.
pub mod Missing
pub mod Books
pub mod Funding
pub mod Loop
use usn.Base.{
  ℕ, suc, ◌+◌, ◌-◌, ◌*◌, not, Option, none, some, List, [], ◌∷◌, ◌++◌, map, ltb, leb, ◌==◌,
  if◌then◌else◌, AccountId, same_account, Result, ok, ◌>>=◌, ◌>>◌, require, sub_checked,
}
use usn.Base.{deposit_required, zero_amount, not_enough_deposit}
use usn.Base.Maps.{AccountMap, length, get}
use usn.Near
use usn.Near.{Env, Promise, and_then, both, as_return}
use usn.Event.{Event}
use usn.Ft.{
  FungibleTokenFreeStorage, internal_unwrap_balance_of, internal_deposit, internal_transfer_call,
  no_deposit,
}
use usn.Contract.{Contract, Outcome, assert_owner}
use usn.Pool.{
  from_config_with_assert, extend_all, gas_for_get_deposits, gas_for_ft_transfer_call,
  gas_for_add_liquidity, gas_surplus,
}

unfoldable pub transfer_stable_liquidity : Env → ℕ → ℕ → Contract → Result (Outcome Promise)
transfer_stable_liquidity env pool_id whole_amount c = do
  assert_owner env c
  pool ← from_config_with_assert env.network pool_id
  transfer_deposit ← sub_checked (length pool.tokens) 1
  require (ltb transfer_deposit env.attached_deposit) deposit_required
  require (ltb no_deposit whole_amount) zero_amount
  let ask =
      Promise.call (Near.get_deposits env.current_account_id) pool.ref_id no_deposit
        gas_for_get_deposits
  let start =
      Promise.call (Near.handle_start_transferring pool.id whole_amount) env.current_account_id
        env.attached_deposit
        (gas_for_ft_transfer_call * length pool.tokens
          + gas_for_get_deposits
          + gas_for_add_liquidity
          + gas_surplus * 3)
  ok (c, [], and_then ask start)

-- What ref.finance already holds of a token.
abbrev pub deposit_of : AccountId → AccountMap ℕ → ℕ
deposit_of token_id deposits = elim (get token_id deposits) [ none ↦ 0 | some d ↦ d ]

-- The USN that is missing on the contract's own account is minted.
unfoldable pub mint_missing :
    AccountId → ℕ → FungibleTokenFreeStorage → Result (FungibleTokenFreeStorage × List Event)
mint_missing usn_id amount token =
    let usn_balance = internal_unwrap_balance_of usn_id token in
    let mint = do
      yet_to_mint ← sub_checked amount usn_balance
      token' ← internal_deposit usn_id yet_to_mint token
      ok (token', Event.ft_mint usn_id yet_to_mint none ∷ [])
    in if ltb usn_balance amount then mint else ok (token, [])

-- One transfer to ref.finance: another token's by a call, USN by minting and an internal transfer.
unfoldable pub transfer_token :
    Env
    → AccountId
    → AccountId
    → ℕ
    → FungibleTokenFreeStorage
    → Result (FungibleTokenFreeStorage × List Event × Promise)
transfer_token env ref_id token_id amount token =
    let usn_id = env.current_account_id in
    let internal = do
      (minted, mint_events) ← mint_missing usn_id amount token
      (token', events, promise) ←
          internal_transfer_call env usn_id ref_id amount gas_for_ft_transfer_call none "" minted
      ok (token', mint_events ++ events, promise)
    in if not (same_account token_id usn_id)
      then ok (
        token,
        [],
        Promise.call (Near.ft_transfer_call ref_id amount none "") token_id 1
            gas_for_ft_transfer_call,
      )
      else internal

-- `reduce(|acc, promise| acc.and(promise))`
abbrev pub join : Option Promise → Promise → Promise
join none p = p
join (some acc) p = both acc p

-- The loop over the tokens: what is still missing of each is transferred, and nothing where the
-- deposit already covers the amount.
unfoldable pub transfer_tokens :
    Env
    → AccountId
    → AccountMap ℕ
    → AccountMap ℕ
    → FungibleTokenFreeStorage
    → Option Promise
    → Result (FungibleTokenFreeStorage × List Event × Option Promise)
transfer_tokens env ref_id deposits [] token acc = ok (token, [], acc)
transfer_tokens env ref_id deposits ((token_id, amount) ∷ rest) token acc =
    let missing = amount - deposit_of token_id deposits in
    let skipped = transfer_tokens env ref_id deposits rest token acc in
    let transferred = do
      (token', events, promise) ← transfer_token env ref_id token_id missing token
      (token'', more, promises) ←
          transfer_tokens env ref_id deposits rest token' (some (join acc promise))
      ok (token'', events ++ more, promises)
    in if not (missing == 0) then transferred else skipped

unfoldable pub handle_start_transferring :
    Env → ℕ → ℕ → AccountMap ℕ → Contract → Result (Outcome Promise)
handle_start_transferring env pool_id whole_amount deposits c = do
  pool ← from_config_with_assert env.network pool_id
  amounts ← extend_all whole_amount pool.tokens pool.decimals
  (token, events, maybe_transfers) ← transfer_tokens env pool.ref_id deposits amounts c.token none
  let get_deposits =
      Promise.call (Near.get_deposits env.current_account_id) pool.ref_id no_deposit
        gas_for_get_deposits
  transfer_deposit ← sub_checked (length pool.tokens) 1
  attached ← sub_checked env.attached_deposit transfer_deposit
  let add_liquidity =
      Promise.call (Near.handle_deposit_then_add_liquidity pool.id whole_amount)
        env.current_account_id attached (gas_for_add_liquidity + gas_surplus)
  ok (
    record c { token = token },
    events,
    elim maybe_transfers [
      | none ↦ and_then get_deposits add_liquidity
      | some transfers ↦ and_then (and_then transfers get_deposits) add_liquidity
    ],
  )

-- Every deposit covers its amount.
unfoldable pub require_deposits : AccountMap ℕ → AccountMap ℕ → Result (Unit {0})
require_deposits deposits [] = ok tt
require_deposits deposits ((token_id, amount) ∷ rest) = do
  require (leb amount (deposit_of token_id deposits)) not_enough_deposit
  require_deposits deposits rest

unfoldable pub handle_deposit_then_add_liquidity :
    Env → ℕ → ℕ → AccountMap ℕ → Contract → Result (Outcome Promise)
handle_deposit_then_add_liquidity env pool_id whole_amount deposits c = do
  pool ← from_config_with_assert env.network pool_id
  amounts ← extend_all whole_amount pool.tokens pool.decimals
  require_deposits deposits amounts
  ok (
    c,
    [],
    as_return (
        Promise.call (Near.add_stable_liquidity pool.id (map (λ a. a.1) amounts) no_deposit)
          pool.ref_id env.attached_deposit gas_for_add_liquidity),
  )
