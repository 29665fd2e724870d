-- ===== src/Wallet.antt =====
-- The token's methods of the contract: src/lib.rs, `FungibleTokenCore`, `FungibleTokenResolver`,
-- `FungibleTokenMetadataProvider` and `FungibleTokenReceiver`, and src/storage.rs.
pub mod Success
use usn.Base.{
  ℕ, String, Option, none, some, List, [], ◌∷◌, ◌++◌, ltb, if◌then◌else◌, AccountId, Result, ok,
  err, ◌>>=◌, ◌>>◌, or_panic,
}
use usn.Base.{unwrap_none, mint_disabled}
use usn.Near.{Env, Promise}
use usn.Event.{Event}
use usn.Ft
use usn.Contract.{Contract, Outcome, FungibleTokenMetadata, abort_if_pause, abort_if_blacklisted}

unfoldable pub ft_transfer :
    Env → AccountId → ℕ → Option String → Contract → Result (Outcome (Unit {0}))
ft_transfer env receiver_id amount memo c = do
  abort_if_pause c
  abort_if_blacklisted env.predecessor_account_id c
  (token, events) ← Ft.ft_transfer env receiver_id amount memo c.token
  ok (record c { token = token }, events, tt)

unfoldable pub ft_transfer_call :
    Env → AccountId → ℕ → Option String → String → Contract → Result (Outcome Promise)
ft_transfer_call env receiver_id amount memo msg c = do
  abort_if_pause c
  abort_if_blacklisted env.predecessor_account_id c
  (token, events, promise) ← Ft.ft_transfer_call env receiver_id amount memo msg c.token
  ok (record c { token = token }, events, promise)

abbrev pub ft_total_supply : Contract → ℕ
ft_total_supply c = Ft.ft_total_supply c.token

abbrev pub ft_balance_of : AccountId → Contract → ℕ
ft_balance_of account_id c = Ft.ft_balance_of account_id c.token

-- `on_tokens_burned`
abbrev pub on_tokens_burned : AccountId → ℕ → List Event
on_tokens_burned account_id amount = Event.ft_burn account_id amount none ∷ []

unfoldable pub ft_resolve_transfer : Env → AccountId → AccountId → ℕ → Contract → Result (Outcome ℕ)
ft_resolve_transfer env sender_id receiver_id amount c = do
  (token, events, (used_amount, burned_amount)) ←
      Ft.internal_ft_resolve_transfer env sender_id receiver_id amount c.token
  let burn_events = if ltb 0 burned_amount then on_tokens_burned sender_id burned_amount else []
  ok (record c { token = token }, events ++ burn_events, used_amount)

unfoldable pub ft_metadata : Contract → Result FungibleTokenMetadata
ft_metadata c = or_panic c.metadata unwrap_none

-- Minting USN for a transferred stable coin is switched off.
unfoldable pub ft_on_transfer : AccountId → ℕ → String → Contract → Result (Outcome ℕ)
ft_on_transfer sender_id amount msg c = err mint_disabled

-- `near_contract_standards::StorageBalance`, in yoctoNEAR.
pub record StorageBalance : Type 0 where
  pub total : ℕ
  pub available : ℕ

unfoldable pub storage_balance_of : AccountId → Contract → Option StorageBalance
storage_balance_of account_id c =
    some (record { total = 1_250_000_000_000_000_000_000; available = 0 })
