-- ===== src/Lib.antt =====
-- The USN contract: a stablecoin on NEAR that is minted and burned against other stable assets.
--
-- The program is one contract (src/lib.rs) made of a fungible token whose accounts need no storage
-- deposit (src/ft.rs), a treasury of supported assets that takes a commission on each exchange
-- (src/stable.rs), an owner and guardians (src/owner.rs), a price oracle that prices NEAR for
-- minting (src/oracle/), staking of the contract's NEAR (src/staking.rs), and the transfer of
-- liquidity to and from a stable pool of ref.finance (src/treasury/). A method of the contract checks
-- who calls and whether the contract is paused, changes the token and the treasury, emits events and
-- schedules calls of other contracts, which come back as callbacks.
--
-- How the code is modelled
--
--   A method is a function from the host functions' answers (Near.Env), its arguments and the state
--   to a Result: `ok` with the new state, the events and the value or the scheduled promises, or
--   `err` with the panic, after which the runtime keeps the old state. A callback is a method of its
--   own whose outcome of the awaited call is in Near.Env, so that an interleaving of calls and
--   callbacks is a sequence of steps (Request.Reach). Native numbers stand for `u8`, `u32`, `u64`,
--   `u128` and `U256`; wherever the code adds, subtracts or multiplies, the model checks the word, as
--   the release profile of Cargo.toml (`overflow-checks = true`) does. A collection of near_sdk is a
--   list in which inserting replaces in place or appends; where the order can be seen after a
--   removal, in the guardians' UnorderedSet, the last element moves into the freed place.
--   No function uses fuel: every loop of the code runs over a list and is structural recursion.
--
-- The files
--
--   Base: results and panics, words, association lists, Boolean tests and their lemmas.
--   Near: the runtime: Env for the host functions, FunctionCall for the methods called across
--     contracts, Promise for `Promise::new`, `then`, `and` and `as_return`.
--   Event: src/event.rs, and the log lines. Event.Totals adds up what events mint and burn.
--   Ft: FungibleTokenFreeStorage of src/ft.rs. Ft.Ledger has its invariant and its deposits and
--     withdrawals, Ft.Transfer the transfers, Ft.Resolve the callback `ft_resolve_transfer`,
--     Ft.Revert both together. Ft.Books has what an operation adds to the supply and logs,
--     Ft.Spending whose balance a call may lower. Ft.Book is the abstract token, a total and a
--     function of balances; Ft.View and Ft.Refinement relate the code to it.
--   Asset: the data and the arithmetic of src/stable.rs (AssetInfo, CommissionRate,
--     convert_decimals, the commission). Asset.Decimals and Asset.Commission are about them.
--   Stable: StableTreasury of src/stable.rs. Stable.Invariant has its invariant, Stable.Fees the
--     commission, Stable.Exchange the steps of deposit and withdraw, Stable.Backing what an
--     exchange keeps, Stable.Success when it returns, Stable.Raised a refund at a new rate,
--     Stable.Kept a refund after other exchanges.
--   Contract: the state, `new` and the guards of src/lib.rs and src/owner.rs. Contract.Invariant has
--     the invariant of the whole state.
--   Owner: src/owner.rs; the loop over new guardians is in Owner.Guardians. Admin: metadata,
--     blacklist, pause and migrate of src/lib.rs; Admin.Funds is about banned funds.
--   Wallet: the token's entry points of src/lib.rs, and src/storage.rs.
--   Oracle: src/oracle/, with Oracle.Freshness on outdated prices. Mint: minting by NEAR in
--     src/lib.rs, with Mint.Amount on the amount and Mint.Callback on the mint. Redeem: `withdraw`
--     and its refund in src/lib.rs, Redeem.Refund both together. Treasury: the assets and the
--     commission in src/lib.rs; its loop over the assets is in Treasury.Commissions, the transfer
--     in Treasury.Transfer; Treasury.Drain compares the loop with a description of what it leaves.
--     Staking: src/staking.rs. Wallet.Success and Redeem.Success have the transfers and withdrawals
--     that the contract serves. Upgrade: `upgrade` of src/lib.rs.
--   Pool: src/treasury/pool.rs and src/treasury/gas.rs. Liquidity:
--     src/treasury/transfer_stable_liquidity.rs, with Liquidity.Missing on the minted USN,
--     Liquidity.Funding on one transfer, Liquidity.Loop on all of them, and Liquidity.Books on what
--     they log. Removal: src/treasury/withdraw_stable_pool.rs, with Removal.Shares on the shares and
--     Removal.Burn on the burn of what comes back.
--   Keeps: the invariant of the contract over each method.
--   Request: every method that may change the state as a value, the function that runs it, the step
--     relation and the reachable states. Request.Safety, Request.Access, Request.Ownership and
--     Request.Supply are about all methods together, Request.Owing about what is owed in USN
--     and Request.Refunds about failed payments that come back late;
--     Request.Booking and Request.Books have what each logs, Request.History whole histories with
--     their logs, and Request.Handover the ownership over calls of others.
--   Tests: runs of the code on small data, and the theorems at concrete inputs. UnitTests: the unit
--     tests of src/stable.rs and src/lib.rs as definitions of the same names, with their runs, for
--     every host answer that a test does not set. `test_default`, on a derived panic, is left out.
--
-- What is not modelled
--
--   The NEAR runtime, near_sdk and near_contract_standards: their answers are fields of Near.Env
--   (the JSON reader `from_slice` and the outcome of a promise among them), and a promise is
--   data. The check that a method without `#[payable]` refuses a deposit is generated by
--   near_bindgen and left out; the check of `#[private]` is the premise of Request.Step.
--   The host functions by which `upgrade` appends to its batch are data too. ExpectedRate (which
--   nothing uses) and the Borsh and JSON derivations are left out. What ref.finance, the staking
--   pools and the oracle do with a call is theirs. Gas amounts are data that the model hands on.
pub mod Base
pub mod Near
pub mod Event
pub mod Ft
pub mod Asset
pub mod Stable
pub mod Contract
pub mod Owner
pub mod Admin
pub mod Upgrade
pub mod Wallet
pub mod Oracle
pub mod Mint
pub mod Redeem
pub mod Treasury
pub mod Staking
pub mod Pool
pub mod Liquidity
pub mod Removal
pub mod Keeps
pub mod Request
pub mod Tests
pub mod UnitTests
