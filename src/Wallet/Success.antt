-- ===== src/Wallet/Success.antt =====
-- Which transfers and withdrawals the contract of src/lib.rs serves.
use usn.Base.{ℕ, ◌≤◌, ◌<◌, String, ◌≡◌, ◌≢◌, Option, AccountId, Returns, Returns-ok}
use usn.Near.{Env}
use usn.Ft
use usn.Ft.Ledger.{balance}
use usn.Ft.Transfer.{Transferred, internal_transfer-Moved}
use usn.Contract.{
  Contract, working, allowable, blacklist_status, abort_if_pause, abort_if_blacklisted,
}
use usn.Contract.Invariant.{IsValid}
use usn.Wallet

module _ (env : Env) (c : Contract) (v : IsValid c) (one : env.attached_deposit ≡ 1)
    (on : c.status ≡ working)
    (free : blacklist_status env.predecessor_account_id c ≡ allowable) where
  -- In a valid state, with one yoctoNEAR attached, while the contract works, a caller who is not
  -- banned can transfer any positive amount that it holds to another account: exactly that amount
  -- moves, one transfer event is logged, and the supply, every other balance and the validity stay.
  pub ft_transfer-Transferred :
      (receiver : AccountId) (a : ℕ) (memo : Option String)
      → env.predecessor_account_id ≢ receiver
      → 0 < a
      → a ≤ balance env.predecessor_account_id c.token
      → Returns
          (λ o. Transferred env.predecessor_account_id receiver a memo c.token (o.0.token, o.1))
          (Wallet.ft_transfer env receiver a memo c)
  unfolding Wallet.ft_transfer Ft.ft_transfer abort_if_pause abort_if_blacklisted
  ft_transfer-Transferred receiver a memo ne pos cover =
      let me = env.predecessor_account_id in
      let ((t', events), returned, moved) =
        Returns-ok (Transferred me receiver a memo c.token) _
          (internal_transfer-Moved me receiver a memo c.token v.token ne pos cover) in
      rw (on, free, one, returned) moved
