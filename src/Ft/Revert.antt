-- ===== src/Ft/Revert.antt =====
-- A transfer call of src/ft.rs whose receiver fails: the transfer, and the callback that settles it.
use usn.Base.{
  ℕ, ◌≤◌, ◌<◌, min, ◌≡◌, ◌∙◌, ◌≢◌, inl, inr, String, Option, arith, Bool-cases, AccountId,
  same_account, same_account_iff, ne-same_account, ◌>>=◌, Returns, Returns-ok,
}
use mathlib.Core.Path.{subst}
use usn.Near.{Env, failed, not_ready}
use usn.Ft.{FungibleTokenFreeStorage, internal_transfer, internal_ft_resolve_transfer}
use usn.Ft.Ledger.{IsValid, balance}
use usn.Ft.Transfer.{Moved, Transferred, internal_transfer-Moved}
use usn.Ft.Resolve.{Settled, Refunded, unused_of, internal_ft_resolve_transfer-Settled}

-- Moving an amount and refunding it leaves every balance as it was.
Moved-Refunded :
    (s r : AccountId) (a : ℕ) (t t' t'' : FungibleTokenFreeStorage)
    → s ≢ r
    → Moved s r a t t'
    → Refunded s r a t' t''
    → (j : AccountId) → balance j t'' ≡ balance j t
Moved-Refunded s r a t t' t'' ne there back j = elim (Bool-cases (same_account j s)) [
  | inl sender ↦ rw ((same_account_iff j s).0 sender) (omega (arith, there.paid, back.given ne))
  | inr other ↦ elim (Bool-cases (same_account j r)) [
    | inl receiver ↦
        rw ((same_account_iff j r).0 receiver) (omega (arith, there.received, back.taken ne))
    | inr away ↦
        let js = ne-same_account j s other in
        let jr = ne-same_account j r away in back.others j js jr ∙ there.others j js jr
  ]
]

unused_of_failed : (env : Env) (a : ℕ) → env.promise_result ≡ failed → unused_of env a ≡ a
unfolding unused_of
unused_of_failed env a fails = ground arith

-- A failed receiver has answered.
failed_answered : (env : Env) → env.promise_result ≡ failed → env.promise_result ≢ not_ready
failed_answered env fails e = absurd (ground arith)

-- On a valid token, a transfer between different accounts of a positive amount that the sender
-- holds, followed by the resolve callback after the receiver failed, returns: nothing counts as
-- used, and the supply and every balance are as they were.
pub failed_call_reverts :
    (env : Env) (s r : AccountId) (a : ℕ) (memo : Option String) (t : FungibleTokenFreeStorage)
    → IsValid t
    → s ≢ r
    → 0 < a
    → a ≤ balance s t
    → env.promise_result ≡ failed
    → Returns
        (λ o.
          (o.2.0 ≡ 0)
          × (o.0.total_supply ≡ t.total_supply)
          × ((j : AccountId) → balance j o.0 ≡ balance j t))
        (internal_transfer s r a memo t >>= λ sent. internal_ft_resolve_transfer env s r a sent.0)
unfolding Transferred Settled
failed_call_reverts env s r a memo t v ne pos cover fails =
    let ((t', events), sent, moved) =
      Returns-ok (Transferred s r a memo t) _
        (internal_transfer-Moved s r a memo t v ne pos cover) in
    let ((t'', logs, counts), settled_is, settled) =
      Returns-ok (Settled s r a (unused_of env a) t') _ (
        internal_ft_resolve_transfer-Settled env s r a t' moved.0.valid
          (failed_answered env fails)) in
    let all : min (balance r t') (unused_of env a) ≡ a =
      rw (unused_of_failed env a fails) (omega (arith, moved.0.received)) in
    let back = subst (λ n. Refunded s r n t' t'') all settled.0 in
    rw (sent, settled_is)
      (
        omega (arith, settled.1, all),
        back.supply ∙ moved.0.supply,
        Moved-Refunded s r a t t' t'' ne moved.0 back,
      )
