-- ===== src/Request/Handover.antt =====
-- Handing over the ownership (src/owner.rs) while other accounts call the contract.
use usn.Base.{
  ◌≡◌, refl, sym, ◌∙◌, ◌≢◌, inl, inr, same_account_refl, same_account_ne, AccountId, ok,
  Ensures-of_ok,
}
use mathlib.Core.Path.{subst}
use usn.Near.{Env}
use usn.Contract.{Contract, assert_owner}
use usn.Owner
use usn.Request.{Request, run}
use usn.Request.Ownership.{Succession, run-Succession}

-- Calls that returned, none of them by the two accounts.
pub data Others (owner heir : AccountId) (c : Contract) : Contract → Type 0 where
  start : Others owner heir c c
  call :
      {d e : Contract} (env : Env) (request : Request)
      → Others owner heir c d
      → env.predecessor_account_id ≢ owner
      → env.predecessor_account_id ≢ heir
      → run env request d ≡ ok e
      → Others owner heir c e

abbrev Pending : AccountId → AccountId → Contract → Type 0
Pending owner heir c = (c.owner_id ≡ owner) × (c.proposed_owner_id ≡ heir)

-- Neither the owner nor the proposal changes without a call of one of the two.
Succession-Pending :
    (env : Env) (owner heir : AccountId) (d e : Contract)
    → env.predecessor_account_id ≢ owner
    → env.predecessor_account_id ≢ heir
    → Pending owner heir d
    → Succession env d e
    → Pending owner heir e
Succession-Pending env owner heir d e not_owner not_heir (o, p) next = (
  elim next.owner [ inl same ↦ same ∙ o | inr (_, by) ↦ absurd (not_heir (by ∙ p)) ],
  elim next.proposed [ inl same ↦ same ∙ p | inr by ↦ absurd (not_owner (by ∙ o)) ],
)

Others-Pending :
    {owner heir : AccountId} {c d : Contract}
    → Pending owner heir c
    → Others owner heir c d
    → Pending owner heir d
Others-Pending pending start = pending
Others-Pending {owner} {heir} pending
      (call {d = d} {e = e} env request before not_owner not_heir returned) =
    Succession-Pending env owner heir d e not_owner not_heir (Others-Pending pending before)
      (Ensures-of_ok (Succession env d) _ (run-Succession env d request) returned)

proposal_made :
    (env : Env) (c : Contract) (heir : AccountId)
    → env.predecessor_account_id ≡ c.owner_id
    → run env (Request.propose_new_owner heir) c ≡ ok (record c { proposed_owner_id = heir })
unfolding run Owner.propose_new_owner assert_owner
proposal_made env c heir by = rw (by, same_account_refl c.owner_id) refl

acceptance :
    (env : Env) (c : Contract)
    → env.predecessor_account_id ≡ c.proposed_owner_id
    → c.owner_id ≢ c.proposed_owner_id
    → run env Request.accept_ownership c ≡ ok (record c { owner_id = c.proposed_owner_id })
unfolding run Owner.accept_ownership
acceptance env c by different =
    rw
      (
        by,
        same_account_ne c.owner_id c.proposed_owner_id different,
        same_account_refl c.proposed_owner_id,
      )
      refl

-- The owner can propose another account, and after any calls by accounts other than these two, that
-- account can accept and is the owner.
pub handover_completes :
    (propose accept : Env) (c : Contract) (heir : AccountId) {e : Contract}
    → propose.predecessor_account_id ≡ c.owner_id
    → accept.predecessor_account_id ≡ heir
    → heir ≢ c.owner_id
    → Others c.owner_id heir (record c { proposed_owner_id = heir }) e
    → (run propose (Request.propose_new_owner heir) c ≡ ok (record c { proposed_owner_id = heir }))
      × (run accept Request.accept_ownership e ≡ ok (record e { owner_id = heir }))
handover_completes propose accept c heir {e} by_owner by_heir different others =
    let (owner, proposed) = Others-Pending (refl, refl) others in
    (
      proposal_made propose c heir by_owner,
      subst (λ h. run accept Request.accept_ownership e ≡ ok (record e { owner_id = h })) proposed
          (acceptance accept e (by_heir ∙ sym proposed)
            (λ same. different (sym proposed ∙ sym same ∙ owner))),
    )
