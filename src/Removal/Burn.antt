-- ===== src/Removal/Burn.antt =====
-- The burn of the USN that comes back from ref.finance, src/treasury/withdraw_stable_pool.rs.
use usn.Base.{ℕ, ◌≤◌, refl, inl, inr, Bool-cases, if◌then◌else◌, arith, Returns, Returns-ok}
use usn.Near.{Env}
use usn.Ft.Ledger.{balance, Debited, internal_withdraw-Debited}
use usn.Contract.{Contract}
use usn.Contract.Invariant.{IsValid}
use usn.Removal.{finish_removing_with_burn}

-- What the callback burns: the amount where the withdrawals before it succeeded, else nothing.
abbrev pub to_burn : Env → ℕ → ℕ
to_burn env amount = if env.is_promise_success then amount else 0

-- In a valid state whose contract account holds it, the callback takes just the amount off that
-- account and off the supply where the withdrawals before it succeeded, and nothing where they
-- failed; no other balance changes and the token stays valid.
pub finish_removing_with_burn-Debited :
    (env : Env) (amount : ℕ) (c : Contract)
    → IsValid c
    → to_burn env amount ≤ balance env.current_account_id c.token
    → Returns
        (λ o. Debited env.current_account_id (to_burn env amount) c.token o.0.token)
        (finish_removing_with_burn env amount c)
unfolding finish_removing_with_burn
finish_removing_with_burn-Debited env amount c v cover =
    let me = env.current_account_id in
    elim (Bool-cases env.is_promise_success) [
      | inl success ↦
          let (t, burned, d) =
            Returns-ok (Debited me amount c.token) _
              (internal_withdraw-Debited me amount c.token v.token (rw success at cover)) in
          rw (success, burned) d
      | inr failure ↦ rw failure (record {
        valid = v.token;
        supply = omega arith;
        own = omega arith;
        others = λ j away. refl;
      })
    ]
