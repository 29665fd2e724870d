-- ===== src/Tests/Token.antt =====
-- Runs of src/ft.rs, and its theorems at the test data.
use usn.Base.{List, [], ◌∷◌}
use usn.Ft.Book.{Operation, mint, burn, transfer, next_books}
use usn.Ft.View.{view}
use usn.Ft.Refinement.{apply_all, Agrees, apply_all-Agrees}
use usn.Base.{◌≡◌, refl, none, arith, ne-same_account, Returns}
use usn.Ft.{
  internal_deposit, internal_withdraw, internal_transfer, internal_ft_resolve_transfer,
  internal_save_balance,
}
use usn.Ft.Ledger.{balance}
use usn.Base.{AccountId, ◌>>=◌}
use usn.Ft.Revert.{failed_call_reverts}
use usn.Ft.Resolve.{Settled, unused_of, internal_ft_resolve_transfer-Settled}
use usn.Tests.Data.{call_from, token, token-IsValid}

-- `test_transfer` of src/lib.rs: a third of the balance moves.
transfer_run :
    Returns
      (λ o. (balance "bob" o.0 ≡ 10) × (balance "alice" o.0 ≡ 4_999_999_999_999_997))
      (internal_transfer "alice" "bob" 3 none token)
unfolding internal_transfer internal_deposit internal_withdraw internal_save_balance
transfer_run = (refl, refl)

internal_ft_resolve_transfer-Settled_example :
    Returns
      (Settled "alice" "bob" 5 (unused_of (call_from "usn.test.near") 5) token)
      (internal_ft_resolve_transfer (call_from "usn.test.near") "alice" "bob" 5 token)
internal_ft_resolve_transfer-Settled_example =
    internal_ft_resolve_transfer-Settled (call_from "usn.test.near") "alice" "bob" 5 token
      token-IsValid (λ e. cc)

failed_call_reverts_example :
    Returns
      (λ o.
        (o.2.0 ≡ 0)
        × (o.0.total_supply ≡ token.total_supply)
        × ((j : AccountId) → balance j o.0 ≡ balance j token))
      (internal_transfer "alice" "bob" 3 none token >>= λ sent.
        internal_ft_resolve_transfer (call_from "usn.test.near") "alice" "bob" 3 sent.0)
failed_call_reverts_example =
    failed_call_reverts (call_from "usn.test.near") "alice" "bob" 3 none token token-IsValid
      (ne-same_account "alice" "bob" refl) (omega arith) (omega arith) refl

abbrev operations : List Operation
operations = mint "carol" 5 ∷ transfer "alice" "bob" 3 none ∷ burn "bob" 4 ∷ []

apply_all-Agrees_example : Agrees (apply_all operations token) (next_books operations (view token))
apply_all-Agrees_example = apply_all-Agrees operations token token-IsValid
