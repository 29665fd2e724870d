-- ===== src/Request/History.antt =====
-- Whole histories of the contract of src/lib.rs, with all that their calls logged.
use usn.Base.{ℕ, ◌+◌, String, ◌≡◌, ap, true, List, [], ◌++◌, arith, AccountId, ok, Ensures-of_ok}
use usn.Near.{Env}
use usn.Event.{Event}
use usn.Event.Totals.{minted, burned, minted-append, burned-append}
use usn.Contract.{Contract, new}
use usn.Contract.Invariant.{IsValid}
use usn.Keeps.Controls.{new-IsValid}
use usn.Request.{Request, run, run_logged, state_of, is_private}
use usn.Request.Safety.{run-IsValid}
use usn.Request.Booking.{Balanced}
use usn.Request.Books.{destroyed, run_logged-Balanced}

-- The calls that returned since `c`: their events in order, and the funds they destroyed.
pub data History (c : Contract) : List Event → ℕ → Contract → Type 0 where
  start : History c [] 0 c
  call :
      {events : List Event} {gone : ℕ} {d e : Contract} (env : Env) (request : Request)
      (more : List Event)
      → History c events gone d
      → (is_private request ≡ true → env.predecessor_account_id ≡ env.current_account_id)
      → run_logged env request d ≡ ok (e, more)
      → History c (events ++ more) (gone + destroyed request d) e

run_of_logged :
    (env : Env) (request : Request) (d : Contract) {e : Contract} {more : List Event}
    → run_logged env request d ≡ ok (e, more)
    → run env request d ≡ ok e
unfolding run
run_of_logged env request d h = ap state_of h

History-IsValid :
    {c d : Contract} {events : List Event} {gone : ℕ}
    → IsValid c
    → History c events gone d
    → IsValid d
History-IsValid v start = v
History-IsValid v (call {d = d} env request more h allowed returned) =
    Ensures-of_ok IsValid (run env request d) (run-IsValid env request d (History-IsValid v h))
      (run_of_logged env request d returned)

History-Balanced :
    {c d : Contract} {events : List Event} {gone : ℕ}
    → IsValid c
    → History c events gone d
    → Balanced gone c d events
History-Balanced v start = omega arith
History-Balanced {c} v (call {events = events} {d = d} env request more h allowed returned) =
    let before = History-Balanced v h in
    let step =
      Ensures-of_ok (λ l. Balanced (destroyed request d) d l.0 l.1) _
        (run_logged-Balanced env d (History-IsValid v h) request) returned in
    omega (arith, before, step, minted-append events more, burned-append events more)

new-supply :
    (env : Env) (spec icon : String) (owner : AccountId) {c : Contract}
    → new env spec icon owner ≡ ok c
    → c.token.total_supply ≡ 0
unfolding new
new-supply env spec icon owner made = ground arith

-- In every history from a new contract, whatever methods and callbacks were called and returned,
-- the supply, the amounts of all logged burns and the funds destroyed on the blacklist together are
-- the amounts of all logged mints.
pub new-History-Balanced :
    (env : Env) (spec icon : String) (owner : AccountId) {c d : Contract} {events : List Event}
    {gone : ℕ}
    → new env spec icon owner ≡ ok c
    → History c events gone d
    → d.token.total_supply + burned events + gone ≡ minted events
new-History-Balanced env spec icon owner made h = omega (
  arith,
  new-supply env spec icon owner made,
  History-Balanced (Ensures-of_ok IsValid _ (new-IsValid env spec icon owner) made) h,
)
