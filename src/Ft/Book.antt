-- ===== src/Ft/Book.antt =====
-- What the token of src/ft.rs promises, without storage, words or events: a book of balances with
-- its total. Each operation either is refused or gives the next book.
use usn.Base.{
  ℕ, ◌+◌, ◌-◌, Bool, not, ◌&&◌, Option, none, some, List, [], ◌∷◌, String, ltb, leb, if◌then◌else◌,
  min, AccountId, same_account, u128_bound,
}
use usn.Near.{Env, PromiseResult, not_ready}
use usn.Ft.Resolve.{unused_of}

pub record Book : Type 0 where
  pub balance_of : AccountId → ℕ
  pub total : ℕ

-- The operations of the token, on behalf of the contract's methods.
pub data Operation : Type 0 where
  mint burn : AccountId → ℕ → Operation
  transfer : AccountId → AccountId → ℕ → Option String → Operation
  resolve : Env → AccountId → AccountId → ℕ → Operation

abbrev pub change : AccountId → (ℕ → ℕ) → (AccountId → ℕ) → AccountId → ℕ
change k f balances j = if same_account j k then f (balances j) else balances j

abbrev pub shift : AccountId → AccountId → ℕ → Book → Book
shift from to amount b = record b {
  balance_of = change to (λ n. n + amount) (change from (λ n. n - amount) b.balance_of);
}

abbrev pub is_answered : PromiseResult → Bool
is_answered not_ready = Bool.false
is_answered _ = Bool.true

-- A mint is refused where the total leaves 128 bits, a burn or a transfer where the account has not
-- enough, a transfer also to oneself and of nothing. A callback moves back what is unused and still
-- there.
unfoldable pub next_book : Operation → Book → Option Book
next_book (mint k amount) b =
    if ltb (b.total + amount) u128_bound
    then some
        (record { balance_of = change k (λ n. n + amount) b.balance_of; total = b.total + amount })
    else none
next_book (burn k amount) b =
    if leb amount (b.balance_of k)
    then some
        (record { balance_of = change k (λ n. n - amount) b.balance_of; total = b.total - amount })
    else none
next_book (transfer s r amount memo) b =
    if not (same_account s r) && ltb 0 amount && leb amount (b.balance_of s)
    then some (shift s r amount b)
    else none
next_book (resolve env s r amount) b =
    if is_answered env.promise_result
    then some (shift r s (min (b.balance_of r) (unused_of env amount)) b)
    else none

unfoldable pub next_books : List Operation → Book → Option Book
unfolding next_book
next_books [] b = some b
next_books (o ∷ rest) b = elim (next_book o b) [ none ↦ none | some b' ↦ next_books rest b' ]
