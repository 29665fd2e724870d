-- ===== src/Ft/Refinement.antt =====
-- The token of src/ft.rs against its book.
use usn.Base.{
  ℕ, ◌+◌, ◌-◌, ◌<◌, ◌≡◌, refl, ◌≢◌, inl, inr, Bool-cases, Option, none, some, List, [], ◌∷◌, String,
  arith, min, AccountId, same_account, ne-same_account, lt→ltb, not_lt→ltb, le→leb, lt→leb, Result,
  ok, err, ◌>>=◌, Returns-ok, u128_bound,
}
use usn.Base.{true, false, aborted, ◌⊎◌, same_sender_receiver, not_positive, not_enough_balance}
use mathlib.Core.Path.{subst}
use native.Mathlib.Decide.{dec_lt}
use usn.Near.{Env, PromiseResult, not_ready, failed, successful}
use usn.Ft.{
  FungibleTokenFreeStorage, internal_deposit, internal_withdraw, internal_transfer,
  internal_ft_resolve_transfer, unused_amount,
}
use usn.Ft.Ledger.{
  IsValid, balance, Credited, Debited, internal_deposit-Credited, internal_deposit_overflow,
  internal_withdraw-Debited, internal_withdraw_short,
}
use usn.Ft.Transfer.{Transferred, internal_transfer-Moved}
use usn.Ft.Resolve.{Settled, unused_of, internal_ft_resolve_transfer-Settled}
use usn.Ft.View.{view, view-eq, at_account, Moved-view, Refunded-view}
use usn.Ft.Book.{Book, Operation, mint, burn, transfer, resolve, next_book, next_books, is_answered}

-- The code of an operation, its events left aside.
unfoldable pub apply : Operation → FungibleTokenFreeStorage → Result FungibleTokenFreeStorage
apply (mint k amount) t = internal_deposit k amount t
apply (burn k amount) t = internal_withdraw k amount t
apply (transfer s r amount memo) t = do (t', _) ← internal_transfer s r amount memo t; ok t'
apply (resolve env s r amount) t = do
  (t', _, _) ← internal_ft_resolve_transfer env s r amount t
  ok t'

unfoldable pub apply_all :
    List Operation → FungibleTokenFreeStorage → Result FungibleTokenFreeStorage
unfolding apply
apply_all [] t = ok t
apply_all (o ∷ rest) t = do t' ← apply o t; apply_all rest t'

-- The code returns where the book goes on, with that book, and panics where the book refuses.
abbrev pub Agrees : Result FungibleTokenFreeStorage → Option Book → Type 0
Agrees (ok t) (some b) = IsValid t × (view t ≡ b)
Agrees (err e) none = Unit
Agrees _ _ = ⊥

answer-cases : (p : PromiseResult) → ((is_answered p ≡ true) × (p ≢ not_ready)) ⊎ (p ≡ not_ready)
answer-cases not_ready = inr refl
answer-cases failed = inl (refl, λ e. cc)
answer-cases (successful value) = inl (refl, λ e. cc)

unanswered_aborts :
    (env : Env) (s r : AccountId) (a : ℕ) (t : FungibleTokenFreeStorage)
    → env.promise_result ≡ not_ready
    → internal_ft_resolve_transfer env s r a t ≡ err aborted
unfolding internal_ft_resolve_transfer unused_amount
unanswered_aborts env s r a t waiting = rw waiting refl

module _ (t : FungibleTokenFreeStorage) (v : IsValid t) where
  mint-Agrees :
      (k : AccountId) (a : ℕ) → Agrees (apply (mint k a) t) (next_book (mint k a) (view t))
  unfolding apply next_book
  mint-Agrees k a = elim (dec_lt (t.total_supply + a) u128_bound) [
    | yes fits ↦
        let (t', returned, c) =
          Returns-ok (Credited k a t) _ (internal_deposit-Credited k a t v fits) in
        rw (returned, lt→ltb _ _ fits)
          (
            c.valid,
            view-eq t' _
                (at_account k (λ n. n + a) (λ j. balance j t) (λ j. balance j t') c.own c.others)
                c.supply,
          )
    | no over ↦ elim (internal_deposit_overflow k a t v (omega arith)) [
      | inl e ↦ rw (e, not_lt→ltb _ _ over) tt
      | inr e ↦ rw (e, not_lt→ltb _ _ over) tt
    ]
  ]

  burn-Agrees :
      (k : AccountId) (a : ℕ) → Agrees (apply (burn k a) t) (next_book (burn k a) (view t))
  unfolding apply next_book
  burn-Agrees k a = elim (dec_lt (balance k t) a) [
    | no cover ↦
        let (t', returned, d) =
          Returns-ok (Debited k a t) _ (internal_withdraw-Debited k a t v (omega arith)) in
        rw (returned, le→leb a (balance k t) (omega arith))
          (
            d.valid,
            view-eq t' _
                (at_account k (λ n. n - a) (λ j. balance j t) (λ j. balance j t')
                  (omega (arith, d.own)) d.others)
                (omega (arith, d.supply)),
          )
    | yes short ↦ rw (internal_withdraw_short k a t v short, lt→leb a (balance k t) short) tt
  ]

  module _ (s r : AccountId) (a : ℕ) (memo : Option String) where
    refused_self :
        same_account s r ≡ true → internal_transfer s r a memo t ≡ err same_sender_receiver
    unfolding internal_transfer
    refused_self same = rw same refl

    refused_nothing :
        same_account s r ≡ false → ¬ (0 < a) → internal_transfer s r a memo t ≡ err not_positive
    unfolding internal_transfer
    refused_nothing different nothing = rw (different, not_lt→ltb 0 a nothing) refl

    refused_short :
        same_account s r ≡ false
        → 0 < a
        → balance s t < a
        → internal_transfer s r a memo t ≡ err not_enough_balance
    unfolding internal_transfer
    refused_short different pos short =
        rw (different, lt→ltb 0 a pos, internal_withdraw_short s a t v short) refl

  transfer-Agrees :
      (s r : AccountId) (a : ℕ) (memo : Option String)
      → Agrees (apply (transfer s r a memo) t) (next_book (transfer s r a memo) (view t))
  unfolding apply next_book Transferred
  transfer-Agrees s r a memo = elim (Bool-cases (same_account s r)) [
    | inl same ↦ rw (refused_self s r a memo same, same) tt
    | inr different ↦ elim (dec_lt 0 a) [
      | no nothing ↦
          rw (refused_nothing s r a memo different nothing, different, not_lt→ltb 0 a nothing) tt
      | yes pos ↦ elim (dec_lt (balance s t) a) [
        | yes short ↦
            rw
              (
                refused_short s r a memo different pos short,
                different,
                lt→ltb 0 a pos,
                lt→leb a (balance s t) short,
              )
              tt
        | no cover ↦
            let ne = ne-same_account s r different in
            let ((t', events), returned, (m, _)) =
              Returns-ok (Transferred s r a memo t) _
                (internal_transfer-Moved s r a memo t v ne pos (omega arith)) in
            rw (returned, different, lt→ltb 0 a pos, le→leb a (balance s t) (omega arith))
              (m.valid, Moved-view s r a t t' ne m.supply m.paid m.received m.others)
      ]
    ]
  ]

  resolve-Agrees :
      (env : Env) (s r : AccountId) (a : ℕ)
      → Agrees (apply (resolve env s r a) t) (next_book (resolve env s r a) (view t))
  unfolding apply next_book Settled
  resolve-Agrees env s r a = elim (answer-cases env.promise_result) [
    | inl (answered, ready) ↦
        let ((t', events, counts), returned, settled) =
          Returns-ok (Settled s r a (unused_of env a) t) _
            (internal_ft_resolve_transfer-Settled env s r a t v ready) in
        rw (returned, answered)
          (
            settled.0.valid,
            Refunded-view t s r (min (balance r t) (unused_of env a)) t' (omega arith) settled.0,
          )
    | inr waiting ↦ rw (unanswered_aborts env s r a t waiting, waiting) tt
  ]

  apply-Agrees : (o : Operation) → Agrees (apply o t) (next_book o (view t))
  apply-Agrees (mint k a) = mint-Agrees k a
  apply-Agrees (burn k a) = burn-Agrees k a
  apply-Agrees (transfer s r a memo) = transfer-Agrees s r a memo
  apply-Agrees (resolve env s r a) = resolve-Agrees env s r a

-- After a first operation on which both agree, the rest decides.
then-Agrees :
    (rest : List Operation) (m : Result FungibleTokenFreeStorage) (o : Option Book)
    → Agrees m o
    → ((t : FungibleTokenFreeStorage)
        → IsValid t
        → Agrees (apply_all rest t) (next_books rest (view t)))
    → Agrees (m >>= apply_all rest) (elim o [ none ↦ none | some b ↦ next_books rest b ])
then-Agrees rest (ok t) (some b) (v, e) ih =
    subst (λ c. Agrees (apply_all rest t) (next_books rest c)) e (ih t v)
then-Agrees rest (err p) none h ih = tt
then-Agrees rest (ok t) none h ih = absurd h
then-Agrees rest (err p) (some b) h ih = absurd h

-- On a valid token, any sequence of mints, burns, transfers and resolve callbacks panics where the
-- book of balances refuses one of them, and otherwise leaves a valid token whose balances and
-- supply are those of the book.
pub apply_all-Agrees :
    (operations : List Operation) (t : FungibleTokenFreeStorage)
    → IsValid t
    → Agrees (apply_all operations t) (next_books operations (view t))
unfolding apply_all next_books
apply_all-Agrees [] t v = (v, refl)
apply_all-Agrees (o ∷ rest) t v =
    then-Agrees rest (apply o t) (next_book o (view t)) (apply-Agrees t v o)
      (λ t' v'. apply_all-Agrees rest t' v')
