-- ===== src/Ft/View.antt =====
-- The token of src/ft.rs seen as its book: what moving an amount does to the view.
use usn.Base.{
  ℕ, ◌+◌, ◌-◌, ◌≤◌, ◌≡◌, refl, sym, ◌≢◌, ap, ◌∙◌, inl, inr, Bool-cases, arith, AccountId,
  same_account, same_account_iff, same_account_refl, same_account_ne, ne-same_account,
}
use mathlib.Core.Path.{subst, fun_ext}
use usn.Ft.{FungibleTokenFreeStorage}
use usn.Ft.Ledger.{balance}
use usn.Ft.Resolve.{Refunded}
use usn.Ft.Book.{Book, change, shift}

abbrev pub view : FungibleTokenFreeStorage → Book
view t = record { balance_of = λ k. balance k t; total = t.total_supply }

pub view-eq :
    (t : FungibleTokenFreeStorage) (b : Book)
    → ((j : AccountId) → balance j t ≡ b.balance_of j)
    → t.total_supply ≡ b.total
    → view t ≡ b
view-eq t b p q = λ i. record { balance_of = fun_ext p i; total = q i }

change_self : (k : AccountId) (f : ℕ → ℕ) (g : AccountId → ℕ) → change k f g k ≡ f (g k)
change_self k f g = rw (same_account_refl k) refl

change_ne : (k j : AccountId) (f : ℕ → ℕ) (g : AccountId → ℕ) → j ≢ k → change k f g j ≡ g j
change_ne k j f g away = rw (same_account_ne j k away) refl

-- A function that changed at one account alone.
pub at_account :
    (k : AccountId) (f : ℕ → ℕ) (g h : AccountId → ℕ)
    → h k ≡ f (g k)
    → ((j : AccountId) → j ≢ k → h j ≡ g j)
    → (j : AccountId) → h j ≡ change k f g j
at_account k f g h here others j = elim (Bool-cases (same_account j k)) [
  | inl same ↦ rw ((same_account_iff j k).0 same) (here ∙ sym (change_self k f g))
  | inr away ↦ let ne = ne-same_account j k away in others j ne ∙ sym (change_ne k j f g ne)
]

pub Moved-view :
    (s r : AccountId) (a : ℕ) (t t' : FungibleTokenFreeStorage)
    → s ≢ r
    → t'.total_supply ≡ t.total_supply
    → balance s t' + a ≡ balance s t
    → balance r t' ≡ balance r t + a
    → ((j : AccountId) → j ≢ s → j ≢ r → balance j t' ≡ balance j t)
    → view t' ≡ shift s r a (view t)
Moved-view s r a t t' ne supply paid received others =
    let less = change s (λ n. n - a) (λ k. balance k t) in
    let rs : r ≢ s = λ e. ne (sym e) in
    view-eq t' (shift s r a (view t))
      (at_account r (λ n. n + a) less (λ k. balance k t')
        (received ∙ ap (λ n. n + a) (sym (change_ne s r (λ n. n - a) (λ k. balance k t) rs)))
        (λ j jr. elim (Bool-cases (same_account j s)) [
          | inl here ↦
              rw ((same_account_iff j s).0 here)
                (sym (change_self s (λ n. n - a) (λ k. balance k t) ∙ omega (arith, paid)))
          | inr away ↦
              let js = ne-same_account j s away in
              others j js jr ∙ sym (change_ne s j (λ n. n - a) (λ k. balance k t) js)
        ]))
      supply

pub Refunded-view :
    (t : FungibleTokenFreeStorage) (s r : AccountId) (m : ℕ) (t' : FungibleTokenFreeStorage)
    → m ≤ balance r t
    → Refunded s r m t t'
    → view t' ≡ shift r s m (view t)
Refunded-view t s r m t' low back = elim (Bool-cases (same_account s r)) [
  | inr different ↦
      let ne = ne-same_account s r different in
      Moved-view r s m t t' (λ e. ne (sym e)) back.supply (back.taken ne) (back.given ne)
        (λ j jr js. back.others j js jr)
  | inl same ↦
      let e : s ≡ r = (same_account_iff s r).0 same in
      let less = change r (λ n. n - m) (λ k. balance k t) in
      view-eq t' (shift r s m (view t))
        (at_account s (λ n. n + m) less (λ k. balance k t')
          (rw (e, change_self r (λ n. n - m) (λ k. balance k t))
            (omega (arith, subst (λ x. balance x t' ≡ balance x t) e (back.kept e))))
          (λ j js.
            let jr = λ (e' : j ≡ r). js (e' ∙ sym e) in
            back.others j js jr ∙ sym (change_ne r j (λ n. n - m) (λ k. balance k t) jr)))
        back.supply
]
