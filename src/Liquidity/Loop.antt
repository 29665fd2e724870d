-- ===== src/Liquidity/Loop.antt =====
-- The loop over the tokens of src/treasury/transfer_stable_liquidity.rs, on the token of USN.
use usn.Base.{
  ℕ, ◌+◌, ◌-◌, ◌<◌, ◌≡◌, refl, sym, ◌∙◌, ◌≢◌, inl, inr, false, Option, none, some, List, [], ◌∷◌,
  arith, Bool-cases, eq→==, ne→==, AccountId, same_account, same_account_iff, same_account_comm, ok,
  Returns, Returns-ok, u128_bound,
}
use mathlib.Core.Path.{subst}
use native.Mathlib.Decide.{dec_lt}
use usn.Base.Maps.{AccountMap, HasDistinctKeys, get}
use usn.Near
use usn.Near.{Env, Promise}
use usn.Event.{Event}
use usn.Ft.{FungibleTokenFreeStorage}
use usn.Ft.Ledger
use usn.Ft.Ledger.{balance}
use usn.Pool.{gas_for_ft_transfer_call}
use usn.Liquidity.{transfer_token, transfer_tokens, deposit_of, join}
use usn.Liquidity.Funding.{Funded, transfer_token-Funded}

-- What ref.finance still lacks of a token that is listed.
abbrev pub lacking : AccountId → AccountMap ℕ → AccountMap ℕ → ℕ
lacking k deposits amounts = elim (get k amounts) [
  | none ↦ 0
  | some amount ↦ amount - deposit_of k deposits
]

abbrev Transfers : Type 0
Transfers = FungibleTokenFreeStorage × List Event × Option Promise

-- A call of another token leaves the token of USN alone.
other_token :
    (env : Env) (ref k : AccountId) (amount : ℕ) (t : FungibleTokenFreeStorage)
    → same_account k env.current_account_id ≡ false
    → transfer_token env ref k amount t
      ≡ ok (
        t,
        [],
        Promise.call (Near.ft_transfer_call ref amount none "") k 1 gas_for_ft_transfer_call,
      )
unfolding transfer_token
other_token env ref k amount t other = rw other refl

module _ (env : Env) (ref : AccountId) (deposits : AccountMap ℕ) where
  -- One step of the loop, and what is left to do.
  step :
      (P : FungibleTokenFreeStorage → Type 0) (k : AccountId) (amount : ℕ) (rest : AccountMap ℕ)
      (t : FungibleTokenFreeStorage) (acc : Option Promise)
      → ((amount - deposit_of k deposits ≡ 0)
          → Returns (λ (o : Transfers). P o.0) (transfer_tokens env ref deposits rest t acc))
      → (0 < amount - deposit_of k deposits
          → Returns
              (λ (o : FungibleTokenFreeStorage × List Event × Promise).
                (acc' : Option Promise)
                → Returns
                    (λ (o' : Transfers). P o'.0)
                    (transfer_tokens env ref deposits rest o.0 acc'))
              (transfer_token env ref k (amount - deposit_of k deposits) t))
      → Returns
          (λ (o : Transfers). P o.0)
          (transfer_tokens env ref deposits ((k, amount) ∷ rest) t acc)
  unfolding transfer_tokens
  step P k amount rest t acc covered lacks =
      let missing = amount - deposit_of k deposits in
      elim (dec_lt 0 missing) [
        | no nothing ↦ rw (eq→== missing 0 (omega arith)) (covered (omega arith))
        | yes some_missing ↦
            let ((t', e, p), sent, go) =
              Returns-ok
                (λ (o : FungibleTokenFreeStorage × List Event × Promise).
                  (acc' : Option Promise)
                  → Returns (λ (o' : Transfers). P o'.0)
                      (transfer_tokens env ref deposits rest o.0 acc'))
                (transfer_token env ref k missing t) (lacks some_missing) in
            let ((t'', e', ps), done, holds) =
              Returns-ok (λ (o : Transfers). P o.0)
                (transfer_tokens env ref deposits rest t' (some (join acc p)))
                (go (some (join acc p))) in
            rw (ne→== missing 0 (omega arith), sent, done) holds
      ]

  others_untouched :
      (amounts : AccountMap ℕ) (t : FungibleTokenFreeStorage) (acc : Option Promise)
      → get env.current_account_id amounts ≡ none
      → Returns (λ (o : Transfers). o.0 ≡ t) (transfer_tokens env ref deposits amounts t acc)
  others_untouched [] t acc absent = unfold transfer_tokens in refl
  others_untouched ((k, amount) ∷ rest) t acc absent =
      let me = env.current_account_id in
      elim (Bool-cases (same_account me k)) [
        | inl same ↦ absurd (ground arith)
        | inr other ↦
            let absent' : get me rest ≡ none = rw other at absent in
            step (λ x. x ≡ t) k amount rest t acc (λ _. others_untouched rest t acc absent')
              (λ _.
                rw
                  (other_token env ref k (amount - deposit_of k deposits) t
                    (same_account_comm k me ∙ other))
                  (λ acc'. others_untouched rest t acc' absent'))
      ]

  then_untouched :
      (P : FungibleTokenFreeStorage → Type 0) (amounts : AccountMap ℕ)
      (t : FungibleTokenFreeStorage) (acc : Option Promise)
      → get env.current_account_id amounts ≡ none
      → P t
      → Returns (λ (o : Transfers). P o.0) (transfer_tokens env ref deposits amounts t acc)
  then_untouched P amounts t acc absent holds =
      let (o, done, same) =
        Returns-ok (λ (o : Transfers). o.0 ≡ t) _ (others_untouched amounts t acc absent) in
      rw done (subst P (sym same) holds)

Funded-nothing :
    (s r : AccountId) (t : FungibleTokenFreeStorage) → Ledger.IsValid t → Funded s r 0 t t
Funded-nothing s r t v = record {
  valid = v;
  supply = omega arith;
  paid = omega arith;
  received = omega arith;
  others = λ j js jr. refl;
}

module _ (env : Env) (ref : AccountId) (deposits : AccountMap ℕ)
    (ne : env.current_account_id ≢ ref) where
  usn_first :
      (amount : ℕ) (rest : AccountMap ℕ) (t : FungibleTokenFreeStorage) (acc : Option Promise)
      → Ledger.IsValid t
      → get env.current_account_id rest ≡ none
      → t.total_supply
          + (amount - deposit_of env.current_account_id deposits - balance env.current_account_id t)
        < u128_bound
      → Returns
          (λ (o : Transfers).
            Funded env.current_account_id ref
              (amount - deposit_of env.current_account_id deposits)
              t
              o.0)
          (transfer_tokens env ref deposits ((env.current_account_id, amount) ∷ rest) t acc)
  usn_first amount rest t acc v absent room =
      let me = env.current_account_id in
      let missing = amount - deposit_of me deposits in
      let P = Funded me ref missing t in
      step env ref deposits P me amount rest t acc
        (λ nothing.
          then_untouched env ref deposits P rest t acc absent
            (rw nothing (Funded-nothing me ref t v)))
        (λ some_missing.
          let ((t', e, p), sent, f) =
            Returns-ok (λ (o : FungibleTokenFreeStorage × List Event × Promise). P o.0) _
              (transfer_token-Funded env ref missing t v ne some_missing room) in
          rw sent (λ acc'. then_untouched env ref deposits P rest t' acc' absent f))

  -- On a valid token with room in the supply, the loop of the liquidity transfers over different
  -- tokens returns: the pool account, another one than the contract, gains what its deposit of USN
  -- lacks, the balance of the contract falls by that or to nothing, the supply grows by what the
  -- contract did not have, no other balance changes, and the token stays valid.
  pub transfer_tokens-Funded :
      (amounts : AccountMap ℕ) (t : FungibleTokenFreeStorage) (acc : Option Promise)
      → Ledger.IsValid t
      → HasDistinctKeys amounts
      → t.total_supply
          + (lacking env.current_account_id deposits amounts - balance env.current_account_id t)
        < u128_bound
      → Returns
          (λ (o : Transfers).
            Funded env.current_account_id ref
              (lacking env.current_account_id deposits amounts)
              t
              o.0)
          (transfer_tokens env ref deposits amounts t acc)
  transfer_tokens-Funded [] t acc v d room =
      then_untouched env ref deposits _ [] t acc refl
        (Funded-nothing env.current_account_id ref t v)
  transfer_tokens-Funded ((k, amount) ∷ rest) t acc v (absent, d) room =
      let me = env.current_account_id in
      elim (Bool-cases (same_account me k)) [
        | inl same ↦
            let e : k ≡ me = sym ((same_account_iff me k).0 same) in
            let listed : lacking me deposits ((k, amount) ∷ rest)
                ≡ amount - deposit_of me deposits =
              rw (lacking, same) refl in
            rw (listed, e)
              (usn_first amount rest t acc v (subst (λ n. get n rest ≡ none) e absent)
                (rw listed at room))
        | inr other ↦
            let unlisted : lacking me deposits ((k, amount) ∷ rest) ≡ lacking me deposits rest =
              rw (lacking, other) refl in
            let P = Funded me ref (lacking me deposits rest) t in
            let ih = λ (acc' : Option Promise).
              transfer_tokens-Funded rest t acc' v d (rw unlisted at room) in
            rw unlisted (
              step env ref deposits P k amount rest t acc (λ _. ih acc)
                (λ _.
                  rw
                    (other_token env ref k (amount - deposit_of k deposits) t
                      (same_account_comm k me ∙ other))
                    ih))
      ]
