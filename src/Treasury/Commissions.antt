-- ===== src/Treasury/Commissions.antt =====
-- The loops over the commissions of the assets in src/lib.rs: their sum, and taking an amount from
-- them.
use usn.Base.{
  ℕ, ◌+◌, ◌-◌, ◌≤◌, ◌<◌, ◌≡◌, sym, ap, ◌∙◌, ◌≢◌, inl, inr, none, some, [], ◌∷◌, arith, ltb,
  Bool-cases, AccountId, same_account, same_account_refl, same_account_ne, ne-same_account, ltb→lt,
  le→leb, ok, Ensures, Returns, ok-injective, Returns-ok, Ensures-bind, Ensures-of_ok,
  Ensures-intro, u128_bound, add_u128, sub_checked, fit-ok, fit_within,
}
use usn.Base.Maps.{AccountMap, HasDistinctKeys, get, sum_of, get-insert_ne}
use usn.Asset.{AssetInfo}
use usn.Stable.{StableTreasury, set_asset, decrease_commission}
use usn.Stable.Invariant
use usn.Stable.Invariant.{decrease_commission-IsValid}
use usn.Stable.Fees.{with_commission, total_commission, total_commission-set}
use usn.Treasury.{sum_commissions, take_commissions}

abbrev pub sum_of_commissions : AccountMap AssetInfo → ℕ
sum_of_commissions = sum_of (λ info. info.commission)

-- The sum that the code computes, where it does not panic.
pub sum_commissions-ok :
    (total : ℕ) (l : AccountMap AssetInfo) {n : ℕ}
    → sum_commissions total l ≡ ok n
    → n ≡ total + sum_of_commissions l
unfolding sum_commissions
sum_commissions-ok total [] h = omega (arith, sym (ok-injective h))
sum_commissions-ok total ((k, info) ∷ l) {n} h =
    Ensures-of_ok (λ m. m ≡ total + (info.commission + sum_of_commissions l)) _
      (Ensures-bind _ (add_u128 total info.commission) _ λ t added.
        Ensures-intro _ (sum_commissions t l) λ m summed.
          omega (
            arith,
            fit-ok u128_bound (total + info.commission) added,
            sum_commissions-ok t l summed,
          ))
      h

pub sum_commissions_within :
    (total : ℕ) (l : AccountMap AssetInfo)
    → total + sum_of_commissions l < u128_bound
    → sum_commissions total l ≡ ok (total + sum_of_commissions l)
unfolding sum_commissions
sum_commissions_within total [] h = ap ok (omega arith)
sum_commissions_within total ((k, info) ∷ l) h =
    rw (fit_within u128_bound (total + info.commission) (omega arith))
      (sum_commissions_within (total + info.commission) l (omega arith) ∙ ap ok (omega arith))

-- Each entry of the list is the treasury's.
abbrev pub Agrees : AccountMap AssetInfo → StableTreasury → Type 0
Agrees [] s = Unit
Agrees ((k, info) ∷ l) s = (get k s.assets ≡ some info) × Agrees l s

Agrees-change :
    (k : AccountId) (l : AccountMap AssetInfo) (s s' : StableTreasury)
    → ((j : AccountId) → j ≢ k → get j s'.assets ≡ get j s.assets)
    → get k l ≡ none
    → Agrees l s
    → Agrees l s'
Agrees-change k [] s s' same absent a = tt
Agrees-change k ((j, info) ∷ l) s s' same absent (here, a) = elim (Bool-cases (same_account k j)) [
  | inl e ↦ absurd (ground arith)
  | inr ne ↦ (
    same j (λ e. ne-same_account k j ne (sym e)) ∙ here,
    Agrees-change k l s s' same (rw ne at absent) a,
  )
]

pub Agrees-self : (m : AccountMap AssetInfo) → HasDistinctKeys m → Agrees m (record { assets = m })
Agrees-self [] d = tt
Agrees-self ((k, info) ∷ m) (absent, d) = (
  rw (same_account_refl k),
  Agrees-change k m (record { assets = m }) (record { assets = (k, info) ∷ m })
      (λ j ne. rw (same_account_ne j k ne)) absent (Agrees-self m d),
)

pub decrease_commission-set :
    (k : AccountId) (amount : ℕ) (info : AssetInfo) (s : StableTreasury)
    → get k s.assets ≡ some info
    → amount ≤ info.commission
    → decrease_commission k amount s
      ≡ ok (set_asset k (with_commission info (info.commission - amount)) s)
unfolding decrease_commission
decrease_commission-set k amount info s found low = rw (found, le→leb amount info.commission low)

-- What the loop promises: the treasury stays valid, and its commissions fall by the amount.
abbrev pub Taken : ℕ → StableTreasury → StableTreasury → Type 0
Taken usn s s' = Invariant.IsValid s' × (total_commission s' + usn ≡ total_commission s)

take_one :
    (k : AccountId) (amount : ℕ) (info : AssetInfo) (s : StableTreasury)
    → Invariant.IsValid s
    → get k s.assets ≡ some info
    → amount ≤ info.commission
    → Returns (Taken amount s) (decrease_commission k amount s)
take_one k amount info s v found low =
    let e = decrease_commission-set k amount info s found low in
    rw e (
      Ensures-of_ok Invariant.IsValid _ (decrease_commission-IsValid k amount s v) e,
      omega (arith, total_commission-set k info (info.commission - amount) s found),
    )

-- An amount that the listed commissions cover is taken without a panic.
pub take_commissions-Taken :
    (usn : ℕ) (l : AccountMap AssetInfo) (s : StableTreasury)
    → Invariant.IsValid s
    → HasDistinctKeys l
    → Agrees l s
    → usn ≤ sum_of_commissions l
    → Returns (Taken usn s) (take_commissions usn l s)
unfolding take_commissions
take_commissions-Taken usn [] s v d a h = (v, omega arith)
take_commissions-Taken usn ((k, info) ∷ l) s v (absent, d) (found, a) h =
    elim (Bool-cases (ltb info.commission usn)) [
      | inl more ↦
          let low : info.commission < usn = ltb→lt info.commission usn more in
          let e = decrease_commission-set k info.commission info s found (omega arith) in
          let rest = with_commission info (info.commission - info.commission) in
          let s₁ = set_asset k rest s in
          let v₁ =
            Ensures-of_ok Invariant.IsValid _ (decrease_commission-IsValid k info.commission s v)
              e in
          let a₁ = Agrees-change k l s s₁ (λ j ne. get-insert_ne j k rest s.assets ne) absent a in
          let (s₂, taken, t) =
            Returns-ok (Taken (usn - info.commission) s₁) _
              (take_commissions-Taken (usn - info.commission) l s₁ v₁ d a₁ (omega arith)) in
          rw (more, e, le→leb info.commission usn (omega arith), taken)
            (
              t.0,
              omega (
                arith,
                t.1,
                total_commission-set k info (info.commission - info.commission) s found,
              ),
            )
      | inr enough ↦ rw enough (take_one k usn info s v found (ground arith))
    ]

-- Whatever the loop returns is a valid treasury.
pub take_commissions-IsValid :
    (usn : ℕ) (l : AccountMap AssetInfo) (s : StableTreasury)
    → Invariant.IsValid s
    → Ensures Invariant.IsValid (take_commissions usn l s)
unfolding take_commissions
take_commissions-IsValid usn [] s v = v
take_commissions-IsValid usn ((k, info) ∷ l) s v = elim (Bool-cases (ltb info.commission usn)) [
  | inl more ↦ rw more (
      Ensures-bind Invariant.IsValid (decrease_commission k info.commission s) _ λ s' h.
        Ensures-bind Invariant.IsValid (sub_checked usn info.commission) _ λ left _.
          take_commissions-IsValid left l s' (
            Ensures-of_ok Invariant.IsValid _ (decrease_commission-IsValid k info.commission s v)
              h))
  | inr enough ↦ rw enough (decrease_commission-IsValid k usn s v)
]
