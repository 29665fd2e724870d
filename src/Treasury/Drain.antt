-- ===== src/Treasury/Drain.antt =====
-- The loop of `transfer_commission` of src/lib.rs against a description of what it leaves.
use usn.Base.{
  ℕ, ◌-◌, ◌≤◌, ◌≡◌, refl, sym, ap, ◌∙◌, inl, inr, none, [], ◌∷◌, ◌++◌, arith, Bool-cases, AccountId,
  same_account, same_account_refl, same_account_ne, ne-same_account, le→leb, lt→ltb, not_lt→ltb, ok,
}
use mathlib.Core.List.{append_assoc}
use native.Mathlib.Decide.{dec_lt}
use usn.Base.Maps.{AccountMap, HasDistinctKeys, get, insert}
use usn.Asset.{AssetInfo}
use usn.Stable.{StableTreasury, decrease_commission}
use usn.Stable.Fees.{with_commission}
use usn.Treasury.{take_commissions}
use usn.Treasury.Commissions.{sum_of_commissions, decrease_commission-set}

-- The assets after an amount was drawn from their commissions in order: each gives what is still
-- wanted, or all that it has.
unfoldable pub drawn : ℕ → AccountMap AssetInfo → AccountMap AssetInfo
drawn wanted [] = []
drawn wanted ((k, info) ∷ l) =
    (k, with_commission info (info.commission - wanted)) ∷ drawn (wanted - info.commission) l

drawn_zero : (l : AccountMap AssetInfo) → drawn 0 l ≡ l
unfolding drawn
drawn_zero [] = refl
drawn_zero ((k, info) ∷ l) =
    let whole : info.commission - 0 ≡ info.commission = omega arith in
    let none_left : 0 - info.commission ≡ 0 = omega arith in
    rw (none_left, drawn_zero l, whole) refl

drawn_covered :
    (wanted : ℕ) (k : AccountId) (info : AssetInfo) (l : AccountMap AssetInfo)
    → wanted ≤ info.commission
    → drawn wanted ((k, info) ∷ l) ≡ (k, with_commission info (info.commission - wanted)) ∷ l
unfolding drawn
drawn_covered wanted k info l h =
    let nothing : wanted - info.commission ≡ 0 = omega arith in rw (nothing, drawn_zero l) refl

-- No key of the second map stands in the first.
abbrev Apart : AccountMap AssetInfo → AccountMap AssetInfo → Type 0
Apart m [] = Unit
Apart m ((k, info) ∷ l) = (get k m ≡ none) × Apart m l

Apart-nil : (l : AccountMap AssetInfo) → Apart [] l
Apart-nil [] = tt
Apart-nil ((k, info) ∷ l) = (refl, Apart-nil l)

get-append :
    (k : AccountId) (m l : AccountMap AssetInfo) → get k m ≡ none → get k (m ++ l) ≡ get k l
get-append k [] l absent = refl
get-append k (e ∷ m) l absent = ground (arith, get-append k m l)

insert-append :
    (k : AccountId) (v : AssetInfo) (m l : AccountMap AssetInfo)
    → get k m ≡ none
    → insert k v (m ++ l) ≡ m ++ insert k v l
insert-append k v [] l absent = refl
insert-append k v (e ∷ m) l absent = ground (arith, insert-append k v m l)

Apart-snoc :
    (m l : AccountMap AssetInfo) (k : AccountId) (v : AssetInfo)
    → get k l ≡ none
    → Apart m l
    → Apart (m ++ (k, v) ∷ []) l
Apart-snoc m [] k v absent apart = tt
Apart-snoc m ((j, info) ∷ l) k v absent (here, apart) = elim (Bool-cases (same_account k j)) [
  | inl e ↦ absurd (ground arith)
  | inr ne ↦
      let away = λ (e : j ≡ k). ne-same_account k j ne (sym e) in
      (
        get-append j m ((k, v) ∷ []) here ∙ rw (same_account_ne j k away) refl,
        Apart-snoc m l k v (rw ne at absent) apart,
      )
]

draw_one :
    (k : AccountId) (amount : ℕ) (info : AssetInfo) (m l : AccountMap AssetInfo)
    → get k m ≡ none
    → amount ≤ info.commission
    → decrease_commission k amount (record { assets = m ++ (k, info) ∷ l })
      ≡ ok (record { assets = m ++ (k, with_commission info (info.commission - amount)) ∷ l })
draw_one k amount info m l here low =
    let changed = with_commission info (info.commission - amount) in
    decrease_commission-set k amount info (record { assets = m ++ (k, info) ∷ l })
      (get-append k m ((k, info) ∷ l) here ∙ rw (same_account_refl k) refl) low
    ∙ ap (λ a. ok (record { assets = a }))
        (insert-append k changed m ((k, info) ∷ l) here ∙ rw (same_account_refl k) refl)

take_commissions_from :
    (usn : ℕ) (m l : AccountMap AssetInfo)
    → HasDistinctKeys l
    → Apart m l
    → usn ≤ sum_of_commissions l
    → take_commissions usn l (record { assets = m ++ l })
      ≡ ok (record { assets = m ++ drawn usn l })
unfolding take_commissions
take_commissions_from usn m [] d apart h = unfold drawn in refl
take_commissions_from usn m ((k, info) ∷ l) (absent, d) (here, apart) h =
    elim (dec_lt info.commission usn) [
      | yes more ↦
          let empty = with_commission info (info.commission - info.commission) in
          let all_gone : info.commission - usn ≡ info.commission - info.commission = omega arith in
          rw
            (
              lt→ltb info.commission usn more,
              draw_one k info.commission info m l here (omega arith),
              le→leb info.commission usn (omega arith),
              ← append_assoc m ((k, empty) ∷ []) l,
              take_commissions_from (usn - info.commission) (m ++ (k, empty) ∷ []) l d
                  (Apart-snoc m l k empty absent apart) (omega arith),
              append_assoc m ((k, empty) ∷ []) (drawn (usn - info.commission) l),
            )
            (unfold drawn in rw all_gone refl)
      | no enough ↦
          rw
            (
              not_lt→ltb info.commission usn enough,
              drawn_covered usn k info l (omega arith),
              draw_one k usn info m l here (omega arith),
            )
            refl
    ]

-- Where no asset is listed twice and the commissions cover the amount, the loop of
-- transfer_commission returns and leaves the assets as drawing the amount in one pass describes it:
-- each asset in order gives what is still wanted or all that it has.
pub take_commissions-drawn :
    (usn : ℕ) (s : StableTreasury)
    → HasDistinctKeys s.assets
    → usn ≤ sum_of_commissions s.assets
    → take_commissions usn s.assets s ≡ ok (record { assets = drawn usn s.assets })
take_commissions-drawn usn s d h = take_commissions_from usn [] s.assets d (Apart-nil s.assets) h
