-- ===== src/Stable/Kept.antt =====
-- What an exchange of src/stable.rs keeps for a refund of an earlier withdrawal.
use usn.Base.{
  ℕ, ◌+◌, ◌-◌, ◌≤◌, ◌<◌, ◌≡◌, refl, sym, ap, ◌∙◌, inl, inr, some, arith, Bool-cases, AccountId,
  same_account, same_account_iff, ne-same_account, eq_of_some-eq, ok, Returns, Returns-ok,
  u128_bound,
}
use mathlib.Core.Path.{subst}
use usn.Base.Maps.{get, get-insert_ne}
use usn.Event.{AssetAction, withdraw_action}
use usn.Ft.{FungibleTokenFreeStorage}
use usn.Ft.Ledger
use usn.Ft.Ledger.{Credited, internal_deposit-Credited}
use usn.Asset.{AssetInfo, CommissionRate, enabled, commission_for}
use usn.Stable.{StableTreasury, refund, refund_commission}
use usn.Stable.Fees.{
  Charged, Charged-computed, Charged-found, with_commission, total_commission, total_commission-set,
}
use usn.Stable.Exchange.{asserts-found}
use usn.Treasury.Commissions.{decrease_commission-set}

-- The asset is still listed, with the status and the rates that it had, and no commission is lost.
pub record Kept (k : AccountId) (info : AssetInfo) (s : StableTreasury) : Type 0 where
  pub now : AssetInfo
  pub found : get k s.assets ≡ some now
  pub status : now.status ≡ info.status
  pub rates : now.commission_rate ≡ info.commission_rate
  pub booked : info.commission ≤ now.commission

pub Kept-self :
    (k : AccountId) (info : AssetInfo) (s : StableTreasury)
    → get k s.assets ≡ some info
    → Kept k info s
Kept-self k info s found = record {
  now = info;
  found = found;
  status = refl;
  rates = refl;
  booked = omega arith;
}

pub Kept-trans :
    (k : AccountId) (info : AssetInfo) (s s' : StableTreasury)
    → (first : Kept k info s) → Kept k first.now s'
    → Kept k info s'
Kept-trans k info s s' first second = record {
  now = second.now;
  found = second.found;
  status = second.status ∙ first.status;
  rates = second.rates ∙ first.rates;
  booked = omega (arith, first.booked, second.booked);
}

pub Charged-Kept :
    (k j : AccountId) (info : AssetInfo) {amount rest : ℕ} {action : AssetAction}
    {s s' : StableTreasury}
    → get k s.assets ≡ some info
    → Charged j amount rest action s s'
    → Kept k info s'
Charged-Kept k j info {s = s} {s' = s'} found c = elim (Bool-cases (same_account k j)) [
  | inl same ↦
      let e : k ≡ j = (same_account_iff k j).0 same in
      let changed = with_commission c.info (c.info.commission + c.commission) in
      let same_info : c.info ≡ info =
        eq_of_some-eq (sym c.found ∙ subst (λ n. get n s.assets ≡ some info) e found) in
      record {
        now = changed;
        found = subst (λ n. get n s'.assets ≡ some changed) (sym e) (Charged-found c);
        status = ap AssetInfo.status same_info;
        rates = ap AssetInfo.commission_rate same_info;
        booked = omega (arith, ap AssetInfo.commission same_info);
      }
  | inr away ↦
      let ne = ne-same_account k j away in
      let changed = with_commission c.info (c.info.commission + c.commission) in
      Kept-self k info s' (
        ap (λ t. get k (StableTreasury.assets t)) c.booked
        ∙ get-insert_ne k j changed s.assets ne
        ∙ found)
]

-- A refund of an enabled asset whose booked commission covers what is given up.
refund_covered :
    (account k : AccountId) (x rate commission : ℕ) (now : AssetInfo) (s : StableTreasury)
    (ft : FungibleTokenFreeStorage)
    → Ledger.IsValid ft
    → get k s.assets ≡ some now
    → now.status ≡ enabled
    → now.commission_rate.withdraw ≡ some rate
    → commission_for x rate ≡ ok commission
    → commission ≤ now.commission
    → ft.total_supply + x < u128_bound
    → Returns
        (λ o. Credited account x ft o.1 × (total_commission o.0 + commission ≡ total_commission s))
        (refund account k x s ft)
unfolding refund refund_commission
refund_covered account k x rate commission now s ft w found active rated computed low room =
    let (listed, still) = asserts-found k s now found active in
    let left = now.commission - commission in
    let (ft', minted, c) =
      Returns-ok (Credited account x ft) _ (internal_deposit-Credited account x ft w room) in
    rw
      (
        listed,
        still,
        found,
        rated,
        computed,
        decrease_commission-set k commission now s found low,
        minted,
      )
      (c, omega (arith, low, total_commission-set k now left s found))

-- What the treasury has of an asset right after a withdrawal.
abbrev pub after_charge :
    {k : AccountId} {x rest : ℕ} {s s' : StableTreasury}
    → Charged k x rest withdraw_action s s'
    → AssetInfo
after_charge c = with_commission c.info (c.info.commission + c.commission)

-- As long as that is kept, a refund of the withdrawal returns and gives up its commission.
pub refund_still_covered :
    (account k : AccountId) (x : ℕ) {rest : ℕ} {s s' : StableTreasury} (now : StableTreasury)
    (ft : FungibleTokenFreeStorage)
    → (c : Charged k x rest withdraw_action s s') → c.info.status ≡ enabled
    → Kept k (after_charge c) now
    → Ledger.IsValid ft
    → ft.total_supply + x < u128_bound
    → Returns
        (λ o.
          Credited account x ft o.1 × (total_commission o.0 + c.commission ≡ total_commission now))
        (refund account k x now ft)
refund_still_covered account k x now ft c active kept w room =
    refund_covered account k x c.rate c.commission kept.now now ft w kept.found
      (kept.status ∙ active) (ap CommissionRate.withdraw kept.rates ∙ c.rated) (Charged-computed c)
      (omega (arith, kept.booked)) room
