-- ===== src/Stable/Exchange.antt =====
-- The exchange of src/stable.rs: what `deposit`, `withdraw` and `refund` do to the treasury and to
-- the token.
use usn.Base.{
  ℕ, ◌≡◌, refl, ◌≢◌, true, not, none, some, List, [], ◌∷◌, arith, ◌==◌, AccountId, ok, require,
  Ensures, require-true, Ensures-bind, Ensures-of_ok, or_panic-ok,
}
use usn.Base.{unwrap_none, exchanges_to_nothing}
use usn.Base.Maps.{get}
use usn.Event.{Event, deposit_action, withdraw_action}
use usn.Ft.{FungibleTokenFreeStorage, internal_deposit, internal_withdraw}
use usn.Ft.Ledger
use usn.Ft.Ledger.{
  balance, Credited, Debited, Credited-of_ok, Debited-of_ok, internal_deposit-Credited,
}
use usn.Asset.{AssetInfo, AssetStatus, enabled, same_status, usn_decimals, convert_decimals}
use usn.Stable.{
  StableTreasury, get_asset, assert_asset, assert_status, withdraw_commission, refund,
  refund_commission, deposit, withdraw,
}
use usn.Stable.Invariant.{IsValid, withdraw_commission-IsValid, refund_commission-IsValid}
use usn.Stable.Fees.{Charged, withdraw_commission-Charged}

not_zero : (n : ℕ) → not (n == 0) ≡ true → n ≢ 0
not_zero n h = ground arith

same_status→eq : (a b : AssetStatus) → same_status a b ≡ true → a ≡ b
same_status→eq a b h = ground arith

assert_status-ok :
    (k : AccountId) (status : AssetStatus) (s : StableTreasury) (info : AssetInfo)
    → assert_status k status s ≡ ok tt
    → get k s.assets ≡ some info
    → info.status ≡ status
unfolding assert_status
assert_status-ok k status s info h found =
    same_status→eq info.status status (require-true _ _ (rw found at h))

pub asserts-found :
    (k : AccountId) (s : StableTreasury) (info : AssetInfo)
    → get k s.assets ≡ some info
    → info.status ≡ enabled
    → (assert_asset k s ≡ ok tt) × (assert_status k enabled s ≡ ok tt)
unfolding assert_asset assert_status
asserts-found k s info found active = (rw found, rw (found, active))

-- The steps of a deposit that returned: an enabled asset, the amount in USN, its commission, and
-- the rest minted to the account.
pub record Deposited (account k : AccountId) (x : ℕ) (s s' : StableTreasury)
    (ft ft' : FungibleTokenFreeStorage) (events : List Event) : Type 0 where
  pub info : AssetInfo
  pub amount : ℕ
  pub minted : ℕ
  pub found : get k s.assets ≡ some info
  pub active : info.status ≡ enabled
  pub converted : convert_decimals x info.decimals usn_decimals ≡ ok amount
  pub charged : Charged k amount minted deposit_action s s'
  pub credited : Credited account minted ft ft'
  pub emitted : events ≡ Event.ft_mint account minted none ∷ []

-- The steps of a withdrawal that returned: an enabled asset, the commission on the amount, the rest
-- paid out in the asset and not zero, and the whole amount burned.
pub record Withdrawn (account k : AccountId) (amount : ℕ) (s s' : StableTreasury)
    (ft ft' : FungibleTokenFreeStorage) (events : List Event) (out : ℕ) : Type 0 where
  pub info : AssetInfo
  pub rest : ℕ
  pub found : get k s.assets ≡ some info
  pub active : info.status ≡ enabled
  pub charged : Charged k amount rest withdraw_action s s'
  pub converted : convert_decimals rest usn_decimals info.decimals ≡ ok out
  pub not_nothing : out ≢ 0
  pub debited : Debited account amount ft ft'
  pub emitted : events ≡ Event.ft_burn account amount none ∷ []

module _ (account k : AccountId) (x : ℕ) (s : StableTreasury) (ft : FungibleTokenFreeStorage)
    (v : IsValid s) (w : Ledger.IsValid ft) where
  pub deposit-Deposited :
      Ensures (λ out. Deposited account k x s out.0 ft out.1 out.2) (deposit account k x s ft)
  unfolding deposit
  deposit-Deposited =
      let P = λ (out : StableTreasury × FungibleTokenFreeStorage × List Event).
        Deposited account k x s out.0 ft out.1 out.2 in
      Ensures-bind P (assert_asset k s) _ λ _ _.
        Ensures-bind P (assert_status k enabled s) _ λ _ active.
          Ensures-bind P (get_asset k s) _ λ info found.
            Ensures-bind P (convert_decimals x info.decimals usn_decimals) _ λ amount converted.
              Ensures-bind P (withdraw_commission k amount deposit_action s) _
                λ (s', minted) charged.
                  Ensures-bind P (internal_deposit account minted ft) _ λ ft' credited.
                    let at_key = or_panic-ok (get k s.assets) unwrap_none found in
                    record {
                      info = info;
                      amount = amount;
                      minted = minted;
                      found = at_key;
                      active = assert_status-ok k enabled s info active at_key;
                      converted = converted;
                      charged =
                          Ensures-of_ok (λ out. Charged k amount out.1 deposit_action s out.0) _
                            (withdraw_commission-Charged k amount deposit_action s v) charged;
                      credited = Credited-of_ok account minted ft w credited;
                      emitted = refl;
                    }

  pub withdraw-Withdrawn :
      Ensures
        (λ out. Withdrawn account k x s out.0 ft out.1 out.2 out.3)
        (withdraw account k x s ft)
  unfolding withdraw
  withdraw-Withdrawn =
      let P = λ (out : StableTreasury × FungibleTokenFreeStorage × List Event × ℕ).
        Withdrawn account k x s out.0 ft out.1 out.2 out.3 in
      Ensures-bind P (assert_asset k s) _ λ _ _.
        Ensures-bind P (assert_status k enabled s) _ λ _ active.
          Ensures-bind P (get_asset k s) _ λ info found.
            Ensures-bind P (withdraw_commission k x withdraw_action s) _ λ (s', rest) charged.
              Ensures-bind P (convert_decimals rest usn_decimals info.decimals) _ λ out converted.
                Ensures-bind P (require (not (out == 0)) exchanges_to_nothing) _ λ _ some_out.
                  Ensures-bind P (internal_withdraw account x ft) _ λ ft' debited.
                    let at_key = or_panic-ok (get k s.assets) unwrap_none found in
                    record {
                      info = info;
                      rest = rest;
                      found = at_key;
                      active = assert_status-ok k enabled s info active at_key;
                      charged =
                          Ensures-of_ok (λ r. Charged k x r.1 withdraw_action s r.0) _
                            (withdraw_commission-Charged k x withdraw_action s v) charged;
                      converted = converted;
                      not_nothing = not_zero out (require-true _ _ some_out);
                      debited = Debited-of_ok account x ft w debited;
                      emitted = refl;
                    }

-- A withdrawal and a refund leave a valid treasury and a valid token.
module _ (account k : AccountId) (x : ℕ) (s : StableTreasury) (ft : FungibleTokenFreeStorage)
    (v : IsValid s) (w : Ledger.IsValid ft) where
  pub withdraw-IsValid : Ensures (λ o. IsValid o.0 × Ledger.IsValid o.1) (withdraw account k x s ft)
  unfolding withdraw
  withdraw-IsValid =
      let P = λ (o : StableTreasury × FungibleTokenFreeStorage × List Event × ℕ).
        IsValid o.0 × Ledger.IsValid o.1 in
      Ensures-bind P (assert_asset k s) _ λ _ _. Ensures-bind P (assert_status k enabled s) _ λ _ _.
        Ensures-bind P (get_asset k s) _ λ info _.
          Ensures-bind P (withdraw_commission k x withdraw_action s) _ λ (s', rest) charged.
            Ensures-bind P (convert_decimals rest usn_decimals info.decimals) _ λ out _.
              Ensures-bind P (require (not (out == 0)) exchanges_to_nothing) _ λ _ _.
                Ensures-bind P (internal_withdraw account x ft) _ λ ft' debited. (
                  Ensures-of_ok (λ o. IsValid o.0) _
                      (withdraw_commission-IsValid k x withdraw_action s v) charged,
                  (Debited-of_ok account x ft w debited).valid,
                )

  pub refund-IsValid : Ensures (λ o. IsValid o.0 × Ledger.IsValid o.1) (refund account k x s ft)
  unfolding refund
  refund-IsValid =
      let P = λ (o : StableTreasury × FungibleTokenFreeStorage × List Event).
        IsValid o.0 × Ledger.IsValid o.1 in
      Ensures-bind P (assert_asset k s) _ λ _ _. Ensures-bind P (assert_status k enabled s) _ λ _ _.
        Ensures-bind P (refund_commission k x s) _ λ s' refunded.
          Ensures-bind P (internal_deposit account x ft) _ λ ft' credited. (
            Ensures-of_ok IsValid _ (refund_commission-IsValid k x s v) refunded,
            (Credited-of_ok account x ft w credited).valid,
          )
