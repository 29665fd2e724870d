-- ===== src/Keeps/Controls.antt =====
-- The invariant over the methods of src/owner.rs and src/lib.rs that control the contract.
use usn.Base.{ℕ, String, refl, List, arith, AccountId, Ensures, Ensures-bind, Ensures-of_ok}
use usn.Near.{Env}
use usn.Asset.{CommissionRate}
use usn.Stable
use usn.Stable.Invariant
use usn.Stable.Invariant.{
  add_asset-IsValid, enable_asset-IsValid, disable_asset-IsValid, set_commission_rate-IsValid,
}
use usn.Contract.{Contract, assert_owner, assert_owner_or_guardian, new}
use usn.Contract.Invariant.{IsValid, Keeps, with_treasury}
use usn.Owner.{accept_ownership, propose_new_owner, extend_guardians, remove_guardians}
use usn.Admin.{
  upgrade_name_symbol, upgrade_icon, add_to_blacklist, remove_from_blacklist, pause, resume,
}
use usn.Treasury.{add_stable_asset, enable_stable_asset, disable_stable_asset, set_commission_rate}

module _ (env : Env) (c : Contract) (v : IsValid c) where
  pub propose_new_owner-Keeps : (a : AccountId) → Keeps (propose_new_owner env a c)
  unfolding propose_new_owner assert_owner
  propose_new_owner-Keeps a = ground arith

  pub accept_ownership-Keeps : Keeps (accept_ownership env c)
  unfolding accept_ownership
  accept_ownership-Keeps = ground arith

  pub extend_guardians-Keeps : (l : List AccountId) → Keeps (extend_guardians env l c)
  unfolding extend_guardians assert_owner
  extend_guardians-Keeps l = ground arith

  pub remove_guardians-Keeps : (l : List AccountId) → Keeps (remove_guardians env l c)
  unfolding remove_guardians assert_owner
  remove_guardians-Keeps l = ground arith

  pub upgrade_name_symbol-Keeps : (n s : String) → Keeps (upgrade_name_symbol env n s c)
  unfolding upgrade_name_symbol assert_owner
  upgrade_name_symbol-Keeps n s = ground arith

  pub upgrade_icon-Keeps : (i : String) → Keeps (upgrade_icon env i c)
  unfolding upgrade_icon assert_owner
  upgrade_icon-Keeps i = ground arith

  pub add_to_blacklist-Keeps : (a : AccountId) → Keeps (add_to_blacklist env a c)
  unfolding add_to_blacklist assert_owner
  add_to_blacklist-Keeps a = ground arith

  pub remove_from_blacklist-Keeps : (a : AccountId) → Keeps (remove_from_blacklist env a c)
  unfolding remove_from_blacklist assert_owner
  remove_from_blacklist-Keeps a = ground arith

  pub pause-Keeps : Keeps (pause env c)
  unfolding pause assert_owner_or_guardian
  pause-Keeps = ground arith

  pub resume-Keeps : Keeps (resume env c)
  unfolding resume assert_owner
  resume-Keeps = ground arith

  pub add_stable_asset-Keeps : (k : AccountId) (d : ℕ) → Keeps (add_stable_asset env k d c)
  unfolding add_stable_asset
  add_stable_asset-Keeps k d =
      Ensures-bind (λ o. IsValid o.0) (assert_owner env c) _
        λ _ _.
          Ensures-bind (λ o. IsValid o.0) (Stable.add_asset k d c.stable_treasury) _
            λ s made.
              with_treasury v
                (Ensures-of_ok _ _ (add_asset-IsValid k d c.stable_treasury v.treasury) made)

  pub enable_stable_asset-Keeps : (k : AccountId) → Keeps (enable_stable_asset env k c)
  unfolding enable_stable_asset
  enable_stable_asset-Keeps k =
      Ensures-bind (λ o. IsValid o.0) (assert_owner env c) _
        λ _ _.
          Ensures-bind (λ o. IsValid o.0) (Stable.enable_asset k c.stable_treasury) _
            λ s made.
              with_treasury v
                (Ensures-of_ok _ _ (enable_asset-IsValid k c.stable_treasury v.treasury) made)

  pub disable_stable_asset-Keeps : (k : AccountId) → Keeps (disable_stable_asset env k c)
  unfolding disable_stable_asset
  disable_stable_asset-Keeps k =
      Ensures-bind (λ o. IsValid o.0) (assert_owner env c) _
        λ _ _.
          Ensures-bind (λ o. IsValid o.0) (Stable.disable_asset k c.stable_treasury) _
            λ s made.
              with_treasury v
                (Ensures-of_ok _ _ (disable_asset-IsValid k c.stable_treasury v.treasury) made)

  pub set_commission_rate-Keeps :
      (k : AccountId) (r : CommissionRate) → Keeps (set_commission_rate env k r c)
  unfolding set_commission_rate
  set_commission_rate-Keeps k r =
      Ensures-bind (λ o. IsValid o.0) (assert_owner env c) _
        λ _ _.
          Ensures-bind (λ o. IsValid o.0) (Stable.set_commission_rate k r c.stable_treasury) _
            λ out made. with_treasury v (
              Ensures-of_ok (λ o. Invariant.IsValid o.0) _
                (set_commission_rate-IsValid k r c.stable_treasury v.treasury) made)

-- A new contract is valid.
pub new-IsValid :
    (env : Env) (spec icon : String) (owner : AccountId) → Ensures IsValid (new env spec icon owner)
unfolding new
new-IsValid env spec icon owner = Ensures-bind IsValid (Stable.new env.network) _ λ s made. record {
  token = record { distinct = tt; conserved = refl; bounded = omega arith };
  treasury = Ensures-of_ok _ _ (Invariant.new-IsValid env.network) made;
  described = cc;
}
