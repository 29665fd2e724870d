-- ===== src/Keeps/Exchanges.antt =====
-- The invariant over the transfer of commission of src/lib.rs and the methods of src/treasury/.
use usn.Base.{
  ℕ, inl, inr, Option, none, List, ltb, leb, Bool-cases, AccountId, require, Ensures-bind,
  Ensures-of_ok, sub_checked,
}
use usn.Base.{not_positive, exceeded_commission}
use usn.Base.Maps.{AccountMap}
use usn.Near.{Env, Promise}
use usn.Event.{Event}
use usn.Ft.{FungibleTokenFreeStorage, internal_deposit, internal_withdraw}
use usn.Ft.Ledger.{Credited-of_ok, Debited-of_ok}
use usn.Ft.Books.{Booked}
use usn.Liquidity.Books.{transfer_tokens-Booked}
use usn.Stable.Invariant
use usn.Contract.{Contract, Outcome, assert_owner}
use usn.Contract.Invariant.{IsValid, Keeps, with_token}
use usn.Treasury.{take_commissions, transfer_commission, v1_parts, treasury, commission}
use usn.Treasury.Commissions.{take_commissions-IsValid}
use usn.Pool.{from_config_with_assert, extend_all}
use usn.Liquidity.{transfer_tokens, handle_start_transferring}
use usn.Base.Maps.{length}
use usn.Removal.{finish_removing_with_burn}

abbrev IsKept : {A : Type 0} → Outcome A → Type 0
IsKept o = IsValid o.0

module _ (env : Env) (c : Contract) (v : IsValid c) where
  pub handle_start_transferring-Keeps :
      (pool_id whole : ℕ) (deposits : AccountMap ℕ)
      → Keeps (handle_start_transferring env pool_id whole deposits c)
  unfolding handle_start_transferring
  handle_start_transferring-Keeps pool_id whole deposits =
      Ensures-bind IsKept (from_config_with_assert env.network pool_id) _ λ pool _.
        Ensures-bind IsKept (extend_all whole pool.tokens pool.decimals) _ λ amounts _.
          Ensures-bind IsKept (transfer_tokens env pool.ref_id deposits amounts c.token none) _
            λ (t, e, ps) h. Ensures-bind IsKept (sub_checked (length pool.tokens) 1) _ λ owed _.
              Ensures-bind IsKept (sub_checked env.attached_deposit owed) _ λ attached _.
                with_token v
                  (Ensures-of_ok
                    (λ (o : FungibleTokenFreeStorage × List Event × Option Promise).
                      Booked c.token o.0 o.1)
                    _ (transfer_tokens-Booked env pool.ref_id deposits amounts c.token none v.token)
                    h).0

  pub finish_removing_with_burn-Keeps : (a : ℕ) → Keeps (finish_removing_with_burn env a c)
  unfolding finish_removing_with_burn
  finish_removing_with_burn-Keeps a = elim (Bool-cases env.is_promise_success) [
    | inl success ↦ rw success (
        Ensures-bind IsKept (internal_withdraw env.current_account_id a c.token) _
          λ t h. with_token v (Debited-of_ok env.current_account_id a c.token v.token h).valid)
    | inr failed ↦ rw failed v
  ]

  pub transfer_commission-Keeps :
      (a : AccountId) (amount : ℕ) → Keeps (transfer_commission env a amount c)
  unfolding transfer_commission
  transfer_commission-Keeps a amount = Ensures-bind IsKept (assert_owner env c) _ λ _ _.
      Ensures-bind IsKept (require (ltb 0 amount) not_positive) _ λ _ _.
        Ensures-bind IsKept (v1_parts c.commission amount) _ λ (usn, near) _.
          Ensures-bind IsKept (sub_checked amount usn) _ λ usn_v2 _.
            Ensures-bind IsKept (commission c) _ λ output _.
              Ensures-bind IsKept (require (leb usn_v2 output.v2_usn) exceeded_commission) _ λ _ _.
                Ensures-bind IsKept (sub_checked c.commission.usn usn) _ λ usn_left _.
                  Ensures-bind IsKept (sub_checked c.commission.near near) _ λ near_left _.
                    Ensures-bind IsKept (take_commissions usn_v2 (treasury c) c.stable_treasury) _
                      λ s taken.
                        Ensures-bind IsKept (internal_deposit a amount c.token) _ λ t minted.
                          record {
                            token = (Credited-of_ok a amount c.token v.token minted).valid;
                            treasury =
                                Ensures-of_ok Invariant.IsValid _
                                  (take_commissions-IsValid usn_v2 (treasury c) c.stable_treasury
                                    v.treasury)
                                  taken;
                            described = v.described;
                          }
