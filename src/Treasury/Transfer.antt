-- ===== src/Treasury/Transfer.antt =====
-- `transfer_commission` of src/lib.rs: its parts of v1 and v2, and its effect on the state.
use usn.Base.{
  ℕ, ◌+◌, ◌-◌, ◌*◌, ◌/◌, ◌≤◌, ◌<◌, min, ◌≡◌, refl, ap, arith, AccountId, same_account_refl, lt→ltb,
  le→leb, not_lt→ltb, lt→leb, ok, err, Returns, Returns-ok, u128_bound, u256_bound, fit_within,
  sub_checked_within,
}
use native.Mathlib.Nat.{div-le_of_le-mul}
use native.Mathlib.Decide.{dec_lt}
use usn.Base.{exceeded_commission}
use usn.Near.{Env}
use usn.Ft.Ledger.{Credited, internal_deposit-Credited}
use usn.Stable.Fees.{total_commission}
use usn.Contract.{Contract, CommissionV1, assert_owner}
use usn.Contract.Invariant.{IsValid}
use usn.Treasury.{v1_parts, commission, treasury, transfer_commission}
use usn.Treasury.Commissions.{Taken, take_commissions-Taken, Agrees-self, sum_commissions_within}

-- The parts of v1: USN first and in full, NEAR in proportion and rounded down.
pub record Parts (v1 : CommissionV1) (amount usn near : ℕ) : Type 0 where
  pub usn_part : usn ≡ min amount v1.usn
  pub near_low : near ≤ v1.near
  pub near_full : v1.usn ≤ amount → near ≡ v1.near
  pub near_part : amount < v1.usn → near ≡ v1.near * amount / v1.usn

near_part-le : (near amount usn : ℕ) → amount < usn → near * amount / usn ≤ near
near_part-le near amount usn h =
    let low : near * amount ≤ usn * near = grind arith in div-le_of_le-mul usn low

-- With both numbers in 128 bits the parts are computed without a panic.
pub v1_parts-Parts :
    (v1 : CommissionV1) (amount : ℕ)
    → v1.near < u128_bound
    → amount < u128_bound
    → Returns (λ p. Parts v1 amount p.0 p.1) (v1_parts v1 amount)
unfolding v1_parts
v1_parts-Parts v1 amount hn ha = elim (dec_lt amount v1.usn) [
  | yes less ↦
      let low = near_part-le v1.near amount v1.usn less in
      rw
        (
          lt→ltb amount v1.usn less,
          fit_within u256_bound (v1.near * amount) (grind arith),
          fit_within u128_bound (v1.near * amount / v1.usn) (omega arith),
        )
        (record {
          usn_part = omega arith;
          near_low = low;
          near_full = λ more. absurd (omega arith);
          near_part = λ _. refl;
        })
  | no more ↦ rw (not_lt→ltb amount v1.usn more) (record {
    usn_part = omega arith;
    near_low = omega arith;
    near_full = λ _. refl;
    near_part = λ less. absurd (more less);
  })
]

-- What a transfer of commission that returned has done.
pub record Transferred (account : AccountId) (amount : ℕ) (c c' : Contract) : Type 0 where
  pub valid : IsValid c'
  pub paid :
      c'.commission.usn + total_commission c'.stable_treasury + amount
      ≡ c.commission.usn + total_commission c.stable_treasury
  pub v1_first : c'.commission.usn ≡ c.commission.usn - amount
  pub near_low : c'.commission.near ≤ c.commission.near
  pub near_gone : c.commission.usn ≤ amount → c'.commission.near ≡ 0
  pub credited : Credited account amount c.token c'.token

commission_within :
    (c : Contract)
    → total_commission c.stable_treasury < u128_bound
    → commission c ≡ ok (record { v1 = c.commission; v2_usn = total_commission c.stable_treasury })
unfolding commission
commission_within c h =
    rw (sum_commissions_within 0 (treasury c) (omega arith))
      (ap (λ n. ok (record { v1 = c.commission; v2_usn = n })) (omega arith))

module _ (env : Env) (account : AccountId) (amount : ℕ) (c : Contract) (v : IsValid c) where
  -- The owner can transfer any positive amount that the commissions of v1 and v2 cover, where the
  -- state is valid and the NEAR of v1, the total of v2 and the new supply fit 128 bits: the account
  -- and the supply gain exactly the amount, the two commissions in USN together lose exactly the
  -- amount, v1 first, the NEAR of v1 does not grow and is all gone when the USN of v1 is, and the
  -- state stays valid.
  pub transfer_commission-Transferred :
      env.predecessor_account_id ≡ c.owner_id
      → 0 < amount
      → amount ≤ c.commission.usn + total_commission c.stable_treasury
      → c.commission.near < u128_bound
      → total_commission c.stable_treasury < u128_bound
      → c.token.total_supply + amount < u128_bound
      → Returns (λ o. Transferred account amount c o.0) (transfer_commission env account amount c)
  unfolding transfer_commission assert_owner
  transfer_commission-Transferred owner pos cover near total supply =
      let ((usn, near_part), parts_is, p) =
        Returns-ok (λ p. Parts c.commission amount p.0 p.1) _
          (v1_parts-Parts c.commission amount near (omega arith)) in
      let (s', taken_is, taken) = Returns-ok (Taken (amount - usn) c.stable_treasury) _ (
        take_commissions-Taken (amount - usn) (treasury c) c.stable_treasury v.treasury
          v.treasury.distinct (Agrees-self (treasury c) v.treasury.distinct)
          (omega (arith, p.usn_part))) in
      let (t', minted, credited) =
        Returns-ok (Credited account amount c.token) _
          (internal_deposit-Credited account amount c.token v.token supply) in
      rw
        (
          owner,
          same_account_refl c.owner_id,
          lt→ltb 0 amount pos,
          parts_is,
          sub_checked_within amount usn (omega (arith, p.usn_part)),
          commission_within c total,
          le→leb (amount - usn) (total_commission c.stable_treasury) (omega (arith, p.usn_part)),
          sub_checked_within c.commission.usn usn (omega (arith, p.usn_part)),
          sub_checked_within c.commission.near near_part p.near_low,
          taken_is,
          minted,
        )
        (record {
          valid = record { token = credited.valid; treasury = taken.0; described = v.described };
          paid = omega (arith, p.usn_part, taken.1);
          v1_first = omega (arith, p.usn_part);
          near_low = omega arith;
          near_gone = λ all. omega (arith, p.near_full all);
          credited = credited;
        })

  -- In a valid state where the NEAR of v1 fits 128 bits, a 128-bit amount that the commissions of
  -- v1 and v2 do not cover is refused to the owner for that reason.
  pub transfer_commission_exceeded :
      env.predecessor_account_id ≡ c.owner_id
      → c.commission.usn + total_commission c.stable_treasury < amount
      → amount < u128_bound
      → c.commission.near < u128_bound
      → transfer_commission env account amount c ≡ err exceeded_commission
  unfolding transfer_commission assert_owner
  transfer_commission_exceeded owner more low near =
      let ((usn, near_part), parts_is, p) =
        Returns-ok (λ p. Parts c.commission amount p.0 p.1) _
          (v1_parts-Parts c.commission amount near low) in
      rw (
        owner,
        same_account_refl c.owner_id,
        lt→ltb 0 amount (omega arith),
        parts_is,
        sub_checked_within amount usn (omega (arith, p.usn_part)),
        commission_within c (omega arith),
        lt→leb (amount - usn) (total_commission c.stable_treasury) (omega (arith, p.usn_part)),
      )
