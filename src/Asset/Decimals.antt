-- ===== src/Asset/Decimals.antt =====
-- The conversion between decimals of src/stable.rs: what a conversion there and back gives.
use usn.Base.{
  ℕ, zero, suc, ◌+◌, ◌-◌, ◌*◌, ◌/◌, ◌^◌, ◌≤◌, ◌<◌, ◌≡◌, sym, ap, ◌∙◌, arith, lt→ltb, not_lt→ltb, ok,
  Returns, steps-ok, ok-injective, u128_bound, mul_u128, pow10, fit-ok, fit_within,
}
use native.Mathlib.Decide.{dec_lt}
use native.Mathlib.Nat.{pow-suc, div-mul-le_self, lt-div-mul-add, div-le_of_le-mul, le_trans}
use usn.Asset.{convert_decimals}

pow10_pos : (n : ℕ) → 0 < 10 ^ n
pow10_pos zero = omega arith
pow10_pos (suc n) = rw pow-suc (omega (arith, pow10_pos n))

mul_div_self : (a p : ℕ) → 0 < p → a * p / p ≡ a
mul_div_self a p h = grind arith

module _ (a f t : ℕ) where
  -- The power of ten between the two decimals, as the code computes it.
  abbrev up_power : ℕ
  up_power = 10 ^ (t - f)

  abbrev down_power : ℕ
  down_power = 10 ^ (f - t)

  convert_up :
      f < t
      → up_power < u128_bound
      → a * up_power < u128_bound
      → convert_decimals a f t ≡ ok (a * up_power)
  unfolding convert_decimals
  convert_up h p q = rw (lt→ltb f t h, fit_within u128_bound up_power p, lt→ltb _ _ q)

  convert_down : t < f → down_power < u128_bound → convert_decimals a f t ≡ ok (a / down_power)
  unfolding convert_decimals
  convert_down h p =
      rw (not_lt→ltb f t (omega arith), lt→ltb t f h, fit_within u128_bound down_power p)

  convert_same : f ≡ t → convert_decimals a f t ≡ ok a
  unfolding convert_decimals
  convert_same h = rw (not_lt→ltb f t (omega arith), not_lt→ltb t f (omega arith))

  module _ {b : ℕ} (e : convert_decimals a f t ≡ ok b) where
    up_ok : f < t → (b ≡ a * up_power) × (up_power < u128_bound) × (b < u128_bound)
    unfolding convert_decimals
    up_ok h =
        let (p, fits, e') = steps-ok (pow10 (t - f)) (mul_u128 a) (rw (lt→ltb f t h) at e) in
        let (p_is, p_low) = fit-ok u128_bound up_power fits in
        let (b_is, b_low) = fit-ok u128_bound (a * p) e' in (rw (← p_is) b_is, p_low, rw b_is b_low)

    down_ok : t < f → (b ≡ a / down_power) × (down_power < u128_bound)
    unfolding convert_decimals
    down_ok h =
        let (p, fits, e') =
          steps-ok (pow10 (f - t)) (λ p. ok (a / p))
            (rw (not_lt→ltb f t (omega arith), lt→ltb t f h) at e) in
        let (p_is, p_low) = fit-ok u128_bound down_power fits in
        (sym (ok-injective (rw p_is at e')), p_low)

-- A conversion to at least as many decimals that returns is undone by the conversion back.
pub convert_decimals_round_trip :
    (a f t : ℕ) {b : ℕ} → f ≤ t → convert_decimals a f t ≡ ok b → convert_decimals b t f ≡ ok a
convert_decimals_round_trip a f t {b} h e = elim (dec_lt f t) [
  | yes up ↦
      let (b_is, fits, _) = up_ok a f t e up in
      convert_down b t f up fits
      ∙ ap ok (rw b_is (mul_div_self a (10 ^ (t - f)) (pow10_pos (t - f))))
  | no level ↦
      let same : f ≡ t = omega arith in
      let b_is : a ≡ b = ok-injective (sym (convert_same a f t same) ∙ e) in
      rw (← b_is) (convert_same a t f (sym same))
]

-- After a conversion of a 128-bit amount to fewer decimals, the conversion back returns at most the
-- amount and loses less than one unit of the coarser amount.
pub convert_decimals_loss :
    (a f t : ℕ) {b : ℕ}
    → t < f
    → a < u128_bound
    → convert_decimals a f t ≡ ok b
    → Returns (λ c. (c ≤ a) × (a < c + 10 ^ (f - t))) (convert_decimals b t f)
convert_decimals_loss a f t {b} h low e =
    let (b_is, fits) = down_ok a f t e h in
    let back : a / 10 ^ (f - t) * 10 ^ (f - t) ≤ a = div-mul-le_self a (10 ^ (f - t)) in
    let c_low : b * 10 ^ (f - t) ≤ a = rw b_is back in
    rw (convert_up b t f h fits (omega arith)) (c_low, rw b_is (lt-div-mul-add (pow10_pos (f - t))))

-- Converting back no more than was gained by a conversion never gives more than went in.
pub convert_decimals_no_gain :
    (a f t r : ℕ) {b o : ℕ}
    → convert_decimals a f t ≡ ok b
    → r ≤ b
    → convert_decimals r t f ≡ ok o
    → o ≤ a
convert_decimals_no_gain a f t r {b} {o} there low back = elim (dec_lt f t) [
  | yes up ↦
      let (b_is, _, _) = up_ok a f t there up in
      let (o_is, _) = down_ok r t f back up in
      let r_low : r ≤ 10 ^ (t - f) * a = omega arith in
      rw o_is (div-le_of_le-mul (10 ^ (t - f)) r_low)
  | no not_up ↦ elim (dec_lt t f) [
    | yes down ↦
        let (b_is, _) = down_ok a f t there down in
        let (o_is, _, _) = up_ok r t f back down in
        let whole : a / 10 ^ (f - t) * 10 ^ (f - t) ≤ a = div-mul-le_self a (10 ^ (f - t)) in
        let r_low : r * 10 ^ (f - t) ≤ b * 10 ^ (f - t) = grind arith in
        rw o_is (le_trans r_low (rw b_is whole))
    | no not_down ↦
        let same : f ≡ t = omega arith in
        let b_is : a ≡ b = ok-injective (sym (convert_same a f t same) ∙ there) in
        let o_is : r ≡ o = ok-injective (sym (convert_same r t f (sym same)) ∙ back) in omega arith
  ]
]

-- To fewer decimals, or to as many, an amount of at least one unit of the coarser amount converts
-- to a positive amount.
pub convert_decimals_down :
    (a f t : ℕ)
    → t ≤ f
    → 10 ^ (f - t) ≤ a
    → a < u128_bound
    → Returns (λ c. 0 < c) (convert_decimals a f t)
convert_decimals_down a f t h unit low = elim (dec_lt t f) [
  | yes down ↦
      let p = pow10_pos (f - t) in
      let over : a < a / 10 ^ (f - t) * 10 ^ (f - t) + 10 ^ (f - t) = lt-div-mul-add p in
      rw (convert_down a f t down (omega arith)) (elim (dec_lt 0 (a / 10 ^ (f - t))) [
        | yes pos ↦ pos
        | no nothing ↦
            let none_left : a / 10 ^ (f - t) ≡ 0 = omega arith in
            absurd (omega (arith, (rw none_left at over)))
      ])
  | no level ↦
      let same : f ≡ t = omega arith in
      let positive : 1 ≤ 10 ^ (f - t) = pow10_pos (f - t) in
      rw (convert_same a f t same) (omega arith)
]
