-- ===== src/Removal/Shares.antt =====
-- The shares that src/treasury/withdraw_stable_pool.rs takes out of the pool.
use usn.Base.{ℕ, ◌*◌, ◌/◌, ◌≤◌, ◌<◌, ◌≡◌, refl, arith, Returns, fit_within, u128_bound, u256_bound}
use usn.Removal.{shares_to_remove}

-- At most 100 percent of a 128-bit number of shares is computed without a panic, rounded down, and
-- is never more than the shares.
pub shares_to_remove-le :
    (shares percent : ℕ)
    → shares < u128_bound
    → percent ≤ 100
    → Returns (λ n. (n ≡ shares * percent / 100) × (n ≤ shares)) (shares_to_remove shares percent)
unfolding shares_to_remove
shares_to_remove-le shares percent low most =
    let product : shares * percent ≤ shares * 100 = grind arith in
    rw
      (
        fit_within u256_bound (shares * percent) (omega arith),
        fit_within u128_bound (shares * percent / 100) (omega arith),
      )
      (refl, omega arith)
