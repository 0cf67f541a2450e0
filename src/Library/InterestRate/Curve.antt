-- ===== src/Library/InterestRate/Curve.antt =====
-- The shape of the interest rate curve of src/library/math/interest_rate_math.rs.
use native.Mathlib.Nat.{mul-le-mul_right, lt_of_mul-lt-mul_right}
use abacus_protocol.Base.{ℕ, ◌+◌, ◌-◌, ◌*◌, ◌≤◌, ◌<◌, ◌≡◌, ◌≢◌, ◌⊎◌, arith, ok}
use abacus_protocol.Library.MulDiv.{Pendzl, IsMulDiv, up_lem}
use abacus_protocol.Library.Math.{e6}
use abacus_protocol.Library.InterestRate.{InterestRateModel, utilization_rate_to_interest_rate_e18}

pub le_of_mul-lt : (c : ℕ) {a b : ℕ} → a * c < b * c + c → a ≤ b
le_of_mul-lt c {a} {b} h =
    let h' : a * c < (b + 1) * c = omega arith in
    let lt = lt_of_mul-lt-mul_right c h' in omega arith

ceil_mono : (c x y b r s : ℕ) → x ≤ y → r * c < x * b + c → y * b ≤ s * c → r ≤ s
ceil_mono c x y b r s le hr hs = let mono = mul-le-mul_right b le in le_of_mul-lt c (omega arith)

-- `q` is n / d, rounded up.
abbrev pub IsCeil : ℕ → ℕ → ℕ → Type 0
IsCeil n d q = (0 < d) × (n ≤ q * d) × (q * d < n + d)

-- The three pieces of the curve.
abbrev pub OnCurve : ℕ → InterestRateModel → ℕ → Type 0
OnCurve u m r =
    ((u ≡ 0) × (r ≡ 0))
    ⊎ ((u ≢ 0) × (u ≤ m.target_ur_e6) × IsCeil (u * m.rate_at_target_ur_e18) m.target_ur_e6 r)
    ⊎ ((u ≢ 0)
        × (m.target_ur_e6 < u)
        × (m.rate_at_target_ur_e18 ≤ r)
        × IsCeil ((u - m.target_ur_e6) * (m.rate_at_max_ur_e18 - m.rate_at_target_ur_e18))
            (e6 - m.target_ur_e6) (r - m.rate_at_target_ur_e18))

module _ ⦃p : Pendzl⦄ (laws : IsMulDiv p) where
  pub rate-OnCurve :
      (u : ℕ) (m : InterestRateModel) {r : ℕ}
      → utilization_rate_to_interest_rate_e18 u m ≡ ok r
      → OnCurve u m r
  unfolding utilization_rate_to_interest_rate_e18
  rate-OnCurve u m h = ground (
    arith,
    up_lem laws u m.rate_at_target_ur_e18 m.target_ur_e6,
    up_lem laws (u - m.target_ur_e6) (m.rate_at_max_ur_e18 - m.rate_at_target_ur_e18)
        (e6 - m.target_ur_e6),
  )

  -- Up to the target the rate does not exceed the rate at the target.
  pub rate_below_target :
      (u : ℕ) (m : InterestRateModel) {r : ℕ}
      → u ≤ m.target_ur_e6
      → utilization_rate_to_interest_rate_e18 u m ≡ ok r
      → r ≤ m.rate_at_target_ur_e18
  rate_below_target u m {r} le h = ground (
    arith,
    rate-OnCurve u m h,
    ceil_mono m.target_ur_e6 u m.target_ur_e6 m.rate_at_target_ur_e18 r m.rate_at_target_ur_e18,
  )

  -- Between two utilization rates for which a rate is computed, the rate does not fall from the
  -- lower to the higher.
  pub rate_mono :
      (u v : ℕ) (m : InterestRateModel) {r s : ℕ}
      → u ≤ v
      → utilization_rate_to_interest_rate_e18 u m ≡ ok r
      → utilization_rate_to_interest_rate_e18 v m ≡ ok s
      → r ≤ s
  rate_mono u v m {r} {s} le hr hs =
      let t = m.target_ur_e6 in
      let a = m.rate_at_target_ur_e18 in
      ground (
        arith,
        rate-OnCurve u m hr,
        rate-OnCurve v m hs,
        ceil_mono t u v a r s,
        ceil_mono t u t a r a,
        ceil_mono (e6 - t) (u - t) (v - t) (m.rate_at_max_ur_e18 - a) (r - a) (s - a),
      )

  -- Up to full utilization, and where the rate at the target does not exceed it, the rate at full
  -- utilization is not exceeded.
  rate_le_max :
      (u : ℕ) (m : InterestRateModel) {r : ℕ}
      → u ≤ e6
      → m.rate_at_target_ur_e18 ≤ m.rate_at_max_ur_e18
      → utilization_rate_to_interest_rate_e18 u m ≡ ok r
      → r ≤ m.rate_at_max_ur_e18
  rate_le_max u m {r} le order h =
      let t = m.target_ur_e6 in
      let a = m.rate_at_target_ur_e18 in
      let d = m.rate_at_max_ur_e18 - a in
      ground (
        arith,
        rate-OnCurve u m h,
        ceil_mono t u t a r a,
        ceil_mono (e6 - t) (u - t) (e6 - t) d (r - a) d,
      )
