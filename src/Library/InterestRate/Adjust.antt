-- ===== src/Library/InterestRate/Adjust.antt =====
-- When a rate is computed, the anchors of the curve, and the adjustment of the rate at the target
-- (src/library/math/interest_rate_math.rs, src/library/structs/interest_rate_model.rs).
use native.Mathlib.Nat.{mul-le-mul_right}
use abacus_protocol.Base.{
  ℕ, ◌-◌, ◌≤◌, ◌<◌, ◌≡◌, ◌∙◌, ap, arith, ok, inl, inr, is_ok, is_ok-value, u32_mod, Bool-cases, leb,
  true,
}
use abacus_protocol.Library.MulDiv.{Pendzl, IsMulDiv, up_total}
use abacus_protocol.Library.Math.{e6}
use abacus_protocol.Library.InterestRate.{
  InterestRateModel, utilization_rate_to_interest_rate_e18, adjust_rate_at_target,
}
use abacus_protocol.Library.InterestRate.Curve.{rate-OnCurve, le_of_mul-lt}

-- The rates rise along the curve, and the top one fits 32 bits.
pub record IsCurve (m : InterestRateModel) : Type 0 where
  pub target_positive : 0 < m.target_ur_e6
  pub target_below_full : m.target_ur_e6 < e6
  pub rates_rise : m.rate_at_target_ur_e18 ≤ m.rate_at_max_ur_e18
  pub top_fits : m.rate_at_max_ur_e18 < u32_mod

module _ ⦃p : Pendzl⦄ (laws : IsMulDiv p) where
  rate-is_ok :
      (u : ℕ) (m : InterestRateModel)
      → IsCurve m
      → u ≤ e6
      → is_ok (utilization_rate_to_interest_rate_e18 u m) ≡ true
  unfolding utilization_rate_to_interest_rate_e18
  rate-is_ok u m c le = elim (Bool-cases (leb u m.target_ur_e6)) [
    | inl below ↦
        let a = m.rate_at_target_ur_e18 in
        let t = m.target_ur_e6 in
        let within : u ≤ t = ground arith in
        let mono = mul-le-mul_right a within in
        let (q, e, bound) = up_total laws u a t a c.target_positive (omega arith) (omega arith) in
        ground arith
    | inr above ↦
        let t = m.target_ur_e6 in
        let d = m.rate_at_max_ur_e18 - m.rate_at_target_ur_e18 in
        let mono = mul-le-mul_right d (let h : u - t ≤ e6 - t = omega arith in h) in
        let (q, e, bound) =
          up_total laws (u - t) d (e6 - t) d (omega arith) (omega arith) (omega arith) in
        ground arith
  ]

  -- On a curve with rising rates, a target strictly between 0 and 100% and a top rate within 32
  -- bits, a rate is computed for every utilization rate of at most 100%.
  pub rate_total :
      (u : ℕ) (m : InterestRateModel)
      → IsCurve m
      → u ≤ e6
      → (r : ℕ) × (utilization_rate_to_interest_rate_e18 u m ≡ ok r)
  rate_total u m c le =
      is_ok-value (utilization_rate_to_interest_rate_e18 u m) (rate-is_ok u m c le)

  -- On a curve with rising rates, a target strictly between 0 and 100% and a top rate within 32
  -- bits, the rate is 0 at no utilization, the rate at the target at the target, and the rate at
  -- full utilization at full utilization.
  pub rate_anchors :
      (m : InterestRateModel)
      → IsCurve m
      → (utilization_rate_to_interest_rate_e18 0 m ≡ ok 0)
        × (utilization_rate_to_interest_rate_e18 m.target_ur_e6 m ≡ ok m.rate_at_target_ur_e18)
        × (utilization_rate_to_interest_rate_e18 e6 m ≡ ok m.rate_at_max_ur_e18)
  rate_anchors m c =
      let t = m.target_ur_e6 in
      let a = m.rate_at_target_ur_e18 in
      let d = m.rate_at_max_ur_e18 - a in
      let (z, ez) = rate_total 0 m c (omega arith) in
      let (r, er) = rate_total t m c (omega arith) in
      let (s, es) = rate_total e6 m c (omega arith) in
      let zero_rate : z ≡ 0 = ground (arith, rate-OnCurve laws 0 m ez) in
      let at_target : r ≡ a = ground (
        arith,
        rate-OnCurve laws t m er,
        le_of_mul-lt t {a = r} {b = a},
        le_of_mul-lt t {a = a} {b = r},
      ) in
      let at_full : s ≡ m.rate_at_max_ur_e18 = ground (
        arith,
        rate-OnCurve laws e6 m es,
        le_of_mul-lt (e6 - t) {a = s - a} {b = d},
        le_of_mul-lt (e6 - t) {a = d} {b = s - a},
      ) in
      (ez ∙ ap ok zero_rate, er ∙ ap ok at_target, es ∙ ap ok at_full)

  -- A successful adjustment of a model whose bounds are in order keeps the rate at the target
  -- within them, stamps the time, returns the rate that it stores, and changes nothing else of
  -- the model.
  pub adjust_rate_at_target_lem :
      (m : InterestRateModel) (u now : ℕ) {m' : InterestRateModel} {r : ℕ}
      → m.min_rate_at_target_e18 ≤ m.max_rate_at_target_e18
      → adjust_rate_at_target m u now ≡ ok (m', r)
      → (m.min_rate_at_target_e18 ≤ r)
        × (r ≤ m.max_rate_at_target_e18)
        × (m' ≡ record m { rate_at_target_ur_e18 = r; last_adjustment_timestamp = now })
  unfolding adjust_rate_at_target
  adjust_rate_at_target_lem m u now order h = ground arith
