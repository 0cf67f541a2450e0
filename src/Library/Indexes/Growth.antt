-- ===== src/Library/Indexes/Growth.antt =====
-- The indexes of a reserve over time (`ReserveIndexes::update`).
use native.Mathlib.Nat.{mul-le-mul_left}
use abacus_protocol.Base.{ℕ, ◌+◌, ◌-◌, ◌*◌, ◌≤◌, ◌≡◌, arith, ok}
use abacus_protocol.Library.MulDiv.{Pendzl, IsMulDiv, down_lem, up_lem}
use abacus_protocol.Library.Math.{
  e18, e18_mul_e0_to_e18, e18_mul_e18_to_e18_rdown, e18_mul_e18_to_e18_rup,
}
use abacus_protocol.Library.Reserve.{ReserveData}
use abacus_protocol.Library.InterestRate.Curve.{le_of_mul-lt}
use abacus_protocol.Library.Indexes.{ReserveIndexes, grown_deposit_index, grown_debt_index, update}

module _ ⦃p : Pendzl⦄ (laws : IsMulDiv p) where
  rdown_mono : (a g : ℕ) {q : ℕ} → e18_mul_e18_to_e18_rdown a (e18 + g) ≡ ok q → a ≤ q
  unfolding e18_mul_e18_to_e18_rdown
  rdown_mono a g {q} h =
      let mono = mul-le-mul_left a (let m : e18 ≤ e18 + g = omega arith in m) in
      ground (arith, down_lem laws a (e18 + g) e18, le_of_mul-lt e18 {a = a} {b = q})

  rup_mono : (a g : ℕ) {q : ℕ} → e18_mul_e18_to_e18_rup a (e18 + g) ≡ ok q → a ≤ q
  unfolding e18_mul_e18_to_e18_rup
  rup_mono a g {q} h =
      let mono = mul-le-mul_left a (let m : e18 ≤ e18 + g = omega arith in m) in
      ground (arith, up_lem laws a (e18 + g) e18, le_of_mul-lt e18 {a = a} {b = q})

  grown_deposit_index_mono :
      (x : ReserveIndexes) (r : ReserveData) (delta : ℕ) {q : ℕ}
      → grown_deposit_index x r delta ≡ ok q
      → x.deposit_index_e18 ≤ q
  unfolding grown_deposit_index e18_mul_e0_to_e18
  grown_deposit_index_mono x r delta {q} h =
      ground (arith, rdown_mono x.deposit_index_e18 (r.current_deposit_rate_e18 * delta) {q = q})

  grown_debt_index_mono :
      (x : ReserveIndexes) (r : ReserveData) (delta : ℕ) {q : ℕ}
      → grown_debt_index x r delta ≡ ok q
      → x.debt_index_e18 ≤ q
  unfolding grown_debt_index e18_mul_e0_to_e18
  grown_debt_index_mono x r delta {q} h =
      ground (arith, rup_mono x.debt_index_e18 (r.current_debt_rate_e18 * delta) {q = q})

  -- A successful update of the indexes is not made backwards in time, stamps the time, and lowers
  -- neither index.
  pub update_mono :
      (x : ReserveIndexes) (r : ReserveData) (now : ℕ) {y : ReserveIndexes}
      → update x r now ≡ ok y
      → (x.update_timestamp ≤ now)
        × (y.update_timestamp ≡ now)
        × (x.deposit_index_e18 ≤ y.deposit_index_e18)
        × (x.debt_index_e18 ≤ y.debt_index_e18)
  unfolding update
  update_mono x r now {y} h = ground (
    arith,
    grown_deposit_index_mono x r (now - x.update_timestamp) {q = y.deposit_index_e18},
    grown_debt_index_mono x r (now - x.update_timestamp) {q = y.debt_index_e18},
  )
