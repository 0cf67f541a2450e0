-- ===== src/Library/InterestRate.antt =====
-- src/library/math/interest_rate_math.rs and src/library/structs/interest_rate_model.rs.
pub mod Curve
pub mod Adjust
use abacus_protocol.Base.{
  ℕ, ◌+◌, Result, ok, ok_or, ◌>>=◌, ltb, leb, ◌==◌, if◌then◌else◌, checked_add, try_from,
  saturating_sub, u32_mod, u64_mod,
}
use abacus_protocol.Errors.{MathError, overflow}
use abacus_protocol.Library.MulDiv.{Pendzl, up}
use abacus_protocol.Library.Math.{e6}

pub record InterestRateModelParams : Type 0 where
  pub target_ur_e6 : ℕ
  pub min_rate_at_target_e18 : ℕ
  pub max_rate_at_target_e18 : ℕ
  pub rate_at_max_ur_e18 : ℕ
  pub minimal_time_between_adjustments : ℕ

pub record InterestRateModel : Type 0 where
  pub target_ur_e6 : ℕ
  pub min_rate_at_target_e18 : ℕ
  pub max_rate_at_target_e18 : ℕ
  pub rate_at_target_ur_e18 : ℕ
  pub rate_at_max_ur_e18 : ℕ
  pub minimal_time_between_adjustments : ℕ
  pub last_adjustment_timestamp : ℕ

-- `InterestRateModel::new`
unfoldable pub new_model : InterestRateModelParams → ℕ → InterestRateModel
new_model params timestamp = record {
  target_ur_e6 = params.target_ur_e6;
  min_rate_at_target_e18 = params.min_rate_at_target_e18;
  max_rate_at_target_e18 = params.max_rate_at_target_e18;
  rate_at_target_ur_e18 = params.min_rate_at_target_e18;
  rate_at_max_ur_e18 = params.rate_at_max_ur_e18;
  minimal_time_between_adjustments = params.minimal_time_between_adjustments;
  last_adjustment_timestamp = timestamp;
}

module _ ⦃p : Pendzl⦄ where
  -- Linear up to the target, and linear with another slope above it.
  unfoldable pub utilization_rate_to_interest_rate_e18 : ℕ → InterestRateModel → Result MathError ℕ
  utilization_rate_to_interest_rate_e18 ur_e6 model =
      if ur_e6 == 0
      then ok 0
      else if leb ur_e6 model.target_ur_e6
      then (do
        v ← p.mul_div ur_e6 model.rate_at_target_ur_e18 model.target_ur_e6 up
        ok_or (try_from u32_mod v) overflow)
      else (do
        let distance_from_target = saturating_sub ur_e6 model.target_ur_e6
        let max_distance_from_target = saturating_sub e6 model.target_ur_e6
        let interest_step = saturating_sub model.rate_at_max_ur_e18 model.rate_at_target_ur_e18
        v ← p.mul_div distance_from_target interest_step max_distance_from_target up
        step ← ok_or (try_from u32_mod v) overflow
        ok_or (checked_add u64_mod model.rate_at_target_ur_e18 step) overflow)

  -- The new model and the rate that is returned.
  unfoldable pub adjust_rate_at_target :
      InterestRateModel → ℕ → ℕ → Result MathError (InterestRateModel × ℕ)
  adjust_rate_at_target model ur_e6 timestamp = do
    current_rate_e18 ← utilization_rate_to_interest_rate_e18 ur_e6 model
    let rate =
        if ltb current_rate_e18 model.min_rate_at_target_e18
        then model.min_rate_at_target_e18
        else if ltb model.max_rate_at_target_e18 current_rate_e18
        then model.max_rate_at_target_e18
        else current_rate_e18
    ok (record model { rate_at_target_ur_e18 = rate; last_adjustment_timestamp = timestamp }, rate)
