-- ===== src/Library/Reserve.antt =====
-- src/library/structs/reserve_data.rs.
pub mod Rates
use abacus_protocol.Base.{
  ℕ, Bool, true, false, not, Result, ok, ok_or, ◌>>=◌, ◌>>◌, refuse_if, ◌==◌, if◌then◌else◌,
  checked_add, checked_sub, try_from, u32_mod, u128_mod,
}
use abacus_protocol.Errors.{MathError, overflow, underflow, ReserveDataError, already_set, inactive}
use abacus_protocol.Errors
use abacus_protocol.Library.MulDiv.{Pendzl, down}
use abacus_protocol.Library.Math.{e6, e18_mul_e18_div_e18_to_e18_rdown}
use abacus_protocol.Library.InterestRate.{InterestRateModel, utilization_rate_to_interest_rate_e18}

pub record ReserveData : Type 0 where
  pub activated : Bool
  pub frozen : Bool
  pub total_deposit : ℕ
  pub current_deposit_rate_e18 : ℕ
  pub total_debt : ℕ
  pub current_debt_rate_e18 : ℕ

-- `ReserveData::default`
abbrev pub default_reserve : ReserveData
default_reserve = record {
  activated = true;
  frozen = false;
  total_deposit = 0;
  current_deposit_rate_e18 = 0;
  total_debt = 0;
  current_debt_rate_e18 = 0;
}

infix 50 ◌==b◌
abbrev ◌==b◌ : Bool → Bool → Bool
true ==b b = b
false ==b b = not b

unfoldable pub set_is_active : ReserveData → Bool → Result ReserveDataError ReserveData
set_is_active r active = do
  refuse_if (r.activated ==b active) already_set
  ok (record r { activated = active })

unfoldable pub ensure_activated : ReserveData → Result ReserveDataError (Unit {0})
ensure_activated r = refuse_if (not r.activated) inactive

-- The field that is written is `activated`, as in the source.
unfoldable pub set_is_frozen : ReserveData → Bool → Result ReserveDataError ReserveData
set_is_frozen r freeze = do
  refuse_if (r.frozen ==b freeze) already_set
  ok (record r { activated = freeze })

unfoldable pub ensure_not_frozen : ReserveData → Result ReserveDataError (Unit {0})
ensure_not_frozen r = refuse_if r.frozen Errors.ReserveDataError.frozen

unfoldable pub increase_total_deposit : ReserveData → ℕ → Result MathError ReserveData
increase_total_deposit r amount = do
  total ← ok_or (checked_add u128_mod r.total_deposit amount) overflow
  ok (record r { total_deposit = total })

unfoldable pub decrease_total_deposit : ReserveData → ℕ → Result MathError ReserveData
decrease_total_deposit r amount = do
  total ← ok_or (checked_sub r.total_deposit amount) underflow
  ok (record r { total_deposit = total })

unfoldable pub increase_total_debt : ReserveData → ℕ → Result MathError ReserveData
increase_total_debt r amount = do
  total ← ok_or (checked_add u128_mod r.total_debt amount) overflow
  ok (record r { total_debt = total })

unfoldable pub decrease_total_debt : ReserveData → ℕ → Result MathError ReserveData
decrease_total_debt r amount = do
  total ← ok_or (checked_sub r.total_debt amount) underflow
  ok (record r { total_debt = total })

-- The interests are handed on unchanged.
unfoldable pub add_interests : ReserveData → ℕ × ℕ → Result MathError (ReserveData × (ℕ × ℕ))
unfolding increase_total_deposit increase_total_debt
add_interests r interests = do
  r' ← increase_total_deposit r interests.0
  r'' ← increase_total_debt r' interests.1
  ok (r'', interests)

module _ ⦃p : Pendzl⦄ where
  unfoldable pub current_utilization_rate_e6 : ReserveData → Result MathError ℕ
  current_utilization_rate_e6 r = if r.total_deposit == 0 then ok e6 else (do
    v ← p.mul_div r.total_debt e6 r.total_deposit down
    ok_or (try_from u32_mod v) overflow)

  unfoldable pub recalculate_current_rates :
      ReserveData → InterestRateModel → Result MathError ReserveData
  recalculate_current_rates r model =
      if r.total_debt == 0
      then ok (record r { current_debt_rate_e18 = 0; current_deposit_rate_e18 = 0 })
      else (do
        utilization_rate_e6 ← current_utilization_rate_e6 r
        debt_rate ← utilization_rate_to_interest_rate_e18 utilization_rate_e6 model
        deposit_rate ←
            (if not (r.total_deposit == 0)
              then e18_mul_e18_div_e18_to_e18_rdown r.total_debt debt_rate r.total_deposit
              else ok 0)
        ok (record r {
          current_debt_rate_e18 = debt_rate;
          current_deposit_rate_e18 = deposit_rate;
        }))
