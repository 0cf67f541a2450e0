-- ===== src/Library/Indexes.antt =====
-- src/library/structs/reserve_indexes_and_fees.rs.
pub mod Growth
use abacus_protocol.Base.{
  ℕ, not, ◌&&◌, Result, ok, ok_or, ◌>>=◌, ◌==◌, if◌then◌else◌, checked_add, checked_sub, u128_mod,
}
use abacus_protocol.Errors.{MathError, overflow, underflow}
use abacus_protocol.Library.MulDiv.{Pendzl}
use abacus_protocol.Library.Math.{
  e18, e18_mul_e0_to_e18, e18_mul_e18_to_e18_rdown, e18_mul_e18_to_e18_rup,
}
use abacus_protocol.Library.Reserve.{ReserveData}

pub record ReserveFees : Type 0 where
  pub deposit_fee_e6 : ℕ
  pub debt_fee_e6 : ℕ
  pub earned_fee : ℕ

-- `ReserveFees::new`
abbrev pub new_fees : ℕ → ℕ → ReserveFees
new_fees deposit_fee debt_fee = record {
  deposit_fee_e6 = deposit_fee;
  debt_fee_e6 = debt_fee;
  earned_fee = 0;
}

unfoldable pub increase_earned_fee : ReserveFees → ℕ → Result MathError ReserveFees
increase_earned_fee f amount = do
  earned ← ok_or (checked_add u128_mod f.earned_fee amount) overflow
  ok (record f { earned_fee = earned })

-- The fees left, and what is taken.
unfoldable pub take_earned_fee : ReserveFees → ReserveFees × ℕ
take_earned_fee f = (record f { earned_fee = 0 }, f.earned_fee)

pub record ReserveIndexes : Type 0 where
  pub deposit_index_e18 : ℕ
  pub debt_index_e18 : ℕ
  pub update_timestamp : ℕ

-- `ReserveIndexes::new`
abbrev pub new_indexes : ℕ → ReserveIndexes
new_indexes timestamp = record {
  deposit_index_e18 = e18;
  debt_index_e18 = e18;
  update_timestamp = timestamp;
}

pub record ReserveIndexesAndFees : Type 0 where
  pub indexes : ReserveIndexes
  pub fees : ReserveFees

-- `ReserveIndexesAndFees::new`
abbrev pub new_indexes_and_fees : ℕ → ReserveFees → ReserveIndexesAndFees
new_indexes_and_fees timestamp fees = record { indexes = new_indexes timestamp; fees = fees }

module _ ⦃p : Pendzl⦄ where
  -- The deposit index after `delta` milliseconds at the current rate.
  unfoldable pub grown_deposit_index : ReserveIndexes → ReserveData → ℕ → Result MathError ℕ
  grown_deposit_index x r delta =
      if not (r.current_deposit_rate_e18 == 0) && not (r.total_deposit == 0)
      then (do
        growth ← e18_mul_e0_to_e18 r.current_deposit_rate_e18 delta
        multiplier ← ok_or (checked_add u128_mod e18 growth) overflow
        e18_mul_e18_to_e18_rdown x.deposit_index_e18 multiplier)
      else ok x.deposit_index_e18

  unfoldable pub grown_debt_index : ReserveIndexes → ReserveData → ℕ → Result MathError ℕ
  grown_debt_index x r delta =
      if not (r.current_debt_rate_e18 == 0) && not (r.total_debt == 0)
      then (do
        growth ← e18_mul_e0_to_e18 r.current_debt_rate_e18 delta
        multiplier ← ok_or (checked_add u128_mod e18 growth) overflow
        e18_mul_e18_to_e18_rup x.debt_index_e18 multiplier)
      else ok x.debt_index_e18

  -- `ReserveIndexes::update`
  unfoldable pub update : ReserveIndexes → ReserveData → ℕ → Result MathError ReserveIndexes
  update x r timestamp = do
    delta ← ok_or (checked_sub timestamp x.update_timestamp) underflow
    (if delta == 0 then ok x else (do
      deposit_index ← grown_deposit_index x r delta
      debt_index ← grown_debt_index x r delta
      ok (record {
        deposit_index_e18 = deposit_index;
        debt_index_e18 = debt_index;
        update_timestamp = timestamp;
      })))
