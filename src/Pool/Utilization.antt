-- ===== src/Pool/Utilization.antt =====
-- `get_tw_ur_from_shortest_period_longer_than` of storage/mod.rs, and `adjust_rate_at_target` of
-- src/contract_modules/lending_pool/implementation/maintain.rs, which rests on it.
pub mod Search
use abacus_protocol.Base.{
  ℕ, zero, suc, Option, none, some, Result, ok, err, ok_or, unwrap, ◌>>=◌, ◌>>◌, refuse_if, insert,
  ltb, leb, if◌then◌else◌, checked_add, checked_div, try_from, saturating_sub, wrapping_sub,
  u32_mod, u64_mod,
}
use abacus_protocol.Errors.{
  LendingPoolError, math_error, overflow, div_by_zero, tw_entry_invalid_index,
  too_early_to_adjust_rate, asset_not_registered, from_math,
}
use abacus_protocol.Library.MulDiv.{Pendzl}
use abacus_protocol.Library.InterestRate.{adjust_rate_at_target}
use abacus_protocol.Library.TimeWeighted.{TwEntry, next}
use abacus_protocol.Pool.Storage.{AccountId, LendingPoolStorage, asset_id}

-- The state of the search, or that the fuel ran out.
pub data Found : Type 0 where
  found : ℕ → Found
  out_of_fuel : Found

module _ (entries : ℕ → Option TwEntry) (last : TwEntry) (period : ℕ) where
  -- `while last - after(index) >= period { index = index.next(); after = entry(next) }`, where
  -- `after` is the entry that follows the index.
  unfoldable pub seek : ℕ → ℕ → TwEntry → Result LendingPoolError Found
  unfolding next
  seek zero index after = ok out_of_fuel
  seek (suc fuel) index after =
      let further = (do
        after' ← ok_or (entries (next (next index))) (tw_entry_invalid_index 1)
        seek fuel (next index) after') in
      if leb period (saturating_sub last.timestamp after.timestamp)
      then further
      else ok (found index)

  -- The mean utilization rate since the entry at an index.
  unfoldable pub mean_since : ℕ → Result LendingPoolError ℕ
  mean_since index = do
    entry ← ok_or (entries index) (tw_entry_invalid_index 2)
    let delta_timestamp = saturating_sub last.timestamp entry.timestamp
    refuse_if (ltb delta_timestamp period) (tw_entry_invalid_index 3)
    let delta_accumulator = wrapping_sub u64_mod last.accumulator entry.accumulator
    quotient ← ok_or (checked_div delta_accumulator delta_timestamp) (math_error div_by_zero)
    ok_or (try_from u32_mod quotient) (math_error overflow)

-- `ok none` where the loop outlasts the fuel.
unfoldable pub get_tw_ur_from_shortest_period_longer_than :
    LendingPoolStorage → ℕ → ℕ → ℕ → ℕ → Result LendingPoolError (Option ℕ)
unfolding seek mean_since next
get_tw_ur_from_shortest_period_longer_than s fuel period id guessed_index = do
  tw_index ← unwrap (s.tw_ur_indexes id)
  last ← unwrap (s.tw_ur_entries id tw_index)
  after ← ok_or (s.tw_ur_entries id (next guessed_index)) (tw_entry_invalid_index 0)
  result ← seek (s.tw_ur_entries id) last period fuel guessed_index after
  elim result [
    | out_of_fuel ↦ ok none
    | found index ↦ do rate ← mean_since (s.tw_ur_entries id) last period index; ok (some rate)
  ]

module _ ⦃p : Pendzl⦄ where
  -- `ok none` where the search outlasts the fuel.
  unfoldable pub adjust_rate_of_asset :
      LendingPoolStorage
      → ℕ
      → AccountId
      → ℕ
      → ℕ
      → Result LendingPoolError (Option (LendingPoolStorage × ℕ))
  unfolding asset_id
  adjust_rate_of_asset s fuel asset guessed_index timestamp = do
    id ← asset_id s asset
    model ← ok_or (s.interest_rate_model id) asset_not_registered
    due ←
        ok_or
          (checked_add u64_mod model.last_adjustment_timestamp
            model.minimal_time_between_adjustments)
          (math_error overflow)
    refuse_if (ltb timestamp due) too_early_to_adjust_rate
    mean ←
        get_tw_ur_from_shortest_period_longer_than s fuel model.minimal_time_between_adjustments id
          guessed_index
    elim mean [
      | none ↦ ok none
      | some rate ↦ do
        (model', adjusted) ← from_math (adjust_rate_at_target model rate timestamp)
        ok (
            some
              (record s { interest_rate_model = insert id model' s.interest_rate_model }, adjusted))
    ]
