-- ===== src/Pool/Snapshot.antt =====
-- Time-weighted utilization rate: `store_utilization_rate_snapshot` of storage/mod.rs.
use abacus_protocol.Base.{
  ℕ, Result, ok, ok_or, unwrap, ◌>>=◌, unwrap_or, leb, ◌==◌, if◌then◌else◌, insert, checked_mul,
  saturating_sub, wrapping_add, u64_mod,
}
use abacus_protocol.Errors.{LendingPoolError, math_error, overflow, from_math}
use abacus_protocol.Library.MulDiv.{Pendzl}
use abacus_protocol.Library.Reserve.{ReserveData, current_utilization_rate_e6}
use abacus_protocol.Library.TimeWeighted.{TwEntry, default_entry, next}
use abacus_protocol.Pool.Storage.{LendingPoolStorage}

-- The entries of one asset with one more.
abbrev pub insert_entry : LendingPoolStorage → ℕ → ℕ → TwEntry → LendingPoolStorage
insert_entry s id index entry = record s {
  tw_ur_entries =
      λ j. if j == id then insert index entry (s.tw_ur_entries id) else s.tw_ur_entries j;
}

module _ ⦃p : Pendzl⦄ where
  unfoldable pub store_utilization_rate_snapshot :
      LendingPoolStorage → ℕ → ReserveData → ℕ → Result LendingPoolError LendingPoolStorage
  unfolding next
  store_utilization_rate_snapshot s id r timestamp = do
    tw_index ← unwrap (s.tw_ur_indexes id)
    let last_entry = unwrap_or (s.tw_ur_entries id tw_index) default_entry
    (if leb timestamp last_entry.timestamp then ok s else (do
      let delta_timestamp = saturating_sub timestamp last_entry.timestamp
      utilization_rate_e6 ← from_math (current_utilization_rate_e6 r)
      delta_accumulator ←
          ok_or (checked_mul u64_mod utilization_rate_e6 delta_timestamp) (math_error overflow)
      let accumulator = wrapping_add u64_mod last_entry.accumulator delta_accumulator
      let new_index = next tw_index
      let s' =
          insert_entry s id new_index (record { timestamp = timestamp; accumulator = accumulator })
      ok (record s' { tw_ur_indexes = insert id new_index s'.tw_ur_indexes })))
