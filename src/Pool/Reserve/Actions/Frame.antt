-- ===== src/Pool/Reserve/Actions/Frame.antt =====
-- What `account_for_reserve_action` does to the storage, and what it leaves alone.
use abacus_protocol.Base.{
  ℕ, ◌+◌, ◌≡◌, ◌≢◌, List, Option, none, some, arith, Ensures, length, replicate,
}
use abacus_protocol.Library.MulDiv.{Pendzl}
use abacus_protocol.Library.InterestRate.{InterestRateModel}
use abacus_protocol.Library.Reserve.{ReserveData, recalculate_current_rates}
use abacus_protocol.Library.Restrictions.{AccountReserveData}
use abacus_protocol.Library.Account.{AccountConfig, FeeReductions}
use abacus_protocol.Pool.Storage.{LendingPoolStorage}
use abacus_protocol.Pool.Snapshot.{store_utilization_rate_snapshot}
use abacus_protocol.Pool.Reserve.{ReserveDataContext}
use abacus_protocol.Pool.Reserve.Actions.{
  ReserveAction, recalculated, open_reserve, account_for_reserve_action,
}
use abacus_protocol.Pool.Reserve.Actions.Conservation.{
  deposits, debts, account_for_actions-LevelSums,
}

-- The totals of an asset's reserve, 0 where there is none.
abbrev pub total_deposit_in : LendingPoolStorage → ℕ → ℕ
total_deposit_in s id = elim (s.reserve_datas id) [ none ↦ 0 | some r ↦ r.total_deposit ]

abbrev pub total_debt_in : LendingPoolStorage → ℕ → ℕ
total_debt_in s id = elim (s.reserve_datas id) [ none ↦ 0 | some r ↦ r.total_debt ]

-- Everything but the time-weighted entries, the reserves' data and their indexes is the same.
abbrev pub SameAccounts : LendingPoolStorage → LendingPoolStorage → Type 0
SameAccounts s s' = s' ≡ record s {
  tw_ur_indexes = s'.tw_ur_indexes;
  tw_ur_entries = s'.tw_ur_entries;
  reserve_datas = s'.reserve_datas;
  reserve_indexes_and_fees = s'.reserve_indexes_and_fees;
}

module _ ⦃p : Pendzl⦄ where
  pub store_utilization_rate_snapshot_frame :
      (s : LendingPoolStorage) (id : ℕ) (r : ReserveData) (now : ℕ)
      → Ensures
          (λ s'.
            s' ≡ record s { tw_ur_indexes = s'.tw_ur_indexes; tw_ur_entries = s'.tw_ur_entries })
          (store_utilization_rate_snapshot s id r now)
  unfolding store_utilization_rate_snapshot
  store_utilization_rate_snapshot_frame s id r now = ground arith

  pub recalculate-totals :
      (r : ReserveData) (m : InterestRateModel)
      → Ensures
          (λ r'. (r'.total_deposit ≡ r.total_deposit) × (r'.total_debt ≡ r.total_debt))
          (recalculate_current_rates r m)
  unfolding recalculate_current_rates
  recalculate-totals r m = ground arith

  recalculated-totals :
      (r : ReserveData) (m : Option InterestRateModel)
      → Ensures
          (λ r'. (r'.total_deposit ≡ r.total_deposit) × (r'.total_debt ≡ r.total_debt))
          (recalculated r m)
  unfolding recalculated
  recalculated-totals r none = ground arith
  recalculated-totals r (some m) = ground (arith, recalculate-totals r m)

  open_reserve_lem :
      (s : LendingPoolStorage) (id now : ℕ)
      → Ensures
          (λ (s', ctx).
            (s.reserve_datas id ≡ some ctx.reserve_data)
            × (s'
                ≡ record s { tw_ur_indexes = s'.tw_ur_indexes; tw_ur_entries = s'.tw_ur_entries }))
          (open_reserve s id now)
  unfolding open_reserve
  open_reserve_lem s id now = grind (arith, store_utilization_rate_snapshot_frame)

  -- The totals of the asset's reserve move by as much as the deposits and debts of the accounts that
  -- take part, whatever the actions are; all other reserves and all stored accounts stay.
  pub account_for_reserve_action-conserves :
      (s : LendingPoolStorage) (id : ℕ) (datas : List AccountReserveData)
      (configs : List AccountConfig) (fees : List FeeReductions) (actions : List ReserveAction)
      (now : ℕ)
      → Ensures
          (λ (s', t, amounts).
            (total_deposit_in s' id + deposits datas ≡ total_deposit_in s id + deposits t.datas)
            × (total_debt_in s' id + debts datas ≡ total_debt_in s id + debts t.datas)
            × (length t.datas ≡ length datas)
            × SameAccounts s s'
            × ((j : ℕ) → j ≢ id → s'.reserve_datas j ≡ s.reserve_datas j))
          (account_for_reserve_action s id datas configs fees actions now)
  unfolding account_for_reserve_action
  account_for_reserve_action-conserves s id datas configs fees actions now = grind (
    arith,
    open_reserve_lem s id now,
    λ (ctx : ReserveDataContext).
        account_for_actions-LevelSums
          (record {
            ctx = ctx;
            datas = datas;
            configs = configs;
            items = replicate (length datas) (0, 0);
          })
          fees actions,
    recalculated-totals,
  )
