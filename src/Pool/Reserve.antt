-- ===== src/Pool/Reserve.antt =====
-- Accounting within one reserve: `account_for_deposit`, `_withdraw`, `_borrow`, `_repay` and
-- `account_for_reserve_action` of storage/mod.rs. What the source changes through mutable
-- references is returned.
pub mod Level
pub mod Repayment
pub mod Flags
pub mod Actions
use abacus_protocol.Base.{
  ℕ, Bool, true, ◌&&◌, Result, ok, ◌>>=◌, ◌>>◌, refuse_if, ltb, ◌==◌, if◌then◌else◌,
}
use abacus_protocol.Errors.{
  LendingPoolError, insufficient_deposit, nothing_to_repay, from_math, from_reserve,
  from_restrictions,
}
use abacus_protocol.Library.MulDiv.{Pendzl}
use abacus_protocol.Library.Reserve.{
  ReserveData, ensure_activated, ensure_not_frozen, add_interests,
}
use abacus_protocol.Library.Restrictions.{
  ReserveRestrictions, AccountReserveData, ensure_max_total_deposit_not_reached,
  ensure_max_total_debt_not_reached, ensure_debt_exceeds_minimum,
}
use abacus_protocol.Library.Indexes.{ReserveIndexesAndFees}
use abacus_protocol.Library.Account.{
  AccountConfig, FeeReductions, increase_account_deposit, decrease_account_deposit,
  increase_account_debt, decrease_account_debt, accumulate_account_interest,
}

pub record ReserveDataContext : Type 0 where
  pub asset_id : ℕ
  pub reserve_data : ReserveData
  pub reserve_indexes_and_fees : ReserveIndexesAndFees
  pub reserve_restrictions : ReserveRestrictions

-- What an operation leaves behind, and the interests that it returns.
pub record Accounted : Type 0 where
  pub ctx : ReserveDataContext
  pub account_data : AccountReserveData
  pub config : AccountConfig
  pub amount : ℕ
  pub interests : ℕ × ℕ

-- `amount`, or all of the balance where that is less and the amount may be changed.
abbrev pub clamped : Bool → ℕ → ℕ → ℕ
clamped can_mutate_amount amount balance =
    if ltb balance amount && can_mutate_amount then balance else amount

module _ ⦃p : Pendzl⦄ where
  -- `add_interests(accumulate_account_interest(…)?)?`
  unfoldable pub accrue :
      ReserveDataContext
      → AccountReserveData
      → FeeReductions
      → Result LendingPoolError (ReserveDataContext × AccountReserveData × (ℕ × ℕ))
  unfolding add_interests
  accrue ctx a reductions = do
    (a', fees, delta) ← from_math (
        accumulate_account_interest a ctx.reserve_indexes_and_fees.indexes
          ctx.reserve_indexes_and_fees.fees reductions)
    (r, interests) ← from_math (add_interests ctx.reserve_data delta)
    let x = ctx.reserve_indexes_and_fees
    ok (
      record ctx { reserve_data = r; reserve_indexes_and_fees = record x { fees = fees } },
      a',
      interests,
    )

  unfoldable pub account_for_deposit :
      ReserveDataContext
      → AccountReserveData
      → AccountConfig
      → FeeReductions
      → ℕ
      → Result LendingPoolError Accounted
  account_for_deposit ctx a c reductions amount = do
    from_reserve (ensure_activated ctx.reserve_data)
    from_reserve (ensure_not_frozen ctx.reserve_data)
    (ctx', a', interests) ← accrue ctx a reductions
    (a'', c', r) ← from_math (increase_account_deposit a' ctx'.asset_id c ctx'.reserve_data amount)
    from_restrictions (ensure_max_total_deposit_not_reached ctx'.reserve_restrictions r)
    ok (record {
      ctx = record ctx' { reserve_data = r };
      account_data = a'';
      config = c';
      amount = amount;
      interests = interests;
    })

  unfoldable pub account_for_withdraw :
      ReserveDataContext
      → AccountReserveData
      → AccountConfig
      → FeeReductions
      → ℕ
      → Bool
      → Result LendingPoolError Accounted
  account_for_withdraw ctx a c reductions amount can_mutate_amount = do
    from_reserve (ensure_activated ctx.reserve_data)
    refuse_if (a.deposit == 0) insufficient_deposit
    (ctx', a', interests) ← accrue ctx a reductions
    let amount' = clamped can_mutate_amount amount a'.deposit
    (a'', c', r) ← from_math (
        decrease_account_deposit a' ctx'.asset_id c ctx'.reserve_data ctx'.reserve_restrictions
          amount')
    ok (record {
      ctx = record ctx' { reserve_data = r };
      account_data = a'';
      config = c';
      amount = amount';
      interests = interests;
    })

  unfoldable pub account_for_borrow :
      ReserveDataContext
      → AccountReserveData
      → AccountConfig
      → FeeReductions
      → ℕ
      → Result LendingPoolError Accounted
  account_for_borrow ctx a c reductions amount = do
    from_reserve (ensure_activated ctx.reserve_data)
    from_reserve (ensure_not_frozen ctx.reserve_data)
    (ctx', a', interests) ← accrue ctx a reductions
    (a'', c', r) ← from_math (increase_account_debt a' ctx'.asset_id c ctx'.reserve_data amount)
    from_restrictions (ensure_debt_exceeds_minimum ctx'.reserve_restrictions a'')
    from_restrictions (ensure_max_total_debt_not_reached ctx'.reserve_restrictions r)
    ok (record {
      ctx = record ctx' { reserve_data = r };
      account_data = a'';
      config = c';
      amount = amount;
      interests = interests;
    })

  unfoldable pub account_for_repay :
      ReserveDataContext
      → AccountReserveData
      → AccountConfig
      → FeeReductions
      → ℕ
      → Bool
      → Result LendingPoolError Accounted
  account_for_repay ctx a c reductions amount can_mutate_amount = do
    from_reserve (ensure_activated ctx.reserve_data)
    (ctx', a', interests) ← accrue ctx a reductions
    refuse_if (a'.debt == 0) nothing_to_repay
    let amount' = clamped can_mutate_amount amount a'.debt
    (a'', c', r) ← from_math (decrease_account_debt a' ctx'.asset_id c ctx'.reserve_data amount')
    from_restrictions (ensure_debt_exceeds_minimum ctx'.reserve_restrictions a'')
    ok (record {
      ctx = record ctx' { reserve_data = r };
      account_data = a'';
      config = c';
      amount = amount';
      interests = interests;
    })
