-- ===== src/Pool/Reserve/Level.antt =====
-- The four operations keep a reserve's totals level with its accounts.
use abacus_protocol.Base.{
  ℕ, Bool, true, false, ◌+◌, ◌≤◌, ◌<◌, ◌≡◌, ◌⊎◌, Option, none, some, arith, Ensures, min,
  if◌then◌else◌,
}
use abacus_protocol.Library.MulDiv.{Pendzl}
use abacus_protocol.Library.Reserve.{ensure_activated, ensure_not_frozen}
use abacus_protocol.Library.Restrictions.{
  AccountReserveData, ensure_max_total_deposit_not_reached, ensure_max_total_debt_not_reached,
  ensure_debt_exceeds_minimum,
}
use abacus_protocol.Library.Account.{AccountConfig, FeeReductions}
use abacus_protocol.Library.Account.Interest.{accumulate_account_interest_lem}
use abacus_protocol.Library.Account.Balance.{
  Level, increase_account_deposit-Level, decrease_account_deposit-Level,
  increase_account_debt-Level, decrease_account_debt-Level,
}
use abacus_protocol.Pool.Reserve.{
  ReserveDataContext, accrue, account_for_deposit, account_for_withdraw, account_for_borrow,
  account_for_repay,
}

-- A total is within its maximum, if it has one.
abbrev pub Within : ℕ → Option ℕ → Type 0
Within total none = Unit
Within total (some maximum) = total ≤ maximum

abbrev pub IsAllowedDebt : ReserveDataContext → AccountReserveData → Type 0
IsAllowedDebt ctx a = (a.debt ≡ 0) ⊎ (ctx.reserve_restrictions.minimal_debt ≤ a.debt)

module _ ⦃p : Pendzl⦄ (ctx : ReserveDataContext) (a : AccountReserveData)
    (red : FeeReductions) where
  pub accrue-Level :
      Ensures
        (λ (ctx', a', d).
          Level ctx.reserve_data ctx'.reserve_data a a'
          × (a'.deposit ≡ a.deposit + d.0)
          × (a'.debt ≡ a.debt + d.1)
          × (ctx'.asset_id ≡ ctx.asset_id)
          × (ctx'.reserve_restrictions ≡ ctx.reserve_restrictions))
        (accrue ctx a red)
  unfolding accrue
  accrue-Level = ground (
    arith,
    accumulate_account_interest_lem a ctx.reserve_indexes_and_fees.indexes
        ctx.reserve_indexes_and_fees.fees red,
  )

  module _ (c : AccountConfig) (amount : ℕ) where
    -- An accepted deposit adds the interests and the amount to the deposit, keeps the totals
    -- level, and respects activity, freeze and the maximal total deposit.
    pub account_for_deposit_lem :
        Ensures
          (λ t.
            Level ctx.reserve_data t.ctx.reserve_data a t.account_data
            × (t.account_data.deposit ≡ a.deposit + t.interests.0 + amount)
            × (t.account_data.debt ≡ a.debt + t.interests.1)
            × (t.amount ≡ amount)
            × (ctx.reserve_data.activated ≡ true)
            × (ctx.reserve_data.frozen ≡ false)
            × Within t.ctx.reserve_data.total_deposit
                ctx.reserve_restrictions.maximal_total_deposit)
          (account_for_deposit ctx a c red amount)
    unfolding account_for_deposit ensure_activated ensure_not_frozen
        ensure_max_total_deposit_not_reached
    account_for_deposit_lem = grind (arith, accrue-Level, increase_account_deposit-Level)

    -- An accepted withdrawal takes the amount (clamped to the deposit with its interest where
    -- that is allowed) and keeps the totals level.
    pub account_for_withdraw_lem :
        (can_mutate : Bool)
        → Ensures
            (λ t.
              Level ctx.reserve_data t.ctx.reserve_data a t.account_data
              × (t.account_data.deposit + t.amount ≡ a.deposit + t.interests.0)
              × (t.account_data.debt ≡ a.debt + t.interests.1)
              × (t.amount ≡ (if can_mutate then min amount (a.deposit + t.interests.0) else amount))
              × (ctx.reserve_data.activated ≡ true)
              × (0 < a.deposit))
            (account_for_withdraw ctx a c red amount can_mutate)
    unfolding account_for_withdraw ensure_activated
    account_for_withdraw_lem can_mutate =
        grind (arith, accrue-Level, decrease_account_deposit-Level)

    -- An accepted borrow adds the interests and the amount to the debt, keeps the totals level,
    -- and respects activity, freeze, minimal debt and maximal total debt.
    pub account_for_borrow_lem :
        Ensures
          (λ t.
            Level ctx.reserve_data t.ctx.reserve_data a t.account_data
            × (t.account_data.debt ≡ a.debt + t.interests.1 + amount)
            × (t.account_data.deposit ≡ a.deposit + t.interests.0)
            × (t.amount ≡ amount)
            × (ctx.reserve_data.activated ≡ true)
            × (ctx.reserve_data.frozen ≡ false)
            × IsAllowedDebt ctx t.account_data
            × Within t.ctx.reserve_data.total_debt ctx.reserve_restrictions.maximal_total_debt)
          (account_for_borrow ctx a c red amount)
    unfolding account_for_borrow ensure_activated ensure_not_frozen
        ensure_max_total_debt_not_reached ensure_debt_exceeds_minimum
    account_for_borrow_lem = grind (arith, accrue-Level, increase_account_debt-Level)

    -- An accepted repayment takes the amount (clamped to the debt with its interest where that is
    -- allowed), keeps the totals level, and respects the minimal debt.
    pub account_for_repay_lem :
        (can_mutate : Bool)
        → Ensures
            (λ t.
              Level ctx.reserve_data t.ctx.reserve_data a t.account_data
              × (t.account_data.debt + t.amount ≡ a.debt + t.interests.1)
              × (t.account_data.deposit ≡ a.deposit + t.interests.0)
              × (t.amount ≡ (if can_mutate then min amount (a.debt + t.interests.1) else amount))
              × (ctx.reserve_data.activated ≡ true)
              × IsAllowedDebt ctx t.account_data)
            (account_for_repay ctx a c red amount can_mutate)
    unfolding account_for_repay ensure_activated ensure_debt_exceeds_minimum
    account_for_repay_lem can_mutate = grind (arith, accrue-Level, decrease_account_debt-Level)
