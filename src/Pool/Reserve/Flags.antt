-- ===== src/Pool/Reserve/Flags.antt =====
-- The bits of an account's configuration in the four operations on a reserve.
use abacus_protocol.Base.{ℕ, ◌<◌, ◌≡◌, ◌≢◌, Bool, arith, Ensures, Ensures-map, sym, ◌∙◌}
use abacus_protocol.Library.MulDiv.{Pendzl}
use abacus_protocol.Library.Reserve.{ReserveData}
use abacus_protocol.Library.Restrictions.{AccountReserveData, ReserveRestrictions}
use abacus_protocol.Library.Indexes.{ReserveFees, ReserveIndexes}
use abacus_protocol.Library.Account.{
  AccountConfig, FeeReductions, accumulate_account_interest, accumulate_deposit, accumulate_debt,
}
use abacus_protocol.Library.Account.Flags.{
  Flagged, SameElsewhere, increase_account_deposit-Flagged, decrease_account_deposit-Flagged,
  increase_account_debt-Flagged, decrease_account_debt-Flagged,
  increase_account_deposit-SameElsewhere, decrease_account_deposit-SameElsewhere,
  increase_account_debt-SameElsewhere, decrease_account_debt-SameElsewhere,
}
use abacus_protocol.Pool.Reserve.{
  ReserveDataContext, accrue, account_for_deposit, account_for_withdraw, account_for_borrow,
  account_for_repay,
}

-- Interest on nothing is nothing.
module _ ⦃p : Pendzl⦄ (a : AccountReserveData) where
  accumulate_deposit-nothing :
      (index : ℕ) (fees : ReserveFees) (reduction : ℕ)
      → Ensures
          (λ (deposit, delta, fees'). a.deposit ≡ 0 → deposit ≡ 0)
          (accumulate_deposit a index fees reduction)
  unfolding accumulate_deposit
  accumulate_deposit-nothing index fees reduction = ground arith

  accumulate_debt-nothing :
      (index : ℕ) (fees : ReserveFees) (reduction : ℕ)
      → Ensures
          (λ (debt, delta, fees'). a.debt ≡ 0 → debt ≡ 0)
          (accumulate_debt a index fees reduction)
  unfolding accumulate_debt
  accumulate_debt-nothing index fees reduction = ground arith

  accumulate_account_interest-nothing :
      (x : ReserveIndexes) (fees : ReserveFees) (reductions : FeeReductions)
      → Ensures
          (λ (a', fees', delta). (a.deposit ≡ 0 → a'.deposit ≡ 0) × (a.debt ≡ 0 → a'.debt ≡ 0))
          (accumulate_account_interest a x fees reductions)
  unfolding accumulate_account_interest
  accumulate_account_interest-nothing x fees reductions = grind (
    arith,
    accumulate_deposit-nothing x.deposit_index_e18 fees reductions.0,
    λ (f : ReserveFees). accumulate_debt-nothing x.debt_index_e18 f reductions.1,
  )

  accrue-nothing :
      (ctx : ReserveDataContext) (red : FeeReductions)
      → Ensures
          (λ (ctx', a', d).
            (a.deposit ≡ 0 → a'.deposit ≡ 0)
            × (a.debt ≡ 0 → a'.debt ≡ 0)
            × (ctx'.asset_id ≡ ctx.asset_id))
          (accrue ctx a red)
  unfolding accrue
  accrue-nothing ctx red = grind (
    arith,
    accumulate_account_interest-nothing ctx.reserve_indexes_and_fees.indexes
        ctx.reserve_indexes_and_fees.fees red,
  )

Flagged-nothing :
    (id : ℕ) (c : AccountConfig) (a a' : AccountReserveData)
    → (a.deposit ≡ 0 → a'.deposit ≡ 0)
    → (a.debt ≡ 0 → a'.debt ≡ 0)
    → Flagged id c a
    → Flagged id c a'
Flagged-nothing id c a a' deposits debts f = record {
  deposit_flag = λ some_deposit. f.deposit_flag (λ none. some_deposit (deposits none));
  debt_flag = λ some_debt. f.debt_flag (λ none. some_debt (debts none));
}

module _ ⦃p : Pendzl⦄ (ctx : ReserveDataContext) (a : AccountReserveData) (red : FeeReductions)
    (c : AccountConfig) where
  accrue-Flagged :
      Flagged ctx.asset_id c a
      → Ensures
          (λ (ctx', a', d). Flagged ctx.asset_id c a' × (ctx'.asset_id ≡ ctx.asset_id))
          (accrue ctx a red)
  accrue-Flagged f =
      Ensures-map (accrue ctx a red)
        (λ (ctx', a', d) (deposits, debts, same).
          (Flagged-nothing ctx.asset_id c a a' deposits debts f, same))
        (accrue-nothing a ctx red)

  pub account_for_deposit-Flagged :
      (amount : ℕ)
      → Flagged ctx.asset_id c a
      → Ensures
          (λ t. Flagged ctx.asset_id t.config t.account_data)
          (account_for_deposit ctx a c red amount)
  unfolding account_for_deposit
  account_for_deposit-Flagged amount f =
      grind (arith, accrue-Flagged f, increase_account_deposit-Flagged)

  pub account_for_deposit-SameElsewhere :
      (amount : ℕ) (j : ℕ)
      → ctx.asset_id ≢ j
      → j < 128
      → Ensures (λ t. SameElsewhere j c t.config) (account_for_deposit ctx a c red amount)
  unfolding account_for_deposit
  account_for_deposit-SameElsewhere amount j ne small = grind (
    arith,
    accrue-nothing a ctx red,
    λ (a' : AccountReserveData) (id : ℕ) (r : ReserveData) (n : ℕ) (e : id ≡ ctx.asset_id).
        increase_account_deposit-SameElsewhere a' id c r n j (λ q. ne (sym e ∙ q)) small,
  )

  pub account_for_withdraw-Flagged :
      (amount : ℕ) (can_mutate : Bool)
      → Flagged ctx.asset_id c a
      → Ensures
          (λ t. Flagged ctx.asset_id t.config t.account_data)
          (account_for_withdraw ctx a c red amount can_mutate)
  unfolding account_for_withdraw
  account_for_withdraw-Flagged amount can_mutate f =
      grind (arith, accrue-Flagged f, decrease_account_deposit-Flagged)

  pub account_for_withdraw-SameElsewhere :
      (amount : ℕ) (can_mutate : Bool) (j : ℕ)
      → ctx.asset_id ≢ j
      → j < 128
      → Ensures
          (λ t. SameElsewhere j c t.config)
          (account_for_withdraw ctx a c red amount can_mutate)
  unfolding account_for_withdraw
  account_for_withdraw-SameElsewhere amount can_mutate j ne small = grind (
    arith,
    accrue-nothing a ctx red,
    λ (a' : AccountReserveData) (id : ℕ) (r : ReserveData) (n : ℕ) (s : ReserveRestrictions)
          (e : id ≡ ctx.asset_id).
        decrease_account_deposit-SameElsewhere a' id c r n j (λ q. ne (sym e ∙ q)) small s,
  )

  pub account_for_borrow-Flagged :
      (amount : ℕ)
      → Flagged ctx.asset_id c a
      → Ensures
          (λ t. Flagged ctx.asset_id t.config t.account_data)
          (account_for_borrow ctx a c red amount)
  unfolding account_for_borrow
  account_for_borrow-Flagged amount f =
      grind (arith, accrue-Flagged f, increase_account_debt-Flagged)

  pub account_for_borrow-SameElsewhere :
      (amount : ℕ) (j : ℕ)
      → ctx.asset_id ≢ j
      → j < 128
      → Ensures (λ t. SameElsewhere j c t.config) (account_for_borrow ctx a c red amount)
  unfolding account_for_borrow
  account_for_borrow-SameElsewhere amount j ne small = grind (
    arith,
    accrue-nothing a ctx red,
    λ (a' : AccountReserveData) (id : ℕ) (r : ReserveData) (n : ℕ) (e : id ≡ ctx.asset_id).
        increase_account_debt-SameElsewhere a' id c r n j (λ q. ne (sym e ∙ q)) small,
  )

  pub account_for_repay-Flagged :
      (amount : ℕ) (can_mutate : Bool)
      → Flagged ctx.asset_id c a
      → Ensures
          (λ t. Flagged ctx.asset_id t.config t.account_data)
          (account_for_repay ctx a c red amount can_mutate)
  unfolding account_for_repay
  account_for_repay-Flagged amount can_mutate f =
      grind (arith, accrue-Flagged f, decrease_account_debt-Flagged)

  pub account_for_repay-SameElsewhere :
      (amount : ℕ) (can_mutate : Bool) (j : ℕ)
      → ctx.asset_id ≢ j
      → j < 128
      → Ensures (λ t. SameElsewhere j c t.config) (account_for_repay ctx a c red amount can_mutate)
  unfolding account_for_repay
  account_for_repay-SameElsewhere amount can_mutate j ne small = grind (
    arith,
    accrue-nothing a ctx red,
    λ (a' : AccountReserveData) (id : ℕ) (r : ReserveData) (n : ℕ) (e : id ≡ ctx.asset_id).
        decrease_account_debt-SameElsewhere a' id c r n j (λ q. ne (sym e ∙ q)) small,
  )
