-- ===== src/Pool/Reserve/Repayment.antt =====
-- A debt can be paid back.
use abacus_protocol.Base.{ℕ, true, ◌≤◌, ◌<◌, ◌≡◌, arith, ok, Result-cases, inl, inr}
use abacus_protocol.Library.MulDiv.{Pendzl}
use abacus_protocol.Library.Reserve.{ensure_activated, decrease_total_debt}
use abacus_protocol.Library.Restrictions.{AccountReserveData, ensure_debt_exceeds_minimum}
use abacus_protocol.Library.Account.{AccountConfig, FeeReductions, decrease_account_debt}
use abacus_protocol.Pool.Reserve.{ReserveDataContext, Accounted, accrue, account_for_repay}

module _ ⦃p : Pendzl⦄ (ctx : ReserveDataContext) (a : AccountReserveData) (c : AccountConfig)
    (red : FeeReductions) (amount : ℕ) where
  -- On an active reserve with one of the first 128 ids, where the interest can be accumulated, a
  -- debt that is not 0 is not above the reserve's total debt, and the amount is not below the
  -- debt: the repayment is accepted, whatever the minimal debt, it takes the debt with its
  -- interest, and leaves none.
  pub account_for_repay-accepted :
      (ctx' : ReserveDataContext) (a' : AccountReserveData) (interests : ℕ × ℕ)
      → accrue ctx a red ≡ ok (ctx', a', interests)
      → ctx.reserve_data.activated ≡ true
      → ctx'.asset_id < 128
      → 0 < a'.debt
      → a'.debt ≤ ctx'.reserve_data.total_debt
      → a'.debt ≤ amount
      → (t : Accounted) × (account_for_repay ctx a c red amount true ≡ ok t)
        × (t.account_data.debt ≡ 0)
        × (t.amount ≡ a'.debt)
  unfolding account_for_repay ensure_activated ensure_debt_exceeds_minimum decrease_account_debt
      decrease_total_debt
  account_for_repay-accepted ctx' a' interests accrued active first owed level enough =
      elim (Result-cases (account_for_repay ctx a c red amount true)) [
        | inl (t, e) ↦ (t, e, grind (arith, e, accrued), grind (arith, e, accrued))
        | inr (inl (f, e)) ↦ absurd (grind (arith, e, accrued))
        | inr (inr e) ↦ absurd (grind (arith, e, accrued))
      ]
