-- ===== src/Library/Restrictions.antt =====
-- src/library/structs/reserve_restrictions.rs, with the data of an account in one reserve
-- (`AccountReserveData` of src/library/structs/account_reserve_data.rs), which it reads.
use abacus_protocol.Base.{
  ℕ, Bool, false, not, ◌&&◌, Option, none, some, Result, refuse_if, ltb, ◌==◌,
}
use abacus_protocol.Errors.{ReserveRestrictionsError, max_debt_reached, max_deposit_reached}
use abacus_protocol.Errors
use abacus_protocol.Library.Reserve.{ReserveData}

pub record AccountReserveData : Type 0 where
  pub deposit : ℕ
  pub debt : ℕ
  pub applied_deposit_index_e18 : ℕ
  pub applied_debt_index_e18 : ℕ

pub record ReserveRestrictions : Type 0 where
  pub maximal_total_deposit : Option ℕ
  pub maximal_total_debt : Option ℕ
  pub minimal_collateral : ℕ
  pub minimal_debt : ℕ

-- `Some(max) if total > max`
abbrev exceeds : ℕ → Option ℕ → Bool
exceeds total none = false
exceeds total (some max_total) = ltb max_total total

unfoldable pub ensure_max_total_deposit_not_reached :
    ReserveRestrictions → ReserveData → Result ReserveRestrictionsError (Unit {0})
ensure_max_total_deposit_not_reached s r =
    refuse_if (exceeds r.total_deposit s.maximal_total_deposit) max_deposit_reached

unfoldable pub ensure_max_total_debt_not_reached :
    ReserveRestrictions → ReserveData → Result ReserveRestrictionsError (Unit {0})
ensure_max_total_debt_not_reached s r =
    refuse_if (exceeds r.total_debt s.maximal_total_debt) max_debt_reached

unfoldable pub ensure_debt_exceeds_minimum :
    ReserveRestrictions → AccountReserveData → Result ReserveRestrictionsError (Unit {0})
ensure_debt_exceeds_minimum s a =
    refuse_if (not (a.debt == 0) && ltb a.debt s.minimal_debt)
      Errors.ReserveRestrictionsError.minimal_debt

unfoldable pub ensure_collateral_exceeds_minimum :
    ReserveRestrictions → AccountReserveData → Result ReserveRestrictionsError (Unit {0})
ensure_collateral_exceeds_minimum s a =
    refuse_if (ltb a.deposit s.minimal_collateral)
      Errors.ReserveRestrictionsError.minimal_collateral
