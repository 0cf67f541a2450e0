-- ===== src/Library/AssetRules.antt =====
-- src/library/structs/asset_rules.rs.
use abacus_protocol.Base.{
  ℕ, Bool, not, ◌&&◌, ◌||◌, Option, none, some, Result, refuse_if, ◌>>◌, is_some,
}
use abacus_protocol.Errors.{AssetRulesError, invalid_asset_rule}

pub record AssetRules : Type 0 where
  pub collateral_coefficient_e6 : Option ℕ
  pub borrow_coefficient_e6 : Option ℕ
  pub penalty_e6 : Option ℕ

-- A coefficient of the old rule that the new one lacks.
abbrev pub drops_coefficient : Option AssetRules → AssetRules → Bool
drops_coefficient none new = Bool.false
drops_coefficient (some old) new =
    (is_some old.collateral_coefficient_e6 && not (is_some new.collateral_coefficient_e6))
    || (is_some old.borrow_coefficient_e6 && not (is_some new.borrow_coefficient_e6))

unfoldable pub validate_new_rule :
    AssetRules → Option AssetRules → Result AssetRulesError (Unit {0})
validate_new_rule new old = do
  refuse_if (drops_coefficient old new) invalid_asset_rule
  let collateral = is_some new.collateral_coefficient_e6
  let borrow = is_some new.borrow_coefficient_e6
  let penalty = is_some new.penalty_e6
  refuse_if
      (((collateral || borrow) && not penalty) || (not collateral && not borrow && not penalty))
      invalid_asset_rule
