-- ===== src/Pool/Management/Registry.antt =====
-- The changes of parameters keep the registry of the assets.
use abacus_protocol.Base.{ℕ, Bool, arith, Ensures}
use abacus_protocol.Library.MulDiv.{Pendzl}
use abacus_protocol.Library.InterestRate.{InterestRateModel}
use abacus_protocol.Library.Restrictions.{ReserveRestrictions}
use abacus_protocol.Library.Indexes.{ReserveFees}
use abacus_protocol.Library.AssetRules.{AssetRules}
use abacus_protocol.Pool.Storage.{
  AccountId, LendingPoolStorage, MarketRule, ReserveAbacusTokens, asset_id, get_reserve_data,
  get_reserve_indexes_and_fees,
}
use abacus_protocol.Pool.Management.{
  account_for_set_abacus_tokens, account_for_market_rule_change, account_for_changing_activity,
  account_for_changing_is_frozen, account_for_reserve_restricitions_change,
  account_for_interest_rate_model_change, account_for_reserve_fees_change,
  account_for_add_market_rule, account_for_asset_rule_change,
  account_for_stablecoin_debt_rate_e18_change, ensure_market_rule_in_bounds,
}
use abacus_protocol.Pool.Management.Laws.{Registry}

module _ (s : LendingPoolStorage) (registry : Registry s) where
  pub account_for_set_abacus_tokens-Registry :
      (asset : AccountId) (tokens : ReserveAbacusTokens)
      → Ensures Registry (account_for_set_abacus_tokens s asset tokens)
  unfolding account_for_set_abacus_tokens
  account_for_set_abacus_tokens-Registry asset tokens = ground (arith, registry)

  pub account_for_market_rule_change-Registry :
      (account : AccountId) (rule_id : ℕ)
      → Ensures Registry (account_for_market_rule_change s account rule_id)
  unfolding account_for_market_rule_change ensure_market_rule_in_bounds
  account_for_market_rule_change-Registry account rule_id = ground (arith, registry)

  pub account_for_changing_activity-Registry :
      (asset : AccountId) (active : Bool)
      → Ensures Registry (account_for_changing_activity s asset active)
  unfolding account_for_changing_activity asset_id get_reserve_data
  account_for_changing_activity-Registry asset active =
      ground (arith, registry.0, registry.1, registry.2)

  pub account_for_changing_is_frozen-Registry :
      (asset : AccountId) (freeze : Bool)
      → Ensures Registry (account_for_changing_is_frozen s asset freeze)
  unfolding account_for_changing_is_frozen asset_id get_reserve_data
  account_for_changing_is_frozen-Registry asset freeze =
      ground (arith, registry.0, registry.1, registry.2)

  pub account_for_reserve_restricitions_change-Registry :
      (asset : AccountId) (restrictions : ReserveRestrictions)
      → Ensures Registry (account_for_reserve_restricitions_change s asset restrictions)
  unfolding account_for_reserve_restricitions_change asset_id
  account_for_reserve_restricitions_change-Registry asset restrictions =
      ground (arith, registry.0, registry.1, registry.2)

  pub account_for_interest_rate_model_change-Registry :
      ⦃p : Pendzl⦄ (asset : AccountId) (model : InterestRateModel) (now : ℕ)
      → Ensures Registry (account_for_interest_rate_model_change s asset model now)
  unfolding account_for_interest_rate_model_change asset_id get_reserve_data
      get_reserve_indexes_and_fees
  account_for_interest_rate_model_change-Registry asset model now =
      ground (arith, registry.0, registry.1, registry.2)

  pub account_for_reserve_fees_change-Registry :
      (asset : AccountId) (fees : ReserveFees)
      → Ensures Registry (account_for_reserve_fees_change s asset fees)
  unfolding account_for_reserve_fees_change asset_id get_reserve_indexes_and_fees
  account_for_reserve_fees_change-Registry asset fees =
      ground (arith, registry.0, registry.1, registry.2)

  pub account_for_add_market_rule-Registry :
      (rule : MarketRule)
      → Ensures (λ (s', rule_id). Registry s') (account_for_add_market_rule s rule)
  unfolding account_for_add_market_rule
  account_for_add_market_rule-Registry rule = ground (arith, registry)

  pub account_for_asset_rule_change-Registry :
      (rule_id : ℕ) (asset : AccountId) (rules : AssetRules)
      → Ensures Registry (account_for_asset_rule_change s rule_id asset rules)
  unfolding account_for_asset_rule_change asset_id ensure_market_rule_in_bounds
  account_for_asset_rule_change-Registry rule_id asset rules = ground (arith, registry)

  pub account_for_stablecoin_debt_rate_e18_change-Registry :
      (asset : AccountId) (rate : ℕ)
      → Ensures Registry (account_for_stablecoin_debt_rate_e18_change s asset rate)
  unfolding account_for_stablecoin_debt_rate_e18_change asset_id get_reserve_data
  account_for_stablecoin_debt_rate_e18_change-Registry asset rate =
      ground (arith, registry.0, registry.1, registry.2)
