-- ===== src/Pool/Management.antt =====
-- The management section of storage/mod.rs: registering assets and changing parameters.
pub mod Laws
pub mod Registry
use abacus_protocol.Base.{
  ℕ, zero, suc, ◌+◌, ◌-◌, Bool, true, false, not, ◌&&◌, List, [], ◌∷◌, ◌++◌, Option, none, some,
  Result, ok, ok_or, unwrap, ◌>>=◌, ◌>>◌, refuse_if, leb, insert, contains, length, replicate, set,
  checked_add, u32_mod, if◌then◌else◌, get_elem?,
}
use abacus_protocol.Errors.{
  LendingPoolError, math_error, overflow, already_registered, asset_not_registered,
  asset_is_protocol_stablecoin, asset_is_not_protocol_stablecoin, market_rule_invalid_id, from_math,
  from_reserve, from_rules,
}
use abacus_protocol.Library.MulDiv.{Pendzl}
use abacus_protocol.Library.InterestRate.{InterestRateModel}
use abacus_protocol.Library.Reserve.{
  ReserveData, set_is_active, set_is_frozen, recalculate_current_rates,
}
use abacus_protocol.Library.Restrictions.{ReserveRestrictions}
use abacus_protocol.Library.Indexes.{ReserveFees, new_indexes_and_fees, update}
use abacus_protocol.Library.AssetRules.{AssetRules, validate_new_rule}
use abacus_protocol.Pool.Storage.{
  AccountId, LendingPoolStorage, MarketRule, ReserveAbacusTokens, asset_id, get_account_config,
  get_reserve_data, get_reserve_indexes_and_fees,
}

unfoldable pub account_for_price_feed_provider_change :
    LendingPoolStorage → AccountId → LendingPoolStorage
account_for_price_feed_provider_change s provider = record s { price_feed_provider = some provider }

unfoldable pub account_for_fee_reduction_provider_change :
    LendingPoolStorage → AccountId → LendingPoolStorage
account_for_fee_reduction_provider_change s provider = record s {
  fee_reduction_provider = some provider;
}

unfoldable pub account_for_register_asset :
    LendingPoolStorage
    → AccountId
    → ReserveData
    → ReserveRestrictions
    → ℕ
    → ReserveFees
    → Option InterestRateModel
    → ℕ
    → Result LendingPoolError LendingPoolStorage
account_for_register_asset s asset r restrictions decimals fees model timestamp = do
  refuse_if (contains asset s.asset_to_id) already_registered
  let id = s.next_asset_id
  next_id ← ok_or (checked_add u32_mod id 1) (math_error overflow)
  ok (record s {
    asset_to_id = insert asset id s.asset_to_id;
    id_to_asset = insert id asset s.id_to_asset;
    reserve_datas = insert id r s.reserve_datas;
    reserve_restrictions = insert id restrictions s.reserve_restrictions;
    reserve_decimal_multiplier = insert id decimals s.reserve_decimal_multiplier;
    reserve_indexes_and_fees =
        insert id (new_indexes_and_fees timestamp fees) s.reserve_indexes_and_fees;
    tw_ur_indexes = insert id 0 s.tw_ur_indexes;
    interest_rate_model = elim model [
      | none ↦ s.interest_rate_model
      | some m ↦ insert id m s.interest_rate_model
    ];
    next_asset_id = next_id;
  })

unfoldable pub account_for_set_abacus_tokens :
    LendingPoolStorage
    → AccountId
    → ReserveAbacusTokens
    → Result LendingPoolError LendingPoolStorage
account_for_set_abacus_tokens s asset tokens = do
  refuse_if (not (contains asset s.asset_to_id)) asset_not_registered
  ok (record s { reserve_abacus_tokens = insert asset tokens s.reserve_abacus_tokens })

unfoldable pub ensure_market_rule_in_bounds :
    LendingPoolStorage → ℕ → Result LendingPoolError (Unit {0})
ensure_market_rule_in_bounds s rule_id =
    refuse_if (leb s.next_rule_id rule_id) market_rule_invalid_id

unfoldable pub account_for_market_rule_change :
    LendingPoolStorage → AccountId → ℕ → Result LendingPoolError LendingPoolStorage
unfolding ensure_market_rule_in_bounds get_account_config
account_for_market_rule_change s account rule_id = do
  ensure_market_rule_in_bounds s rule_id
  let config = get_account_config s account
  ok (record s {
    account_configs = insert account (record config { market_rule_id = rule_id }) s.account_configs;
  })

unfoldable pub account_for_changing_activity :
    LendingPoolStorage → AccountId → Bool → Result LendingPoolError LendingPoolStorage
unfolding asset_id get_reserve_data
account_for_changing_activity s asset active = do
  id ← asset_id s asset
  r ← get_reserve_data s id
  r' ← from_reserve (set_is_active r active)
  ok (record s { reserve_datas = insert id r' s.reserve_datas })

unfoldable pub account_for_changing_is_frozen :
    LendingPoolStorage → AccountId → Bool → Result LendingPoolError LendingPoolStorage
unfolding asset_id get_reserve_data
account_for_changing_is_frozen s asset freeze = do
  id ← asset_id s asset
  r ← get_reserve_data s id
  r' ← from_reserve (set_is_frozen r freeze)
  ok (record s { reserve_datas = insert id r' s.reserve_datas })

unfoldable pub account_for_reserve_restricitions_change :
    LendingPoolStorage
    → AccountId
    → ReserveRestrictions
    → Result LendingPoolError LendingPoolStorage
unfolding asset_id
account_for_reserve_restricitions_change s asset restrictions = do
  id ← asset_id s asset
  ok (record s { reserve_restrictions = insert id restrictions s.reserve_restrictions })

unfoldable pub account_for_interest_rate_model_change :
    ⦃p : Pendzl⦄
    → LendingPoolStorage
    → AccountId
    → InterestRateModel
    → ℕ
    → Result LendingPoolError LendingPoolStorage
unfolding asset_id get_reserve_data get_reserve_indexes_and_fees
account_for_interest_rate_model_change s asset model timestamp = do
  id ← asset_id s asset
  refuse_if (not (contains id s.interest_rate_model)) asset_is_protocol_stablecoin
  r ← get_reserve_data s id
  x ← get_reserve_indexes_and_fees s id
  indexes ← from_math (update x.indexes r timestamp)
  r' ← from_math (recalculate_current_rates r model)
  ok (record s {
    reserve_datas = insert id r' s.reserve_datas;
    interest_rate_model = insert id model s.interest_rate_model;
    reserve_indexes_and_fees =
        insert id (record x { indexes = indexes }) s.reserve_indexes_and_fees;
  })

unfoldable pub account_for_reserve_fees_change :
    LendingPoolStorage → AccountId → ReserveFees → Result LendingPoolError LendingPoolStorage
unfolding asset_id get_reserve_indexes_and_fees
account_for_reserve_fees_change s asset fees = do
  id ← asset_id s asset
  refuse_if (not (contains id s.interest_rate_model)) asset_is_protocol_stablecoin
  x ← get_reserve_indexes_and_fees s id
  ok (record s {
    reserve_indexes_and_fees = insert id (record x { fees = fees }) s.reserve_indexes_and_fees;
  })

-- The storage and the new rule's id; the id after the last is a panic.
unfoldable pub account_for_add_market_rule :
    LendingPoolStorage → MarketRule → Result LendingPoolError (LendingPoolStorage × ℕ)
account_for_add_market_rule s rule = do
  let rule_id = s.next_rule_id
  next_id ← unwrap (checked_add u32_mod rule_id 1)
  ok (
    record s { market_rules = insert rule_id rule s.market_rules; next_rule_id = next_id },
    rule_id,
  )

-- `while rule.len() <= id { rule.push(None) }`
abbrev pub extended : MarketRule → ℕ → MarketRule
extended rule id = rule ++ replicate (suc id - length rule) none

-- The rule is written before the one that it replaces is read, as in the source.
unfoldable pub account_for_asset_rule_change :
    LendingPoolStorage → ℕ → AccountId → AssetRules → Result LendingPoolError LendingPoolStorage
unfolding asset_id ensure_market_rule_in_bounds
account_for_asset_rule_change s rule_id asset rules = do
  id ← asset_id s asset
  ensure_market_rule_in_bounds s rule_id
  rule ← unwrap (s.market_rules rule_id)
  let rule' = set (extended rule id) id (some rules)
  old ← unwrap (get_elem? rule' id)
  from_rules (validate_new_rule rules old)
  ok (record s { market_rules = insert rule_id rule' s.market_rules })

unfoldable pub account_for_stablecoin_debt_rate_e18_change :
    LendingPoolStorage → AccountId → ℕ → Result LendingPoolError LendingPoolStorage
unfolding asset_id get_reserve_data
account_for_stablecoin_debt_rate_e18_change s asset rate = do
  id ← asset_id s asset
  refuse_if (contains id s.interest_rate_model) asset_is_not_protocol_stablecoin
  r ← get_reserve_data s id
  ok (record s {
    reserve_datas = insert id (record r { current_debt_rate_e18 = rate }) s.reserve_datas;
  })
