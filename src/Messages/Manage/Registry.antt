-- ===== src/Messages/Manage/Registry.antt =====
-- The messages of the management keep the registry of the assets.
use abacus_protocol.Base.{ℕ, Bool, List, [], ◌∷◌, Option, arith, Ensures, refl, insert}
use abacus_protocol.Library.MulDiv.{Pendzl}
use abacus_protocol.Library.InterestRate.{InterestRateModelParams, new_model}
use abacus_protocol.Library.Reserve.{default_reserve}
use abacus_protocol.Library.Restrictions.{ReserveRestrictions}
use abacus_protocol.Library.Indexes.{ReserveIndexesAndFees, new_fees}
use abacus_protocol.Library.AssetRules.{AssetRules}
use abacus_protocol.Pool.Storage.{AccountId, LendingPoolStorage, MarketRule, ReserveAbacusTokens}
use abacus_protocol.Pool.Management.{
  account_for_price_feed_provider_change, account_for_fee_reduction_provider_change,
}
use abacus_protocol.Pool.Management.Laws.{Registry, account_for_register_asset-Registry}
use abacus_protocol.Pool.Management.Registry.{
  account_for_set_abacus_tokens-Registry, account_for_changing_activity-Registry,
  account_for_changing_is_frozen-Registry, account_for_reserve_restricitions_change-Registry,
  account_for_interest_rate_model_change-Registry, account_for_reserve_fees_change-Registry,
  account_for_add_market_rule-Registry, account_for_asset_rule_change-Registry,
  account_for_stablecoin_debt_rate_e18_change-Registry,
}
use abacus_protocol.Pool.Transfer.Registry.{Preserves, Preserves-trans, Preserves-Ensures}
use abacus_protocol.Messages.Session.{Env, Session, Tokens, SetReserveFeesArgs}
use abacus_protocol.Messages.Internal.{take_protocol_income_of}
use abacus_protocol.Messages.Roles.{AccessControl}
use abacus_protocol.Messages.Manage.{
  set_price_feed_provider, set_fee_reduction_provider, set_flash_loan_fee_e6, set_reserve_is_active,
  set_reserve_is_frozen, set_reserve_restrictions, set_interest_rate_model, set_reserve_fees,
  set_stablecoin_debt_rate_e18, add_market_rule, modify_asset_rule, take_protocol_income,
}
use abacus_protocol.Messages.Manage.Register.{Instantiation, Listing, register_asset, model_of}
use abacus_protocol.Messages.Registry.{Registered}

fees-Preserves :
    (s : LendingPoolStorage) (id : ℕ) (x : ReserveIndexesAndFees)
    → Preserves s (record s { reserve_indexes_and_fees = insert id x s.reserve_indexes_and_fees })
fees-Preserves s id x = ((refl, refl, refl, refl, refl), λ j h. h, λ j h. ground arith, λ j h. h)

take_protocol_income_of-Preserves :
    (s : LendingPoolStorage) (assets : List AccountId)
    → Ensures (λ (s', incomes). Preserves s s') (take_protocol_income_of s assets)
unfolding take_protocol_income_of
take_protocol_income_of-Preserves s [] =
    ((refl, refl, refl, refl, refl), λ j h. h, λ j h. h, λ j h. h)
take_protocol_income_of-Preserves s (asset ∷ rest) = grind (
  arith,
  λ (id : ℕ) (x : ReserveIndexesAndFees). fees-Preserves s id x,
  λ (s' : LendingPoolStorage). take_protocol_income_of-Preserves s' rest,
  λ (s' s'' : LendingPoolStorage). Preserves-trans s s' s'',
)

take_protocol_income_of-Registry :
    (s : LendingPoolStorage) (assets : List AccountId)
    → Registry s
    → Ensures (λ (s', incomes). Registry s') (take_protocol_income_of s assets)
take_protocol_income_of-Registry s assets registry =
    Preserves-Ensures s (take_protocol_income_of s assets) (λ r. r.0) registry
      (take_protocol_income_of-Preserves s assets)

module _ ⦃a : AccessControl⦄ (env : Env) (g : Session) (registered : Registered g) where
  pub set_price_feed_provider-Registered :
      (provider : AccountId) → Ensures Registered (set_price_feed_provider env g provider)
  unfolding set_price_feed_provider account_for_price_feed_provider_change
  set_price_feed_provider-Registered provider = ground (arith, registered)

  pub set_fee_reduction_provider-Registered :
      (provider : AccountId) → Ensures Registered (set_fee_reduction_provider env g provider)
  unfolding set_fee_reduction_provider account_for_fee_reduction_provider_change
  set_fee_reduction_provider-Registered provider = ground (arith, registered)

  pub set_flash_loan_fee_e6-Registered :
      (fee : ℕ) → Ensures Registered (set_flash_loan_fee_e6 env g fee)
  unfolding set_flash_loan_fee_e6
  set_flash_loan_fee_e6-Registered fee = ground (arith, registered)

  pub set_reserve_is_active-Registered :
      (asset : AccountId) (active : Bool)
      → Ensures Registered (set_reserve_is_active env g asset active)
  unfolding set_reserve_is_active
  set_reserve_is_active-Registered asset active =
      grind (arith, account_for_changing_activity-Registry g.storage registered asset active)

  pub set_reserve_is_frozen-Registered :
      (asset : AccountId) (freeze : Bool)
      → Ensures Registered (set_reserve_is_frozen env g asset freeze)
  unfolding set_reserve_is_frozen
  set_reserve_is_frozen-Registered asset freeze =
      grind (arith, account_for_changing_is_frozen-Registry g.storage registered asset freeze)

  pub set_reserve_restrictions-Registered :
      (asset : AccountId) (restrictions : ReserveRestrictions)
      → Ensures Registered (set_reserve_restrictions env g asset restrictions)
  unfolding set_reserve_restrictions
  set_reserve_restrictions-Registered asset restrictions = grind (
    arith,
    account_for_reserve_restricitions_change-Registry g.storage registered asset restrictions,
  )

  pub set_interest_rate_model-Registered :
      ⦃p : Pendzl⦄ (asset : AccountId) (params : InterestRateModelParams)
      → Ensures Registered (set_interest_rate_model env g asset params)
  unfolding set_interest_rate_model
  set_interest_rate_model-Registered asset params = grind (
    arith,
    account_for_interest_rate_model_change-Registry g.storage registered asset
        (new_model params env.block_timestamp) env.block_timestamp,
  )

  pub set_reserve_fees-Registered :
      (asset : AccountId) (fees : SetReserveFeesArgs)
      → Ensures Registered (set_reserve_fees env g asset fees)
  unfolding set_reserve_fees
  set_reserve_fees-Registered asset fees = grind (
    arith,
    account_for_reserve_fees_change-Registry g.storage registered asset
        (new_fees fees.deposit_fee_e6 fees.debt_fee_e6),
  )

  pub set_stablecoin_debt_rate_e18-Registered :
      (asset : AccountId) (rate : ℕ)
      → Ensures Registered (set_stablecoin_debt_rate_e18 env g asset rate)
  unfolding set_stablecoin_debt_rate_e18
  set_stablecoin_debt_rate_e18-Registered asset rate =
      grind (
        arith,
        account_for_stablecoin_debt_rate_e18_change-Registry g.storage registered asset rate,
      )

  pub add_market_rule-Registered :
      (rule : MarketRule) → Ensures Registered (add_market_rule env g rule)
  unfolding add_market_rule
  add_market_rule-Registered rule =
      grind (arith, account_for_add_market_rule-Registry g.storage registered rule)

  pub modify_asset_rule-Registered :
      (rule_id : ℕ) (asset : AccountId) (rules : AssetRules)
      → Ensures Registered (modify_asset_rule env g rule_id asset rules)
  unfolding modify_asset_rule
  modify_asset_rule-Registered rule_id asset rules =
      grind (arith, account_for_asset_rule_change-Registry g.storage registered rule_id asset rules)

  pub take_protocol_income-Registered :
      ⦃t : Tokens⦄ (assets : Option (List AccountId)) (to : AccountId)
      → Ensures (λ (g', incomes). Registered g') (take_protocol_income env g assets to)
  unfolding take_protocol_income
  take_protocol_income-Registered assets to =
      grind (
        arith,
        λ (list : List AccountId). take_protocol_income_of-Registry g.storage list registered,
      )

  pub register_asset-Registered :
      ⦃i : Instantiation⦄ (asset : AccountId) (l : Listing)
      → Ensures Registered (register_asset env g asset l)
  unfolding register_asset
  register_asset-Registered asset l = grind (
    arith,
    λ (decimals : ℕ).
        account_for_register_asset-Registry g.storage asset default_reserve l.reserve_restrictions
          decimals (new_fees l.reserve_fees.deposit_fee_e6 l.reserve_fees.debt_fee_e6)
          (model_of l.interest_rate_model_params env.block_timestamp) env.block_timestamp
          registered,
    λ (s : LendingPoolStorage) (r : Registry s) (tokens : ReserveAbacusTokens).
        account_for_set_abacus_tokens-Registry s r asset tokens,
    λ (s : LendingPoolStorage) (r : Registry s).
        account_for_asset_rule_change-Registry s r 0 asset l.asset_rules,
  )
