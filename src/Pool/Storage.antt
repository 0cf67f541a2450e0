-- ===== src/Pool/Storage.antt =====
-- src/contract_modules/lending_pool/implementation/storage/mod.rs: the storage and its getters.
use abacus_protocol.Base.{
  ℕ, zero, suc, ◌+◌, ◌-◌, List, [], ◌∷◌, ◌++◌, Option, none, some, Result, ok, ok_or, unwrap, ◌>>=◌,
  map_err, Mapping, unwrap_or, ltb, if◌then◌else◌, length, get_elem?, replicate, set,
}
use abacus_protocol.Errors.{
  LendingPoolError, PriceFeedError, asset_not_registered, market_rule_invalid_id,
}
use abacus_protocol.Errors
use abacus_protocol.Library.InterestRate.{InterestRateModel}
use abacus_protocol.Library.Reserve.{ReserveData}
use abacus_protocol.Library.Restrictions.{ReserveRestrictions, AccountReserveData}
use abacus_protocol.Library.Indexes.{ReserveIndexesAndFees}
use abacus_protocol.Library.Account.{AccountConfig, FeeReductions, default_account}
use abacus_protocol.Library.AssetRules.{AssetRules}
use abacus_protocol.Library.TimeWeighted.{TwEntry}

-- Accounts are numbers: they are only compared.
abbrev pub AccountId : Type 0
AccountId = ℕ

abbrev pub MarketRule : Type 0
MarketRule = List (Option AssetRules)

-- library/structs/reserve_abacus_tokens.rs
pub record ReserveAbacusTokens : Type 0 where
  pub a_token_address : AccountId
  pub v_token_address : AccountId

abbrev pub AccountDatas : Type 0
AccountDatas = List (Option AccountReserveData)

pub record LendingPoolStorage : Type 0 where
  pub price_feed_provider : Option AccountId
  pub fee_reduction_provider : Option AccountId
  pub next_asset_id : ℕ
  pub asset_to_id : Mapping ℕ
  pub id_to_asset : Mapping AccountId
  pub next_rule_id : ℕ
  pub market_rules : Mapping MarketRule
  pub reserve_abacus_tokens : Mapping ReserveAbacusTokens
  pub reserve_restrictions : Mapping ReserveRestrictions
  pub reserve_indexes_and_fees : Mapping ReserveIndexesAndFees
  pub reserve_decimal_multiplier : Mapping ℕ
  pub reserve_datas : Mapping ReserveData
  pub tw_ur_indexes : Mapping ℕ
  pub tw_ur_entries : ℕ → Mapping TwEntry
  pub interest_rate_model : Mapping InterestRateModel
  pub account_reserve_datas : Mapping AccountDatas
  pub account_configs : Mapping AccountConfig
  pub flash_loan_fee_e6 : Option ℕ

-- The contracts that the pool only calls: the price feed and the fee reduction provider, as they
-- answer during one message.
pub record Oracles : Type 0 where
  pub get_latest_prices : AccountId → List AccountId → Result PriceFeedError (List ℕ)
  pub get_fee_reductions : AccountId → AccountId → FeeReductions
  pub get_flash_loan_fee_reduction : AccountId → AccountId → ℕ

-- `AccountConfig::default`
abbrev pub default_config : AccountConfig
default_config = record { deposits = 0; collaterals = 0; borrows = 0; market_rule_id = 0 }

unfoldable pub asset_id : LendingPoolStorage → AccountId → Result LendingPoolError ℕ
asset_id s asset = ok_or (s.asset_to_id asset) asset_not_registered

-- The assets from an id on, a given number of them.
unfoldable pub assets_from : LendingPoolStorage → ℕ → ℕ → Result LendingPoolError (List AccountId)
assets_from s zero id = ok []
assets_from s (suc n) id = do
  asset ← unwrap (s.id_to_asset id)
  rest ← assets_from s n (id + 1)
  ok (asset ∷ rest)

unfoldable pub get_all_registered_assets :
    LendingPoolStorage → Result LendingPoolError (List AccountId)
unfolding assets_from
get_all_registered_assets s = assets_from s s.next_asset_id 0

abbrev pub get_account_reserve_datas_defaults : LendingPoolStorage → AccountDatas
get_account_reserve_datas_defaults s = replicate s.next_asset_id none

-- `Vec::resize` to a larger length.
abbrev pub padded : AccountDatas → ℕ → AccountDatas
padded datas next_id =
    if ltb (length datas) next_id then datas ++ replicate (next_id - length datas) none else datas

unfoldable pub get_account_datas : LendingPoolStorage → AccountId → AccountDatas
get_account_datas s account =
    padded (unwrap_or (s.account_reserve_datas account) (get_account_reserve_datas_defaults s))
      s.next_asset_id

-- `Option<Option<AccountReserveData>>` to the data, or the default.
abbrev pub data_or_default : Option (Option AccountReserveData) → AccountReserveData
data_or_default none = default_account
data_or_default (some none) = default_account
data_or_default (some (some data')) = data'

unfoldable pub get_account_reserve_data :
    LendingPoolStorage → ℕ → AccountId → AccountReserveData × AccountDatas
unfolding get_account_datas
get_account_reserve_data s id account =
    let datas = get_account_datas s account in (data_or_default (get_elem? datas id), datas)

unfoldable pub get_account_config : LendingPoolStorage → AccountId → AccountConfig
get_account_config s account = unwrap_or (s.account_configs account) default_config

unfoldable pub get_market_rule :
    LendingPoolStorage → AccountConfig → Result LendingPoolError MarketRule
get_market_rule s config = unwrap (s.market_rules config.market_rule_id)

unfoldable pub get_reserve_data : LendingPoolStorage → ℕ → Result LendingPoolError ReserveData
get_reserve_data s id = unwrap (s.reserve_datas id)

unfoldable pub get_reserve_restrictions :
    LendingPoolStorage → ℕ → Result LendingPoolError ReserveRestrictions
get_reserve_restrictions s id = unwrap (s.reserve_restrictions id)

unfoldable pub get_reserve_indexes_and_fees :
    LendingPoolStorage → ℕ → Result LendingPoolError ReserveIndexesAndFees
get_reserve_indexes_and_fees s id = unwrap (s.reserve_indexes_and_fees id)

unfoldable pub get_decimal_multiplier : LendingPoolStorage → ℕ → Result LendingPoolError ℕ
get_decimal_multiplier s id = unwrap (s.reserve_decimal_multiplier id)

-- The entry of an asset, which an entry that is missing is filled in for with the default.
unfoldable pub get_account_data_entry_mut :
    AccountDatas → ℕ → Result LendingPoolError (AccountReserveData × AccountDatas)
get_account_data_entry_mut datas id = do
  entry ← unwrap (get_elem? datas id)
  let data' = unwrap_or entry default_account
  ok (data', set datas id (some data'))

module _ ⦃o : Oracles⦄ where
  unfoldable pub get_assets_prices_e18 : LendingPoolStorage → Result LendingPoolError (List ℕ)
  unfolding get_all_registered_assets
  get_assets_prices_e18 s = do
    assets ← get_all_registered_assets s
    provider ← unwrap s.price_feed_provider
    map_err Errors.LendingPoolError.price_feed_error (o.get_latest_prices provider assets)

  -- `FeeReductions::default` without a provider.
  unfoldable pub get_fee_reductions_of_account : LendingPoolStorage → AccountId → FeeReductions
  get_fee_reductions_of_account s account = elim s.fee_reduction_provider [
    | none ↦ (0, 0)
    | some provider ↦ o.get_fee_reductions provider account
  ]
