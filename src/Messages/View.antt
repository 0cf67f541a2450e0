-- ===== src/Messages/View.antt =====
-- src/contract_modules/lending_pool/implementation/view.rs. An `unwrap` is a `panic`, so a view that
-- unwraps has a result.
use abacus_protocol.Base.{
  ℕ, zero, suc, ◌+◌, ◌-◌, Bool, List, [], ◌∷◌, Option, none, some, Result, ok, ok_or, unwrap, ◌>>=◌,
  unwrap_or, unwrap_result,
}
use abacus_protocol.Errors.{LendingPoolError, asset_not_registered}
use abacus_protocol.Library.MulDiv.{Pendzl}
use abacus_protocol.Library.InterestRate.{InterestRateModel}
use abacus_protocol.Library.Reserve.{ReserveData}
use abacus_protocol.Library.Restrictions.{ReserveRestrictions, AccountReserveData}
use abacus_protocol.Library.Indexes.{ReserveIndexes, ReserveFees, update}
use abacus_protocol.Library.Account.{AccountConfig, accumulate_account_interest, default_account}
use abacus_protocol.Library.TimeWeighted.{TwEntry}
use abacus_protocol.Pool.Storage.{
  AccountId, LendingPoolStorage, MarketRule, ReserveAbacusTokens, Oracles, default_config,
  get_account_reserve_data, get_all_registered_assets, get_fee_reductions_of_account,
}
use abacus_protocol.Pool.Power.{calculate_lending_power_of_an_account_e6}
use abacus_protocol.Pool.Utilization.{get_tw_ur_from_shortest_period_longer_than}
use abacus_protocol.Messages.Session.{Env}
use abacus_protocol.Messages.Internal.{view_protocol_income}

unfoldable pub view_flash_loan_fee_e6 : LendingPoolStorage → Result LendingPoolError ℕ
view_flash_loan_fee_e6 s = unwrap s.flash_loan_fee_e6

unfoldable pub view_asset_id : LendingPoolStorage → AccountId → Option ℕ
view_asset_id s asset = s.asset_to_id asset

unfoldable pub view_registered_assets :
    LendingPoolStorage → Result LendingPoolError (List AccountId)
view_registered_assets s = get_all_registered_assets s

-- What a map has at the id of an asset.
unfoldable pub at_asset : {V : Type 0} → LendingPoolStorage → AccountId → (ℕ → Option V) → Option V
at_asset s asset m = elim (s.asset_to_id asset) [ none ↦ none | some id ↦ m id ]

unfoldable pub view_reserve_data : LendingPoolStorage → AccountId → Option ReserveData
unfolding at_asset
view_reserve_data s asset = at_asset s asset s.reserve_datas

unfoldable pub view_unupdated_reserve_indexes :
    LendingPoolStorage → AccountId → Result LendingPoolError (Option ReserveIndexes)
view_unupdated_reserve_indexes s asset = elim (s.asset_to_id asset) [
  | none ↦ ok none
  | some id ↦ do x ← unwrap (s.reserve_indexes_and_fees id); ok (some x.indexes)
]

unfoldable pub view_reserve_fees :
    LendingPoolStorage → AccountId → Result LendingPoolError (Option ReserveFees)
view_reserve_fees s asset = elim (s.asset_to_id asset) [
  | none ↦ ok none
  | some id ↦ do x ← unwrap (s.reserve_indexes_and_fees id); ok (some x.fees)
]

unfoldable pub view_interest_rate_model : LendingPoolStorage → AccountId → Option InterestRateModel
unfolding at_asset
view_interest_rate_model s asset = at_asset s asset s.interest_rate_model

unfoldable pub view_reserve_restrictions :
    LendingPoolStorage → AccountId → Option ReserveRestrictions
unfolding at_asset
view_reserve_restrictions s asset = at_asset s asset s.reserve_restrictions

unfoldable pub view_reserve_tokens : LendingPoolStorage → AccountId → Option ReserveAbacusTokens
view_reserve_tokens s asset = s.reserve_abacus_tokens asset

unfoldable pub view_reserve_decimal_multiplier :
    LendingPoolStorage → AccountId → Result LendingPoolError (Option ℕ)
view_reserve_decimal_multiplier s asset = do
  id ← unwrap (s.asset_to_id asset)
  ok (s.reserve_decimal_multiplier id)

unfoldable pub view_unupdated_account_reserve_data :
    LendingPoolStorage → AccountId → AccountId → AccountReserveData
view_unupdated_account_reserve_data s asset account = elim (s.asset_to_id asset) [
  | none ↦ default_account
  | some id ↦ (get_account_reserve_data s id account).0
]

unfoldable pub view_account_config : LendingPoolStorage → AccountId → AccountConfig
view_account_config s account = unwrap_or (s.account_configs account) default_config

unfoldable pub view_market_rule : LendingPoolStorage → ℕ → Option MarketRule
view_market_rule s rule_id = s.market_rules rule_id

unfoldable pub view_protocol_income_of :
    LendingPoolStorage → Option (List AccountId) → Result LendingPoolError (List (AccountId × ℕ))
view_protocol_income_of s (some assets) = unwrap_result (view_protocol_income s assets)
view_protocol_income_of s none = do
  assets ← get_all_registered_assets s
  unwrap_result (view_protocol_income s assets)

unfoldable pub view_asset_tw_index : LendingPoolStorage → AccountId → Option ℕ
unfolding at_asset
view_asset_tw_index s asset = at_asset s asset s.tw_ur_indexes

-- A given number of entries from an index on.
abbrev pub tw_entries_from : (ℕ → Option TwEntry) → ℕ → ℕ → List (Option TwEntry)
tw_entries_from entries zero i = []
tw_entries_from entries (suc n) i = entries i ∷ tw_entries_from entries n (i + 1)

unfoldable pub view_asset_tw_entries :
    LendingPoolStorage → AccountId → ℕ → ℕ → List (Option TwEntry)
view_asset_tw_entries s asset from to = elim (s.asset_to_id asset) [
  | none ↦ []
  | some id ↦ tw_entries_from (s.tw_ur_entries id) (to - from) from
]

-- On fuel, as the search is.
unfoldable pub view_tw_ur_from_period_longer_than :
    LendingPoolStorage → ℕ → ℕ → AccountId → ℕ → Result LendingPoolError (Option ℕ)
view_tw_ur_from_period_longer_than s fuel period asset guessed_index = do
  id ← ok_or (s.asset_to_id asset) asset_not_registered
  get_tw_ur_from_shortest_period_longer_than s fuel period id guessed_index

module _ ⦃p : Pendzl⦄ where
  unfoldable pub view_reserve_indexes :
      Env → LendingPoolStorage → AccountId → Result LendingPoolError (Option ReserveIndexes)
  view_reserve_indexes env s asset = elim (s.asset_to_id asset) [
    | none ↦ ok none
    | some id ↦ do
      r ← unwrap (s.reserve_datas id)
      x ← unwrap (s.reserve_indexes_and_fees id)
      indexes ← unwrap_result (update x.indexes r env.block_timestamp)
      ok (some indexes)
  ]

module _ ⦃p : Pendzl⦄ ⦃o : Oracles⦄ where
  unfoldable pub view_account_reserve_data :
      Env → LendingPoolStorage → AccountId → AccountId → Result LendingPoolError AccountReserveData
  view_account_reserve_data env s asset account = elim (s.asset_to_id asset) [
    | none ↦ ok default_account
    | some id ↦ do
      let a = (get_account_reserve_data s id account).0
      r ← unwrap (s.reserve_datas id)
      x ← unwrap (s.reserve_indexes_and_fees id)
      indexes ← unwrap_result (update x.indexes r env.block_timestamp)
      (a', fees, interests) ←
          unwrap_result
            (accumulate_account_interest a indexes x.fees (get_fee_reductions_of_account s account))
      ok a'
  ]

  unfoldable pub get_account_free_collateral_coefficient :
      LendingPoolStorage → AccountId → Result LendingPoolError (Bool × ℕ)
  get_account_free_collateral_coefficient s account =
      unwrap_result (calculate_lending_power_of_an_account_e6 s account)
