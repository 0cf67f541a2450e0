-- ===== src/Examples/World.antt =====
-- The storage that the examples run on.
use abacus_protocol.Base.{ℕ, true, false, [], ◌∷◌, none, some, ok, ◌==◌, if◌then◌else◌, Mapping}
use abacus_protocol.Library.Math.{e18}
use abacus_protocol.Library.InterestRate.{InterestRateModel}
use abacus_protocol.Library.Reserve.{ReserveData}
use abacus_protocol.Library.Restrictions.{AccountReserveData, ReserveRestrictions}
use abacus_protocol.Library.Indexes.{ReserveFees, ReserveIndexes, ReserveIndexesAndFees}
use abacus_protocol.Library.Account.{AccountConfig}
use abacus_protocol.Library.AssetRules.{AssetRules}
use abacus_protocol.Pool.Reserve.{ReserveDataContext}
use abacus_protocol.Pool.Management.Laws.{Registry}
use abacus_protocol.Base.{arith}
use abacus_protocol.Pool.Storage.{LendingPoolStorage, Oracles, MarketRule, AccountDatas}

abbrev pub model : InterestRateModel
model = record {
  target_ur_e6 = 900000;
  min_rate_at_target_e18 = 10;
  max_rate_at_target_e18 = 1000;
  rate_at_target_ur_e18 = 100;
  rate_at_max_ur_e18 = 5000;
  minimal_time_between_adjustments = 100;
  last_adjustment_timestamp = 0;
}

abbrev pub restrictions : ReserveRestrictions
restrictions = record {
  maximal_total_deposit = some 1000000000;
  maximal_total_debt = none;
  minimal_collateral = 10;
  minimal_debt = 5;
}

abbrev pub fees : ReserveFees
fees = record { deposit_fee_e6 = 100000; debt_fee_e6 = 50000; earned_fee = 0 }

abbrev pub indexes : ReserveIndexes
indexes = record { deposit_index_e18 = e18; debt_index_e18 = e18; update_timestamp = 0 }

-- The indexes at a later time: 10% of interest on deposits and 20% on debts.
abbrev pub later_indexes : ReserveIndexes
later_indexes = record {
  deposit_index_e18 = 1100000000000000000;
  debt_index_e18 = 1200000000000000000;
  update_timestamp = 500;
}

abbrev pub indexes_and_fees : ReserveIndexesAndFees
indexes_and_fees = record { indexes = indexes; fees = fees }

abbrev pub reserve : ReserveData
reserve = record {
  activated = true;
  frozen = false;
  total_deposit = 1000000;
  current_deposit_rate_e18 = 1000000;
  total_debt = 200000;
  current_debt_rate_e18 = 2000000;
}

abbrev pub depositor : AccountReserveData
depositor = record {
  deposit = 100000;
  debt = 0;
  applied_deposit_index_e18 = e18;
  applied_debt_index_e18 = e18;
}

abbrev pub borrower : AccountReserveData
borrower = record {
  deposit = 0;
  debt = 20000;
  applied_deposit_index_e18 = e18;
  applied_debt_index_e18 = e18;
}

abbrev pub depositor_config : AccountConfig
depositor_config = record { deposits = 1; collaterals = 1; borrows = 0; market_rule_id = 0 }

abbrev pub borrower_config : AccountConfig
borrower_config = record { deposits = 1; collaterals = 1; borrows = 2; market_rule_id = 0 }

abbrev pub rules : AssetRules
rules = record {
  collateral_coefficient_e6 = some 900000;
  borrow_coefficient_e6 = some 1100000;
  penalty_e6 = some 50000;
}

abbrev pub market_rule : MarketRule
market_rule = some rules ∷ some rules ∷ []

abbrev pub depositor_datas : AccountDatas
depositor_datas = some depositor ∷ none ∷ []

abbrev pub borrower_datas : AccountDatas
borrower_datas = some depositor ∷ some borrower ∷ []

-- A map with two entries.
abbrev two_entries {ℓ} : {V : Type ℓ} → ℕ → V → ℕ → V → Mapping V
two_entries i v j w k = if k == i then some v else if k == j then some w else none

abbrev pub pool : LendingPoolStorage
pool = record {
  price_feed_provider = some 50;
  fee_reduction_provider = none;
  next_asset_id = 2;
  asset_to_id = two_entries 100 0 200 1;
  id_to_asset = two_entries 0 100 1 200;
  next_rule_id = 1;
  market_rules = two_entries 0 market_rule 0 market_rule;
  reserve_abacus_tokens = λ k. none;
  reserve_restrictions = two_entries 0 restrictions 1 restrictions;
  reserve_indexes_and_fees = two_entries 0 indexes_and_fees 1 indexes_and_fees;
  reserve_decimal_multiplier = two_entries 0 1000 1 1000;
  reserve_datas = two_entries 0 reserve 1 reserve;
  tw_ur_indexes = two_entries 0 0 1 0;
  tw_ur_entries = λ id k. none;
  interest_rate_model = two_entries 0 model 1 model;
  account_reserve_datas = two_entries 7 depositor_datas 8 borrower_datas;
  account_configs = two_entries 7 depositor_config 8 borrower_config;
  flash_loan_fee_e6 = none;
}

-- Both assets at the price 1, and no fee reduction.
abbrev pub prices : Oracles
prices = record {
  get_latest_prices = λ provider assets. ok (e18 ∷ e18 ∷ []);
  get_fee_reductions = λ provider account. (0, 0);
  get_flash_loan_fee_reduction = λ provider account. 0;
}

-- The reserve of asset 200 in the course of an action, its indexes updated.
abbrev pub later : ReserveDataContext
later = record {
  asset_id = 1;
  reserve_data = reserve;
  reserve_indexes_and_fees = record { indexes = later_indexes; fees = fees };
  reserve_restrictions = restrictions;
}

pub pool-Registry : Registry pool
pool-Registry = (λ asset id h. ground arith, λ id h. ground arith, λ id asset h. ground arith)
