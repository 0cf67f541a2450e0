-- ===== src/Errors.antt =====
-- The error types: src/contract_modules/lending_pool/errors.rs and those of the library's structs.
-- `MathError`, `PSP22Error` and `AccessControlError` are types of the pendzl crate; they have here
-- the constructors that the source names.
use abacus_protocol.Base.{ℕ, Result, map_err}

pub data MathError : Type 0 where
  overflow underflow div_by_zero : MathError

-- `Custom` carries a text, of which only that it is there matters.
pub data Psp22Error : Type 0 where
  insufficient_balance insufficient_allowance custom : Psp22Error

pub data AccessControlError : Type 0 where
  missing_role : AccessControlError

pub data PriceFeedError : Type 0 where
  no_such_asset no_price_feed : PriceFeedError

pub data FlashLoanReceiverError : Type 0 where
  math_errorr : MathError → FlashLoanReceiverError
  custom : FlashLoanReceiverError

pub data ReserveDataError : Type 0 where
  already_set inactive frozen : ReserveDataError

pub data ReserveRestrictionsError : Type 0 where
  max_debt_reached max_deposit_reached minimal_debt minimal_collateral : ReserveRestrictionsError

pub data AssetRulesError : Type 0 where
  invalid_asset_rule : AssetRulesError

pub data LendingPoolError : Type 0 where
  psp22_error : Psp22Error → LendingPoolError
  access_control_error : AccessControlError → LendingPoolError
  math_error : MathError → LendingPoolError
  asset_rules_error : AssetRulesError → LendingPoolError
  reserve_data_error : ReserveDataError → LendingPoolError
  reserve_restrictions_error : ReserveRestrictionsError → LendingPoolError
  price_feed_error : PriceFeedError → LendingPoolError
  flash_loan_receiver_error : FlashLoanReceiverError → LendingPoolError
  amount_not_greater_than_zero : LendingPoolError
  already_registered asset_not_registered : LendingPoolError
  asset_is_protocol_stablecoin asset_is_not_protocol_stablecoin : LendingPoolError
  rule_borrow_disable rule_collateral_disable : LendingPoolError
  insufficient_collateral insufficient_debt collaterized : LendingPoolError
  insufficient_deposit minimum_recieved : LendingPoolError
  nothing_to_repay nothing_to_compensate_with taking_not_a_collateral : LendingPoolError
  vectors_inconsistent_lengths market_rule_invalid_id deposit_fee_too_high : LendingPoolError
  tw_entry_invalid_index : ℕ → LendingPoolError
  too_early_to_adjust_rate : LendingPoolError

-- The `From` conversions that `?` applies in a function that returns a `LendingPoolError`.
abbrev pub from_math {ℓ} : {A : Type ℓ} → Result MathError A → Result LendingPoolError A
from_math r = map_err math_error r

abbrev pub from_reserve {ℓ} : {A : Type ℓ} → Result ReserveDataError A → Result LendingPoolError A
from_reserve r = map_err reserve_data_error r

abbrev pub from_restrictions {ℓ} :
    {A : Type ℓ} → Result ReserveRestrictionsError A → Result LendingPoolError A
from_restrictions r = map_err reserve_restrictions_error r

abbrev pub from_rules {ℓ} : {A : Type ℓ} → Result AssetRulesError A → Result LendingPoolError A
from_rules r = map_err asset_rules_error r

abbrev pub from_psp22 {ℓ} : {A : Type ℓ} → Result Psp22Error A → Result LendingPoolError A
from_psp22 r = map_err psp22_error r
