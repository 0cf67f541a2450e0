-- ===== src/Contract/Message.antt =====
-- The state of the contract with its constructor, and its messages that change the state.
use abacus_protocol.Base.{ℕ, Bool, List, [], ◌∷◌, Option, none, some}
use abacus_protocol.Library.InterestRate.{InterestRateModelParams}
use abacus_protocol.Library.Restrictions.{ReserveRestrictions}
use abacus_protocol.Library.AssetRules.{AssetRules}
use abacus_protocol.Pool.Storage.{AccountId, LendingPoolStorage, MarketRule, Oracles}
use abacus_protocol.Pool.Lending.{Action}
use abacus_protocol.Messages.Session.{Env, Event, Session, Tokens, SetReserveFeesArgs}
use abacus_protocol.Messages.Roles.{AccessControl}
use abacus_protocol.Messages.Manage.Register.{Instantiation, Listing}
use abacus_protocol.Contract.Registrar.{AccountRegistrar, new_registrar}

-- The storage of the contract but for the access control, with what it has sent and emitted.
pub record LendingPool : Type 0 where
  pub session : Session
  pub registrar : AccountRegistrar

-- `LendingPoolStorage::default` with what `new` sets.
abbrev pub new_storage : LendingPoolStorage
new_storage = record {
  price_feed_provider = none;
  fee_reduction_provider = none;
  next_asset_id = 0;
  asset_to_id = λ k. none;
  id_to_asset = λ k. none;
  next_rule_id = 0;
  market_rules = λ k. none;
  reserve_abacus_tokens = λ k. none;
  reserve_restrictions = λ k. none;
  reserve_indexes_and_fees = λ k. none;
  reserve_decimal_multiplier = λ k. none;
  reserve_datas = λ k. none;
  tw_ur_indexes = λ k. none;
  tw_ur_entries = λ id k. none;
  interest_rate_model = λ k. none;
  account_reserve_datas = λ k. none;
  account_configs = λ k. none;
  flash_loan_fee_e6 = some 1000;
}

-- The constructor `new`; the role that it grants is the access control's.
abbrev pub new_pool : LendingPool
new_pool = record {
  session = record {
    storage = new_storage;
    calls = [];
    events = Event.flash_loan_fee_changed 1000 ∷ [];
  };
  registrar = new_registrar;
}

pub data UserMessage : Type 0 where
  choose_market_rule : ℕ → UserMessage
  set_as_collateral : AccountId → Bool → UserMessage
  deposit withdraw borrow repay : AccountId → AccountId → ℕ → UserMessage
  multi_op : List Action → AccountId → UserMessage
  liquidate : AccountId → AccountId → AccountId → ℕ → ℕ → UserMessage
  accumulate_interest : AccountId → UserMessage
  adjust_rate_at_target : AccountId → ℕ → UserMessage
  transfer_deposit_from_to transfer_debt_from_to :
      AccountId → AccountId → AccountId → ℕ → UserMessage

pub data ManageMessage : Type 0 where
  set_price_feed_provider set_fee_reduction_provider : AccountId → ManageMessage
  set_flash_loan_fee_e6 : ℕ → ManageMessage
  register_asset : AccountId → Listing → ManageMessage
  set_reserve_is_active set_reserve_is_frozen : AccountId → Bool → ManageMessage
  set_reserve_restrictions : AccountId → ReserveRestrictions → ManageMessage
  set_interest_rate_model : AccountId → InterestRateModelParams → ManageMessage
  set_reserve_fees : AccountId → SetReserveFeesArgs → ManageMessage
  set_stablecoin_debt_rate_e18 : AccountId → ℕ → ManageMessage
  add_market_rule : MarketRule → ManageMessage
  modify_asset_rule : ℕ → AccountId → AssetRules → ManageMessage
  take_protocol_income : Option (List AccountId) → AccountId → ManageMessage

-- What is around one message: its environment, what the other contracts answer, and the rounds that
-- a loop can take before the message runs out of gas, which is a panic.
pub record Surroundings : Type 0 where
  pub env : Env
  pub oracles : Oracles
  pub tokens : Tokens
  pub access_control : AccessControl
  pub instantiation : Instantiation
  pub gas : ℕ
