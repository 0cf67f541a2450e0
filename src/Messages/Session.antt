-- ===== src/Messages/Session.antt =====
-- What a message of the pool reads and leaves besides the storage: the environment (`Self::env()`),
-- the calls of other contracts that it makes, and the events that it emits
-- (src/contract_modules/lending_pool/events.rs).
use abacus_protocol.Base.{ℕ, Bool, List, [], ◌∷◌, ◌++◌, Option, Result, ok, ◌>>◌}
use Prim.Native.String.{String}
use abacus_protocol.Errors.{Psp22Error}
use abacus_protocol.Library.InterestRate.{InterestRateModelParams}
use abacus_protocol.Library.Restrictions.{ReserveRestrictions}
use abacus_protocol.Library.AssetRules.{AssetRules}
use abacus_protocol.Pool.Storage.{AccountId, LendingPoolStorage}

-- The caller of the message, the pool's own account, and the time of the block.
pub record Env : Type 0 where
  pub caller : AccountId
  pub account_id : AccountId
  pub block_timestamp : ℕ

-- An entry of the transfer events that an abacus token is told to emit
-- (src/contract_modules/abacus_token/mod.rs).
pub record TransferEventData : Type 0 where
  pub from : Option AccountId
  pub to : Option AccountId
  pub amount : ℕ

-- The messages that the pool sends to a token; the token is the first argument.
pub data Call : Type 0 where
  transfer_from : AccountId → AccountId → AccountId → ℕ → Call
  transfer mint burn : AccountId → AccountId → ℕ → Call
  emit_transfer_events : AccountId → List TransferEventData → Call
  emit_transfer_event_and_decrease_allowance :
      AccountId → TransferEventData → AccountId → AccountId → ℕ → Call

-- src/contract_modules/lending_pool/traits/lending_pool_manage.rs
pub record SetReserveFeesArgs : Type 0 where
  pub debt_fee_e6 : ℕ
  pub deposit_fee_e6 : ℕ

pub data Event : Type 0 where
  deposit withdraw borrow repay : AccountId → AccountId → AccountId → ℕ → Event
  collateral_set : AccountId → AccountId → Bool → Event
  market_rule_chosen : AccountId → ℕ → Event
  flash_loan : AccountId → AccountId → AccountId → ℕ → ℕ → Event
  liquidation : AccountId → AccountId → AccountId → AccountId → ℕ → ℕ → Event
  interests_accumulated : AccountId → Event
  price_feed_provider_changed fee_reduction_changed income_taken : AccountId → Event
  flash_loan_fee_changed : ℕ → Event
  asset_registered : AccountId → String → String → ℕ → ℕ → ℕ → AccountId → AccountId → Event
  reserve_activated reserve_frozen : AccountId → Bool → Event
  reserve_interest_rate_model_changed : AccountId → InterestRateModelParams → Event
  reserve_restrictions_changed : AccountId → ReserveRestrictions → Event
  asset_rules_changed : ℕ → AccountId → AssetRules → Event
  reserve_fees_changed : AccountId → SetReserveFeesArgs → Event
  stablecoin_debt_rate_changed : AccountId → ℕ → Event

-- Calls and events are listed in the order in which they are made.
pub record Session : Type 0 where
  pub storage : LendingPoolStorage
  pub calls : List Call
  pub events : List Event

-- The tokens are contracts of their own: a call is answered depending on those made before, and a
-- call that traps is a `panic`.
pub record Tokens : Type 0 where
  pub answer : List Call → Call → Result Psp22Error (Unit {0})

-- `.call_v1().invoke()`
module _ ⦃t : Tokens⦄ where
  unfoldable pub invoke : List Call → Call → Result Psp22Error (List Call)
  invoke calls call = do t.answer calls call; ok (calls ++ call ∷ [])
