-- ===== src/Messages/Manage.antt =====
-- src/contract_modules/lending_pool/implementation/manage.rs but for the registration of assets.
pub mod Register
pub mod Registry
use abacus_protocol.Base.{
  ℕ, zero, suc, ◌+◌, Bool, List, [], ◌∷◌, ◌++◌, Option, none, some, Result, ok, unwrap, ◌>>=◌, ◌>>◌,
  refuse_if, ltb, get_elem?, ◌==◌, if◌then◌else◌,
}
use abacus_protocol.Errors.{LendingPoolError, deposit_fee_too_high, from_rules}
use abacus_protocol.Library.MulDiv.{Pendzl}
use abacus_protocol.Library.InterestRate.{InterestRateModelParams, new_model}
use abacus_protocol.Library.Restrictions.{ReserveRestrictions}
use abacus_protocol.Library.Indexes.{new_fees}
use abacus_protocol.Library.AssetRules.{AssetRules, validate_new_rule}
use abacus_protocol.Pool.Storage.{
  AccountId, LendingPoolStorage, MarketRule, get_all_registered_assets,
}
use abacus_protocol.Pool.Management.{
  account_for_price_feed_provider_change, account_for_fee_reduction_provider_change,
  account_for_changing_activity, account_for_changing_is_frozen,
  account_for_reserve_restricitions_change, account_for_interest_rate_model_change,
  account_for_reserve_fees_change, account_for_stablecoin_debt_rate_e18_change,
  account_for_add_market_rule, account_for_asset_rule_change,
}
use abacus_protocol.Messages.Session.{Env, Call, Event, Session, Tokens, SetReserveFeesArgs}
use abacus_protocol.Messages.Internal.{transfer_out, take_protocol_income_of}
use abacus_protocol.Messages.Roles.{
  AccessControl, ensure_has_role, parameters_admin, emergency_admin, stablecoin_rate_admin,
  treasury,
}

-- The session with a new storage and one more event.
abbrev pub with_event : Session → LendingPoolStorage → Event → Session
with_event g s event = record g { storage = s; events = g.events ++ event ∷ [] }

-- The rules of a new market rule, each without a predecessor.
unfoldable pub validate_new_rules : MarketRule → Result LendingPoolError (Unit {0})
validate_new_rules [] = ok tt
validate_new_rules (none ∷ rules) = validate_new_rules rules
validate_new_rules (some r ∷ rules) = do
  from_rules (validate_new_rule r none)
  validate_new_rules rules

-- The events of a new market rule from an index on; an asset that is not there is a panic.
unfoldable pub asset_rules_events :
    ℕ → List AccountId → ℕ → MarketRule → Result LendingPoolError (List Event)
asset_rules_events rule_id assets id [] = ok []
asset_rules_events rule_id assets id (none ∷ rules) =
    asset_rules_events rule_id assets (id + 1) rules
asset_rules_events rule_id assets id (some r ∷ rules) = do
  asset ← unwrap (get_elem? assets id)
  events ← asset_rules_events rule_id assets (id + 1) rules
  ok (Event.asset_rules_changed rule_id asset r ∷ events)

-- The loop over the incomes, which `take_while` ends at the first that is 0.
unfoldable pub pay_incomes :
    ⦃t : Tokens⦄
    → LendingPoolStorage
    → AccountId
    → List (AccountId × ℕ)
    → List Call
    → List Event
    → Result LendingPoolError (List Call × List Event)
pay_incomes s to [] calls events = ok (calls, events)
pay_incomes s to ((asset, amount) ∷ incomes) calls events =
    let paid = (do
      calls' ← transfer_out s asset to amount calls
      pay_incomes s to incomes calls' (events ++ Event.income_taken asset ∷ [])) in
    if amount == 0 then ok (calls, events) else paid

module _ ⦃a : AccessControl⦄ where
  unfoldable pub set_price_feed_provider :
      Env → Session → AccountId → Result LendingPoolError Session
  unfolding ensure_has_role account_for_price_feed_provider_change
  set_price_feed_provider env g provider = do
    ensure_has_role parameters_admin env.caller
    ok (
        with_event g (account_for_price_feed_provider_change g.storage provider)
          (Event.price_feed_provider_changed provider))

  unfoldable pub set_fee_reduction_provider :
      Env → Session → AccountId → Result LendingPoolError Session
  unfolding ensure_has_role account_for_fee_reduction_provider_change
  set_fee_reduction_provider env g provider = do
    ensure_has_role parameters_admin env.caller
    ok (
        with_event g (account_for_fee_reduction_provider_change g.storage provider)
          (Event.fee_reduction_changed provider))

  unfoldable pub set_flash_loan_fee_e6 : Env → Session → ℕ → Result LendingPoolError Session
  unfolding ensure_has_role
  set_flash_loan_fee_e6 env g fee = do
    ensure_has_role parameters_admin env.caller
    ok (
        with_event g (record (g.storage) { flash_loan_fee_e6 = some fee })
          (Event.flash_loan_fee_changed fee))

  unfoldable pub set_reserve_is_active :
      Env → Session → AccountId → Bool → Result LendingPoolError Session
  unfolding ensure_has_role
  set_reserve_is_active env g asset active = do
    ensure_has_role emergency_admin env.caller
    s ← account_for_changing_activity g.storage asset active
    ok (with_event g s (Event.reserve_activated asset active))

  unfoldable pub set_reserve_is_frozen :
      Env → Session → AccountId → Bool → Result LendingPoolError Session
  unfolding ensure_has_role
  set_reserve_is_frozen env g asset freeze = do
    ensure_has_role emergency_admin env.caller
    s ← account_for_changing_is_frozen g.storage asset freeze
    ok (with_event g s (Event.reserve_frozen asset freeze))

  unfoldable pub set_reserve_restrictions :
      Env → Session → AccountId → ReserveRestrictions → Result LendingPoolError Session
  unfolding ensure_has_role
  set_reserve_restrictions env g asset restrictions = do
    ensure_has_role parameters_admin env.caller
    s ← account_for_reserve_restricitions_change g.storage asset restrictions
    ok (with_event g s (Event.reserve_restrictions_changed asset restrictions))

  unfoldable pub set_interest_rate_model :
      ⦃p : Pendzl⦄
      → Env
      → Session
      → AccountId
      → InterestRateModelParams
      → Result LendingPoolError Session
  unfolding ensure_has_role new_model
  set_interest_rate_model env g asset params = do
    ensure_has_role parameters_admin env.caller
    s ←
        account_for_interest_rate_model_change g.storage asset
          (new_model params env.block_timestamp) env.block_timestamp
    ok (with_event g s (Event.reserve_interest_rate_model_changed asset params))

  unfoldable pub set_reserve_fees :
      Env → Session → AccountId → SetReserveFeesArgs → Result LendingPoolError Session
  unfolding ensure_has_role
  set_reserve_fees env g asset fees = do
    ensure_has_role parameters_admin env.caller
    refuse_if (ltb 1000000 fees.deposit_fee_e6) deposit_fee_too_high
    s ←
        account_for_reserve_fees_change g.storage asset
          (new_fees fees.deposit_fee_e6 fees.debt_fee_e6)
    ok (with_event g s (Event.reserve_fees_changed asset fees))

  unfoldable pub set_stablecoin_debt_rate_e18 :
      Env → Session → AccountId → ℕ → Result LendingPoolError Session
  unfolding ensure_has_role
  set_stablecoin_debt_rate_e18 env g asset rate = do
    ensure_has_role stablecoin_rate_admin env.caller
    s ← account_for_stablecoin_debt_rate_e18_change g.storage asset rate
    ok (with_event g s (Event.stablecoin_debt_rate_changed asset rate))

  unfoldable pub add_market_rule : Env → Session → MarketRule → Result LendingPoolError Session
  unfolding ensure_has_role
  add_market_rule env g rule = do
    ensure_has_role parameters_admin env.caller
    validate_new_rules rule
    (s, rule_id) ← account_for_add_market_rule g.storage rule
    assets ← get_all_registered_assets s
    events ← asset_rules_events rule_id assets 0 rule
    ok (record g { storage = s; events = g.events ++ events })

  unfoldable pub modify_asset_rule :
      Env → Session → ℕ → AccountId → AssetRules → Result LendingPoolError Session
  unfolding ensure_has_role
  modify_asset_rule env g rule_id asset rules = do
    ensure_has_role parameters_admin env.caller
    s ← account_for_asset_rule_change g.storage rule_id asset rules
    ok (with_event g s (Event.asset_rules_changed rule_id asset rules))

  -- The session and the incomes; without a list of assets, those of all registered assets.
  unfoldable pub take_protocol_income :
      ⦃t : Tokens⦄
      → Env
      → Session
      → Option (List AccountId)
      → AccountId
      → Result LendingPoolError (Session × List (AccountId × ℕ))
  unfolding ensure_has_role
  take_protocol_income env g assets to = do
    ensure_has_role treasury env.caller
    chosen ← elim assets [ some list ↦ ok list | none ↦ get_all_registered_assets g.storage ]
    (s, incomes) ← take_protocol_income_of g.storage chosen
    (calls, events) ← pay_incomes s to incomes g.calls g.events
    ok (record { storage = s; calls = calls; events = events }, incomes)
