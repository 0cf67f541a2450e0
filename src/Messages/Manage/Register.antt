-- ===== src/Messages/Manage/Register.antt =====
-- `register_asset` of manage.rs, and the instantiation of the abacus tokens that it makes.
use Prim.Native.String.{String}
use Prim.Native.String
use abacus_protocol.Base.{
  ℕ, ◌^◌, [], ◌∷◌, ◌++◌, List, Option, none, some, Result, ok, ◌>>=◌, ◌>>◌, refuse_if, unwrap, ltb,
  try_from, u128_mod, Option,
}
use abacus_protocol.Errors.{LendingPoolError, deposit_fee_too_high}
use abacus_protocol.Library.InterestRate.{InterestRateModel, InterestRateModelParams, new_model}
use abacus_protocol.Library.Reserve.{default_reserve}
use abacus_protocol.Library.Restrictions.{ReserveRestrictions}
use abacus_protocol.Library.Indexes.{new_fees}
use abacus_protocol.Library.AssetRules.{AssetRules}
use abacus_protocol.Pool.Storage.{AccountId, ReserveAbacusTokens}
use abacus_protocol.Pool.Management.{
  account_for_register_asset, account_for_set_abacus_tokens, account_for_asset_rule_change,
}
use abacus_protocol.Messages.Session.{Env, Event, Session, SetReserveFeesArgs}
use abacus_protocol.Messages.Roles.{AccessControl, ensure_has_role, asset_listing_admin}

-- `instantiate_contract_v1` with the arguments of the token's `new` and a code hash; it is salted
-- with the underlying asset. A failure of it is a panic.
pub record Instantiation : Type 0 where
  pub instantiate :
      ℕ → String → String → ℕ → AccountId → AccountId → Result LendingPoolError AccountId

-- What is registered, but for the asset.
pub record Listing : Type 0 where
  pub a_token_code_hash : ℕ
  pub v_token_code_hash : ℕ
  pub name : String
  pub symbol : String
  pub decimals : ℕ
  pub asset_rules : AssetRules
  pub reserve_restrictions : ReserveRestrictions
  pub reserve_fees : SetReserveFeesArgs
  pub interest_rate_model_params : Option InterestRateModelParams

module _ ⦃i : Instantiation⦄ where
  unfoldable pub instantiate_a_token_contract :
      Env → ℕ → AccountId → String → String → ℕ → Result LendingPoolError AccountId
  instantiate_a_token_contract env code_hash asset name symbol decimals =
      i.instantiate code_hash (String.◌++◌ "Abax Deposit " name) (String.◌++◌ "a" symbol) decimals
        env.account_id asset

  unfoldable pub instantiate_v_token_contract :
      Env → ℕ → AccountId → String → String → ℕ → Result LendingPoolError AccountId
  instantiate_v_token_contract env code_hash asset name symbol decimals =
      i.instantiate code_hash (String.◌++◌ "Abax Variable Debt " name) (String.◌++◌ "v" symbol)
        decimals env.account_id asset

unfoldable pub model_of : Option InterestRateModelParams → ℕ → Option InterestRateModel
unfolding new_model
model_of none timestamp = none
model_of (some params) timestamp = some (new_model params timestamp)

abbrev pub model_events : AccountId → Option InterestRateModelParams → List Event
model_events asset none = []
model_events asset (some params) = Event.reserve_interest_rate_model_changed asset params ∷ []

-- The events of a registration, in their order.
abbrev pub registered_events : AccountId → Listing → ReserveAbacusTokens → List Event
registered_events asset l tokens =
    Event.asset_registered asset l.name l.symbol l.decimals l.a_token_code_hash l.v_token_code_hash
        tokens.a_token_address tokens.v_token_address
      ∷ model_events asset l.interest_rate_model_params
    ++ Event.reserve_restrictions_changed asset l.reserve_restrictions
      ∷ Event.asset_rules_changed 0 asset l.asset_rules
      ∷ Event.reserve_fees_changed asset l.reserve_fees
      ∷ []

module _ ⦃a : AccessControl⦄ ⦃i : Instantiation⦄ where
  unfoldable pub register_asset :
      Env → Session → AccountId → Listing → Result LendingPoolError Session
  unfolding ensure_has_role model_of instantiate_a_token_contract instantiate_v_token_contract
  register_asset env g asset l = do
    ensure_has_role asset_listing_admin env.caller
    refuse_if (ltb 1000000 l.reserve_fees.deposit_fee_e6) deposit_fee_too_high
    decimal_multiplier ← unwrap (try_from u128_mod (10 ^ l.decimals))
    s ←
        account_for_register_asset g.storage asset default_reserve l.reserve_restrictions
          decimal_multiplier (new_fees l.reserve_fees.deposit_fee_e6 l.reserve_fees.debt_fee_e6)
          (model_of l.interest_rate_model_params env.block_timestamp) env.block_timestamp
    a_token_address ←
        instantiate_a_token_contract env l.a_token_code_hash asset l.name l.symbol l.decimals
    v_token_address ←
        instantiate_v_token_contract env l.v_token_code_hash asset l.name l.symbol l.decimals
    let tokens : ReserveAbacusTokens = record {
      a_token_address = a_token_address;
      v_token_address = v_token_address;
    }
    s' ← account_for_set_abacus_tokens s asset tokens
    s'' ← account_for_asset_rule_change s' 0 asset l.asset_rules
    ok (record g { storage = s''; events = g.events ++ registered_events asset l tokens })
