-- ===== src/Examples/Contract.antt =====
-- The theorems on the tokens and the contract, applied.
use mathlib.Core.Path.{subst}
use abacus_protocol.Base.{
  Ensures, ℕ, ◌+◌, ◌≡◌, ◌≢◌, ◌⊎◌, refl, true, false, List, [], ◌∷◌, Option, none, some, Result, ok,
  err, panic, arith, inl, inr,
}
use abacus_protocol.Errors.{LendingPoolError, Psp22Error, access_control_error, missing_role}
use abacus_protocol.Library.MulDiv.{exact}
use abacus_protocol.Pool.Storage.{AccountId}
use abacus_protocol.Pool.Power.{ensure_collateralized_by_account}
use abacus_protocol.Messages.Session.{Env, Session}
use abacus_protocol.Messages.Manage.Register.{Listing}
use abacus_protocol.Contract.Message.{
  LendingPool, ManageMessage, UserMessage, Surroundings, new_pool,
}
use abacus_protocol.Contract.Dispatch.{execute, execute_manage}
use abacus_protocol.Contract.Access.{execute_manage-missing_role}
use abacus_protocol.Contract.Registrar.{
  AccountRegistrar, new_registrar, ensure_registered, written_back,
}
use abacus_protocol.Contract.Reach.{Reach, IsSound, reachable-IsSound}
use abacus_protocol.AbacusToken.State.{
  AbacusToken, new_token, allowance, increase_allowance_from_to, decrease_allowance_from_to,
  insert_allowance,
}
use abacus_protocol.AbacusToken.AToken.{transfer_from}
use abacus_protocol.AbacusToken.Allowance.{increase-decrease, transfer_from_lem}
use abacus_protocol.Examples.World.{prices, rules, restrictions}
use abacus_protocol.Examples.Messages.{env, accepting, session}

-- Everyone has each role, and the tokens are instantiated at the accounts 301 and on.
abbrev around : Surroundings
around = record {
  env = env;
  oracles = prices;
  tokens = accepting;
  access_control = record { has_role = λ role account. true };
  instantiation = record { instantiate = λ hash name symbol decimals pool asset. ok (300 + hash) };
  gas = 61;
}

abbrev closed : Surroundings
closed = record around { access_control = record { has_role = λ role account. false } }

abbrev listing : Listing
listing = record {
  a_token_code_hash = 1;
  v_token_code_hash = 2;
  name = "Tether";
  symbol = "USDT";
  decimals = 6;
  asset_rules = rules;
  reserve_restrictions = restrictions;
  reserve_fees = record { debt_fee_e6 = 0; deposit_fee_e6 = 100000 };
  interest_rate_model_params = none;
}

abbrev pool_or : Result LendingPoolError LendingPool → LendingPool
pool_or (ok c) = c
pool_or (err e) = new_pool
pool_or panic = new_pool

-- A market rule is added, an asset is registered, and the account 7 makes a deposit.
abbrev ruled : LendingPool
ruled = pool_or (execute_manage ⦃p = exact⦄ around new_pool (ManageMessage.add_market_rule []))

abbrev registered : LendingPool
registered =
    pool_or (execute_manage ⦃p = exact⦄ around ruled (ManageMessage.register_asset 100 listing))

abbrev deposited : LendingPool
deposited = pool_or (execute ⦃p = exact⦄ around registered (UserMessage.deposit 100 7 5000))

ruled_accepted :
    execute_manage ⦃p = exact⦄ around new_pool (ManageMessage.add_market_rule []) ≡ ok ruled
unfolding abacus_protocol.Messages.Manage.add_market_rule
    abacus_protocol.Messages.Manage.asset_rules_events
    abacus_protocol.Messages.Manage.validate_new_rules
    abacus_protocol.Pool.Management.account_for_add_market_rule
    abacus_protocol.Pool.Storage.get_all_registered_assets execute_manage
ruled_accepted = refl

registered_accepted :
    execute_manage ⦃p = exact⦄ around ruled (ManageMessage.register_asset 100 listing)
    ≡ ok registered
unfolding abacus_protocol.Library.AssetRules.validate_new_rule
    abacus_protocol.Messages.Manage.Register.register_asset
    abacus_protocol.Messages.Manage.add_market_rule
    abacus_protocol.Messages.Manage.asset_rules_events
    abacus_protocol.Messages.Manage.validate_new_rules
    abacus_protocol.Pool.Management.account_for_add_market_rule
    abacus_protocol.Pool.Management.account_for_asset_rule_change
    abacus_protocol.Pool.Management.account_for_register_asset
    abacus_protocol.Pool.Management.account_for_set_abacus_tokens
    abacus_protocol.Pool.Storage.get_all_registered_assets execute_manage
registered_accepted = refl

deposited_accepted :
    execute ⦃p = exact⦄ around registered (UserMessage.deposit 100 7 5000) ≡ ok deposited
unfolding abacus_protocol.Pool.Lending.account_for_account_actions
    abacus_protocol.Pool.Lending.account_for_each
    abacus_protocol.Pool.Lending.account_for_account_action
    abacus_protocol.Pool.Storage.get_account_data_entry_mut
    abacus_protocol.Pool.Storage.get_account_datas abacus_protocol.Pool.Lending.check_after
    abacus_protocol.Pool.Reserve.Actions.account_for_reserve_action
    abacus_protocol.Pool.Reserve.Actions.open_reserve
    abacus_protocol.Pool.Snapshot.store_utilization_rate_snapshot
    abacus_protocol.Library.Reserve.current_utilization_rate_e6
    abacus_protocol.Library.Indexes.update abacus_protocol.Library.Indexes.grown_deposit_index
    abacus_protocol.Library.Math.e18_mul_e0_to_e18
    abacus_protocol.Library.Math.e18_mul_e18_to_e18_rdown
    abacus_protocol.Library.Indexes.grown_debt_index
    abacus_protocol.Library.Math.e18_mul_e18_to_e18_rup
    abacus_protocol.Pool.Reserve.Actions.account_for_actions
    abacus_protocol.Pool.Reserve.Actions.account_for_action abacus_protocol.Base.Bits.bit_at
    abacus_protocol.Base.Bits.clear_bit abacus_protocol.Base.Bits.clear_bit_at
    abacus_protocol.Base.Bits.set_bit abacus_protocol.Library.Account.accumulate_account_interest
    abacus_protocol.Library.Account.accumulate_debt
    abacus_protocol.Library.Account.accumulate_deposit
    abacus_protocol.Library.Account.decrease_account_debt
    abacus_protocol.Library.Account.decrease_account_deposit abacus_protocol.Library.Account.fee_on
    abacus_protocol.Library.Account.increase_account_debt
    abacus_protocol.Library.Account.increase_account_deposit
    abacus_protocol.Library.Indexes.increase_earned_fee
    abacus_protocol.Library.InterestRate.utilization_rate_to_interest_rate_e18
    abacus_protocol.Library.Math.calculate_asset_amount_value_e8
    abacus_protocol.Library.Math.e0_mul_e18_div_e18_to_e0_rdown
    abacus_protocol.Library.Math.e0_mul_e18_div_e18_to_e0_rup
    abacus_protocol.Library.Math.e0_mul_e6_to_e0_rup
    abacus_protocol.Library.Math.e18_mul_e18_div_e18_to_e18_rdown
    abacus_protocol.Library.Math.e8_mul_e6_to_e6_rdown abacus_protocol.Library.Reserve.add_interests
    abacus_protocol.Library.Reserve.decrease_total_debt
    abacus_protocol.Library.Reserve.decrease_total_deposit
    abacus_protocol.Library.Reserve.ensure_activated
    abacus_protocol.Library.Reserve.ensure_not_frozen
    abacus_protocol.Library.Reserve.increase_total_debt
    abacus_protocol.Library.Reserve.increase_total_deposit
    abacus_protocol.Library.Reserve.recalculate_current_rates
    abacus_protocol.Library.Restrictions.ensure_debt_exceeds_minimum
    abacus_protocol.Library.Restrictions.ensure_max_total_debt_not_reached
    abacus_protocol.Library.Restrictions.ensure_max_total_deposit_not_reached
    abacus_protocol.Library.TimeWeighted.next abacus_protocol.Pool.Lending.check_progress
    abacus_protocol.Pool.Power.add_asset abacus_protocol.Pool.Power.add_power
    abacus_protocol.Pool.Power.calculate_lending_power_e6 abacus_protocol.Pool.Power.coefficient_of
    abacus_protocol.Pool.Power.ensure_collateralized
    abacus_protocol.Pool.Power.ensure_collateralized_from_raw abacus_protocol.Pool.Power.power_from
    abacus_protocol.Pool.Power.power_step abacus_protocol.Pool.Reserve.Actions.account_at
    abacus_protocol.Pool.Reserve.Actions.recalculated abacus_protocol.Pool.Reserve.Actions.update_at
    abacus_protocol.Pool.Reserve.account_for_borrow abacus_protocol.Pool.Reserve.account_for_deposit
    abacus_protocol.Pool.Reserve.account_for_repay abacus_protocol.Pool.Reserve.account_for_withdraw
    abacus_protocol.Pool.Reserve.accrue abacus_protocol.Pool.Storage.asset_id
    abacus_protocol.Pool.Storage.assets_from abacus_protocol.Pool.Storage.get_account_config
    abacus_protocol.Pool.Storage.get_all_registered_assets
    abacus_protocol.Pool.Storage.get_assets_prices_e18
    abacus_protocol.Pool.Storage.get_decimal_multiplier
    abacus_protocol.Pool.Storage.get_fee_reductions_of_account
    abacus_protocol.Pool.Storage.get_market_rule abacus_protocol.Pool.Storage.get_reserve_data
    abacus_protocol.Pool.Storage.get_reserve_indexes_and_fees
    abacus_protocol.Pool.Storage.get_reserve_restrictions
    abacus_protocol.Library.AssetRules.validate_new_rule
    abacus_protocol.Messages.Accounts.account_for_one abacus_protocol.Messages.Accounts.deposit
    abacus_protocol.Messages.Internal.check_amount_not_zero
    abacus_protocol.Messages.Manage.Register.register_asset
    abacus_protocol.Messages.Manage.add_market_rule
    abacus_protocol.Messages.Manage.asset_rules_events
    abacus_protocol.Messages.Manage.validate_new_rules
    abacus_protocol.Pool.Management.account_for_add_market_rule
    abacus_protocol.Pool.Management.account_for_asset_rule_change
    abacus_protocol.Pool.Management.account_for_register_asset
    abacus_protocol.Pool.Management.account_for_set_abacus_tokens execute execute_manage
    abacus_protocol.Messages.Accounts.mirror_deposit
    abacus_protocol.Messages.Internal.emit_abacus_token_transfer_event
    abacus_protocol.Messages.Internal.transfer_in abacus_protocol.Messages.Session.invoke
deposited_accepted = refl

path : Reach ⦃p = exact⦄ new_pool deposited
path =
    Reach.message around (UserMessage.deposit 100 7 5000)
      (Reach.management around (ManageMessage.register_asset 100 listing)
        (Reach.management around (ManageMessage.add_market_rule []) Reach.done ruled_accepted)
        registered_accepted)
      deposited_accepted

reachable-IsSound_example : IsSound deposited
reachable-IsSound_example = reachable-IsSound ⦃p = exact⦄ deposited path

execute_manage-missing_role_example :
    execute_manage ⦃p = exact⦄ closed new_pool (ManageMessage.set_flash_loan_fee_e6 5)
    ≡ err (access_control_error missing_role)
execute_manage-missing_role_example =
    execute_manage-missing_role ⦃p = exact⦄ closed new_pool (ManageMessage.set_flash_loan_fee_e6 5)
      refl

-- An a token with an allowance of 900 for the account 7 on the tokens of the account 8.
abbrev token : AbacusToken
token = insert_allowance (new_token 1 100) 8 7 900

-- The token's account is 301.
abbrev token_env : Env
token_env = record env { account_id = 301 }

abbrev raised : AbacusToken
raised = insert_allowance token 8 7 950

raised_accepted : increase_allowance_from_to token 8 7 50 ≡ ok raised
unfolding increase_allowance_from_to
raised_accepted = refl

increase-decrease_example :
    (t : AbacusToken) × (decrease_allowance_from_to raised 8 7 50 ≡ ok t)
    × ((o s : AccountId) → allowance t o s ≡ allowance token o s)
increase-decrease_example = subst (Ensures _) raised_accepted (increase-decrease token 8 7 50)

abbrev moving : Result Psp22Error (AbacusToken × Session)
moving = transfer_from ⦃p = exact⦄ ⦃o = prices⦄ ⦃c = accepting⦄ token_env token session 8 9 900

abbrev moved : AbacusToken × Session
moved = elim moving [ ok r ↦ r | err e ↦ (token, session) | panic ↦ (token, session) ]

moved_accepted : moving ≡ ok moved
unfolding abacus_protocol.Pool.Lending.account_for_account_actions
    abacus_protocol.Pool.Lending.account_for_each
    abacus_protocol.Pool.Lending.account_for_account_action
    abacus_protocol.Pool.Storage.get_account_data_entry_mut
    abacus_protocol.Pool.Storage.get_account_datas abacus_protocol.Pool.Lending.check_after
    abacus_protocol.Pool.Reserve.Actions.account_for_reserve_action
    abacus_protocol.Pool.Reserve.Actions.open_reserve
    abacus_protocol.Pool.Snapshot.store_utilization_rate_snapshot
    abacus_protocol.Library.Reserve.current_utilization_rate_e6
    abacus_protocol.Library.Indexes.update abacus_protocol.Library.Indexes.grown_deposit_index
    abacus_protocol.Library.Math.e18_mul_e0_to_e18
    abacus_protocol.Library.Math.e18_mul_e18_to_e18_rdown
    abacus_protocol.Library.Indexes.grown_debt_index
    abacus_protocol.Library.Math.e18_mul_e18_to_e18_rup
    abacus_protocol.Pool.Reserve.Actions.account_for_actions
    abacus_protocol.Pool.Reserve.Actions.account_for_action abacus_protocol.Base.Bits.bit_at
    abacus_protocol.Base.Bits.clear_bit abacus_protocol.Base.Bits.clear_bit_at
    abacus_protocol.Base.Bits.set_bit abacus_protocol.Library.Account.accumulate_account_interest
    abacus_protocol.Library.Account.accumulate_debt
    abacus_protocol.Library.Account.accumulate_deposit
    abacus_protocol.Library.Account.decrease_account_debt
    abacus_protocol.Library.Account.decrease_account_deposit abacus_protocol.Library.Account.fee_on
    abacus_protocol.Library.Account.increase_account_debt
    abacus_protocol.Library.Account.increase_account_deposit
    abacus_protocol.Library.Indexes.increase_earned_fee
    abacus_protocol.Library.InterestRate.utilization_rate_to_interest_rate_e18
    abacus_protocol.Library.Math.calculate_asset_amount_value_e8
    abacus_protocol.Library.Math.e0_mul_e18_div_e18_to_e0_rdown
    abacus_protocol.Library.Math.e0_mul_e18_div_e18_to_e0_rup
    abacus_protocol.Library.Math.e0_mul_e6_to_e0_rup
    abacus_protocol.Library.Math.e18_mul_e18_div_e18_to_e18_rdown
    abacus_protocol.Library.Math.e8_mul_e6_to_e6_rdown abacus_protocol.Library.Reserve.add_interests
    abacus_protocol.Library.Reserve.decrease_total_debt
    abacus_protocol.Library.Reserve.decrease_total_deposit
    abacus_protocol.Library.Reserve.ensure_activated
    abacus_protocol.Library.Reserve.ensure_not_frozen
    abacus_protocol.Library.Reserve.increase_total_debt
    abacus_protocol.Library.Reserve.increase_total_deposit
    abacus_protocol.Library.Reserve.recalculate_current_rates
    abacus_protocol.Library.Restrictions.ensure_debt_exceeds_minimum
    abacus_protocol.Library.Restrictions.ensure_max_total_debt_not_reached
    abacus_protocol.Library.Restrictions.ensure_max_total_deposit_not_reached
    abacus_protocol.Library.TimeWeighted.next abacus_protocol.Pool.Lending.check_progress
    abacus_protocol.Pool.Power.add_asset abacus_protocol.Pool.Power.add_power
    abacus_protocol.Pool.Power.calculate_lending_power_e6 abacus_protocol.Pool.Power.coefficient_of
    abacus_protocol.Pool.Power.ensure_collateralized
    abacus_protocol.Pool.Power.ensure_collateralized_from_raw abacus_protocol.Pool.Power.power_from
    abacus_protocol.Pool.Power.power_step abacus_protocol.Pool.Reserve.Actions.account_at
    abacus_protocol.Pool.Reserve.Actions.recalculated abacus_protocol.Pool.Reserve.Actions.update_at
    abacus_protocol.Pool.Reserve.account_for_borrow abacus_protocol.Pool.Reserve.account_for_deposit
    abacus_protocol.Pool.Reserve.account_for_repay abacus_protocol.Pool.Reserve.account_for_withdraw
    abacus_protocol.Pool.Reserve.accrue abacus_protocol.Pool.Storage.asset_id
    abacus_protocol.Pool.Storage.assets_from abacus_protocol.Pool.Storage.get_account_config
    abacus_protocol.Pool.Storage.get_all_registered_assets
    abacus_protocol.Pool.Storage.get_assets_prices_e18
    abacus_protocol.Pool.Storage.get_decimal_multiplier
    abacus_protocol.Pool.Storage.get_fee_reductions_of_account
    abacus_protocol.Pool.Storage.get_market_rule abacus_protocol.Pool.Storage.get_reserve_data
    abacus_protocol.Pool.Storage.get_reserve_indexes_and_fees
    abacus_protocol.Pool.Storage.get_reserve_restrictions
    abacus_protocol.Messages.Internal.check_amount_not_zero
    abacus_protocol.Messages.TokenInterface.emit_interests
    abacus_protocol.Messages.TokenInterface.transfer_deposit_from_to
    abacus_protocol.Pool.Storage.get_account_reserve_data
    abacus_protocol.Pool.Transfer.account_for_deposit_transfer_from_to
    ensure_collateralized_by_account transfer_from
moved_accepted = refl

transfer_from_lem_example :
    (ensure_collateralized_by_account ⦃p = exact⦄ ⦃o = prices⦄ moved.1.storage 8 ≡ ok tt)
    × (allowance moved.0 8 7 + 900 ≡ allowance token 8 7)
    × ((o s : AccountId) → (o ≢ 8) ⊎ (s ≢ 7) → allowance moved.0 o s ≡ allowance token o s)
transfer_from_lem_example =
    subst (Ensures _) moved_accepted
      (transfer_from_lem ⦃p = exact⦄ ⦃o = prices⦄ ⦃c = accepting⦄ token_env token session 8 9 900)

-- Account 7 is registered while a loan is open and account 8 after it: both have the counter 0.
abbrev registrar_or : Result LendingPoolError AccountRegistrar → AccountRegistrar
registrar_or (ok r) = r
registrar_or (err e) = new_registrar
registrar_or panic = new_registrar

abbrev after_loan : AccountRegistrar
after_loan = registrar_or (
    ensure_registered
      (written_back new_registrar (registrar_or (ensure_registered new_registrar 7))) 8)

counter_given_twice :
    (after_loan.account_to_counter 7 ≡ some 0)
    × (after_loan.account_to_counter 8 ≡ some 0)
    × (after_loan.counter_to_account 0 ≡ some 8)
unfolding ensure_registered written_back
counter_given_twice = (refl, refl, refl)
