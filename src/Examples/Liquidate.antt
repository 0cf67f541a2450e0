-- ===== src/Examples/Liquidate.antt =====
-- The message of a liquidation, applied.
use abacus_protocol.Base.{
  ℕ, ◌+◌, ◌*◌, ◌≤◌, ◌≡◌, refl, [], ◌∷◌, Option, none, some, Result, ok, err, panic, Ensures,
}
use abacus_protocol.Errors.{LendingPoolError}
use abacus_protocol.Library.MulDiv.{exact, exact-IsMulDiv}
use abacus_protocol.Library.Math.{e18}
use abacus_protocol.Pool.Storage.{Oracles}
use abacus_protocol.Pool.Power.{ensure_collateralized_by_account}
use abacus_protocol.Messages.Session.{Session}
use abacus_protocol.Messages.Payments.{taken_from}
use abacus_protocol.Messages.Liquidate.{liquidate}
use abacus_protocol.Messages.Liquidate.Terms.{liquidate_lem}
use abacus_protocol.Examples.Messages.{env, accepting, session}

-- Asset 200 has become five times as dear as asset 100.
abbrev dear : Oracles
dear = record {
  get_latest_prices = λ provider assets. ok (e18 ∷ 5000000000000000000 ∷ []);
  get_fee_reductions = λ provider account. (0, 0);
  get_flash_loan_fee_reduction = λ provider account. 0;
}

abbrev liquidation : Result LendingPoolError (Session × (ℕ × ℕ))
liquidation =
    liquidate ⦃p = exact⦄ ⦃o = dear⦄ ⦃t = accepting⦄ env session 8 200 100 5000 5000000000000000000

abbrev amounts_in : Result LendingPoolError (Session × (ℕ × ℕ)) → Option (ℕ × ℕ)
amounts_in (ok (g, amounts)) = some amounts
amounts_in (err e) = none
amounts_in panic = none

liquidation_accepted : amounts_in liquidation ≡ some (5000, 27500)
unfolding abacus_protocol.Pool.Lending.account_for_account_actions
    abacus_protocol.Pool.Lending.account_for_each
    abacus_protocol.Pool.Lending.account_for_account_action
    abacus_protocol.Pool.Storage.get_account_data_entry_mut
    abacus_protocol.Pool.Storage.get_account_datas abacus_protocol.Pool.Lending.check_after
    abacus_protocol.Pool.Reserve.Actions.account_for_reserve_action
    abacus_protocol.Pool.Reserve.Actions.open_reserve
    abacus_protocol.Pool.Snapshot.store_utilization_rate_snapshot
    abacus_protocol.Library.Reserve.current_utilization_rate_e6
    abacus_protocol.Library.Indexes.update abacus_protocol.Library.Indexes.grown_deposit_index
    abacus_protocol.Library.Math.e18_mul_e0_to_e18
    abacus_protocol.Library.Math.e18_mul_e18_to_e18_rdown
    abacus_protocol.Library.Indexes.grown_debt_index
    abacus_protocol.Library.Math.e18_mul_e18_to_e18_rup
    abacus_protocol.Pool.Reserve.Actions.account_for_actions
    abacus_protocol.Pool.Reserve.Actions.account_for_action abacus_protocol.Base.Bits.bit_at
    abacus_protocol.Base.Bits.clear_bit abacus_protocol.Base.Bits.clear_bit_at
    abacus_protocol.Base.Bits.set_bit abacus_protocol.Library.Account.accumulate_account_interest
    abacus_protocol.Library.Account.accumulate_debt
    abacus_protocol.Library.Account.accumulate_deposit
    abacus_protocol.Library.Account.decrease_account_debt
    abacus_protocol.Library.Account.decrease_account_deposit abacus_protocol.Library.Account.fee_on
    abacus_protocol.Library.Account.increase_account_debt
    abacus_protocol.Library.Account.increase_account_deposit
    abacus_protocol.Library.Indexes.increase_earned_fee
    abacus_protocol.Library.InterestRate.utilization_rate_to_interest_rate_e18
    abacus_protocol.Library.Math.calculate_asset_amount_value_e8
    abacus_protocol.Library.Math.e0_mul_e18_div_e18_to_e0_rdown
    abacus_protocol.Library.Math.e0_mul_e18_div_e18_to_e0_rup
    abacus_protocol.Library.Math.e0_mul_e6_to_e0_rup
    abacus_protocol.Library.Math.e18_mul_e18_div_e18_to_e18_rdown
    abacus_protocol.Library.Math.e8_mul_e6_to_e6_rdown abacus_protocol.Library.Reserve.add_interests
    abacus_protocol.Library.Reserve.decrease_total_debt
    abacus_protocol.Library.Reserve.decrease_total_deposit
    abacus_protocol.Library.Reserve.ensure_activated
    abacus_protocol.Library.Reserve.ensure_not_frozen
    abacus_protocol.Library.Reserve.increase_total_debt
    abacus_protocol.Library.Reserve.increase_total_deposit
    abacus_protocol.Library.Reserve.recalculate_current_rates
    abacus_protocol.Library.Restrictions.ensure_debt_exceeds_minimum
    abacus_protocol.Library.Restrictions.ensure_max_total_debt_not_reached
    abacus_protocol.Library.Restrictions.ensure_max_total_deposit_not_reached
    abacus_protocol.Library.TimeWeighted.next abacus_protocol.Pool.Lending.check_progress
    abacus_protocol.Pool.Power.add_asset abacus_protocol.Pool.Power.add_power
    abacus_protocol.Pool.Power.calculate_lending_power_e6 abacus_protocol.Pool.Power.coefficient_of
    abacus_protocol.Pool.Power.ensure_collateralized
    abacus_protocol.Pool.Power.ensure_collateralized_from_raw abacus_protocol.Pool.Power.power_from
    abacus_protocol.Pool.Power.power_step abacus_protocol.Pool.Reserve.Actions.account_at
    abacus_protocol.Pool.Reserve.Actions.recalculated abacus_protocol.Pool.Reserve.Actions.update_at
    abacus_protocol.Pool.Reserve.account_for_borrow abacus_protocol.Pool.Reserve.account_for_deposit
    abacus_protocol.Pool.Reserve.account_for_repay abacus_protocol.Pool.Reserve.account_for_withdraw
    abacus_protocol.Pool.Reserve.accrue abacus_protocol.Pool.Storage.asset_id
    abacus_protocol.Pool.Storage.assets_from abacus_protocol.Pool.Storage.get_account_config
    abacus_protocol.Pool.Storage.get_all_registered_assets
    abacus_protocol.Pool.Storage.get_assets_prices_e18
    abacus_protocol.Pool.Storage.get_decimal_multiplier
    abacus_protocol.Pool.Storage.get_fee_reductions_of_account
    abacus_protocol.Pool.Storage.get_market_rule abacus_protocol.Pool.Storage.get_reserve_data
    abacus_protocol.Pool.Storage.get_reserve_indexes_and_fees
    abacus_protocol.Pool.Storage.get_reserve_restrictions
    abacus_protocol.Library.Math.calculate_amount_to_take
    abacus_protocol.Messages.Internal.emit_abacus_token_transfer_event
    abacus_protocol.Messages.Internal.emit_abacus_token_transfer_events
    abacus_protocol.Messages.Internal.magnitude
    abacus_protocol.Messages.Internal.transfer_event_data
    abacus_protocol.Messages.Internal.transfer_events_data
    abacus_protocol.Messages.Internal.transfer_in
    abacus_protocol.Messages.Liquidate.mirror_liquidation abacus_protocol.Messages.Session.invoke
    abacus_protocol.Pool.Liquidation.account_for_liquidate
    abacus_protocol.Pool.Liquidation.account_for_repayment
    abacus_protocol.Pool.Liquidation.account_for_taking
    abacus_protocol.Pool.Liquidation.amount_at_prices
    abacus_protocol.Pool.Liquidation.calculate_liquidated_amount_and_ensure_collateralized
    ensure_collateralized_by_account liquidate
liquidation_accepted = refl

liquidate_lem_example :
    Ensures
      (λ (g', (repaid, taken)).
        ((e : LendingPoolError) × (ensure_collateralized_by_account ⦃p = exact⦄ ⦃o = dear⦄
              session.storage 8
            ≡ err e))
        × (repaid ≤ 5000)
        × (5000000000000000000 * repaid ≤ taken * e18)
        × (taken_from 200 7 g'.calls ≡ taken_from 200 7 session.calls + repaid))
      (liquidate ⦃p = exact⦄ ⦃o = dear⦄ ⦃t = accepting⦄ env session 8 200 100 5000
        5000000000000000000)
liquidate_lem_example =
    liquidate_lem ⦃p = exact⦄ ⦃o = dear⦄ ⦃t = accepting⦄ exact-IsMulDiv env session 8 200 100 5000
      5000000000000000000
