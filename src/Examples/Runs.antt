-- ===== src/Examples/Runs.antt =====
-- Runs of the lending operations on the pool.
use abacus_protocol.Base.{ℕ, List, [], ◌∷◌, ◌≡◌, refl, Result, ok, err, panic}
use abacus_protocol.Library.MulDiv.{exact}
use abacus_protocol.Pool.Lending.{
  Action, Operation, account_for_account_actions, account_for_account_action, account_for_each,
  check_progress,
}
use abacus_protocol.Pool.Liquidation.{Liquidated, account_for_liquidate}
use abacus_protocol.Examples.World.{pool, prices}

-- The amounts of an accepted list of actions.
amounts_of : Action → Action → Action → List ℕ
amounts_of a b c =
    elim (account_for_account_actions ⦃p = exact⦄ ⦃o = prices⦄ pool 7 (a ∷ b ∷ c ∷ []) 10) [
      | ok (s, interests, amounts) ↦ amounts
      | err e ↦ []
      | panic ↦ []
    ]

taken_by : ℕ → List ℕ
taken_by amount = elim (account_for_liquidate ⦃p = exact⦄ ⦃o = prices⦄ pool 7 8 200 100 amount 10) [
  | ok r ↦ r.amount_repaid ∷ r.amount_taken ∷ []
  | err e ↦ []
  | panic ↦ []
]

-- A repayment stops at the debt.
amounts_accepted :
    amounts_of
      (record { op = Operation.borrow; asset = 200; amount = 1000 })
      (record { op = Operation.withdraw; asset = 100; amount = 500 })
      (record { op = Operation.repay; asset = 200; amount = 5000 })
    ≡ 1000 ∷ 500 ∷ 1000 ∷ []
unfolding amounts_of account_for_account_actions account_for_each account_for_account_action
    abacus_protocol.Pool.Storage.get_account_data_entry_mut
    abacus_protocol.Pool.Storage.get_account_datas abacus_protocol.Pool.Lending.check_after
    abacus_protocol.Pool.Reserve.Actions.account_for_reserve_action
    abacus_protocol.Pool.Reserve.Actions.open_reserve
    abacus_protocol.Pool.Snapshot.store_utilization_rate_snapshot
    abacus_protocol.Library.Reserve.current_utilization_rate_e6
    abacus_protocol.Library.Indexes.update abacus_protocol.Library.Indexes.grown_deposit_index
    abacus_protocol.Library.Math.e18_mul_e0_to_e18
    abacus_protocol.Library.Math.e18_mul_e18_to_e18_rdown
    abacus_protocol.Library.Indexes.grown_debt_index
    abacus_protocol.Library.Math.e18_mul_e18_to_e18_rup
    abacus_protocol.Pool.Reserve.Actions.account_for_actions
    abacus_protocol.Pool.Reserve.Actions.account_for_action abacus_protocol.Base.Bits.bit_at
    abacus_protocol.Base.Bits.clear_bit abacus_protocol.Base.Bits.clear_bit_at
    abacus_protocol.Base.Bits.set_bit abacus_protocol.Library.Account.accumulate_account_interest
    abacus_protocol.Library.Account.accumulate_debt
    abacus_protocol.Library.Account.accumulate_deposit
    abacus_protocol.Library.Account.decrease_account_debt
    abacus_protocol.Library.Account.decrease_account_deposit abacus_protocol.Library.Account.fee_on
    abacus_protocol.Library.Account.increase_account_debt
    abacus_protocol.Library.Account.increase_account_deposit
    abacus_protocol.Library.Indexes.increase_earned_fee
    abacus_protocol.Library.InterestRate.utilization_rate_to_interest_rate_e18
    abacus_protocol.Library.Math.calculate_asset_amount_value_e8
    abacus_protocol.Library.Math.e0_mul_e18_div_e18_to_e0_rdown
    abacus_protocol.Library.Math.e0_mul_e18_div_e18_to_e0_rup
    abacus_protocol.Library.Math.e0_mul_e6_to_e0_rup
    abacus_protocol.Library.Math.e18_mul_e18_div_e18_to_e18_rdown
    abacus_protocol.Library.Math.e8_mul_e6_to_e6_rdown abacus_protocol.Library.Reserve.add_interests
    abacus_protocol.Library.Reserve.decrease_total_debt
    abacus_protocol.Library.Reserve.decrease_total_deposit
    abacus_protocol.Library.Reserve.ensure_activated
    abacus_protocol.Library.Reserve.ensure_not_frozen
    abacus_protocol.Library.Reserve.increase_total_debt
    abacus_protocol.Library.Reserve.increase_total_deposit
    abacus_protocol.Library.Reserve.recalculate_current_rates
    abacus_protocol.Library.Restrictions.ensure_debt_exceeds_minimum
    abacus_protocol.Library.Restrictions.ensure_max_total_debt_not_reached
    abacus_protocol.Library.Restrictions.ensure_max_total_deposit_not_reached
    abacus_protocol.Library.TimeWeighted.next check_progress abacus_protocol.Pool.Power.add_asset
    abacus_protocol.Pool.Power.add_power abacus_protocol.Pool.Power.calculate_lending_power_e6
    abacus_protocol.Pool.Power.coefficient_of abacus_protocol.Pool.Power.ensure_collateralized
    abacus_protocol.Pool.Power.ensure_collateralized_from_raw abacus_protocol.Pool.Power.power_from
    abacus_protocol.Pool.Power.power_step abacus_protocol.Pool.Reserve.Actions.account_at
    abacus_protocol.Pool.Reserve.Actions.recalculated abacus_protocol.Pool.Reserve.Actions.update_at
    abacus_protocol.Pool.Reserve.account_for_borrow abacus_protocol.Pool.Reserve.account_for_deposit
    abacus_protocol.Pool.Reserve.account_for_repay abacus_protocol.Pool.Reserve.account_for_withdraw
    abacus_protocol.Pool.Reserve.accrue abacus_protocol.Pool.Storage.asset_id
    abacus_protocol.Pool.Storage.assets_from abacus_protocol.Pool.Storage.get_account_config
    abacus_protocol.Pool.Storage.get_all_registered_assets
    abacus_protocol.Pool.Storage.get_assets_prices_e18
    abacus_protocol.Pool.Storage.get_decimal_multiplier
    abacus_protocol.Pool.Storage.get_fee_reductions_of_account
    abacus_protocol.Pool.Storage.get_market_rule abacus_protocol.Pool.Storage.get_reserve_data
    abacus_protocol.Pool.Storage.get_reserve_indexes_and_fees
    abacus_protocol.Pool.Storage.get_reserve_restrictions
amounts_accepted = refl

taken_accepted : taken_by 5000 ≡ 5000 ∷ 5500 ∷ []
unfolding taken_by account_for_liquidate abacus_protocol.Pool.Liquidation.account_for_repayment
    abacus_protocol.Pool.Storage.get_account_datas
    abacus_protocol.Pool.Reserve.Actions.account_for_reserve_action
    abacus_protocol.Pool.Reserve.Actions.open_reserve
    abacus_protocol.Pool.Snapshot.store_utilization_rate_snapshot
    abacus_protocol.Library.Reserve.current_utilization_rate_e6
    abacus_protocol.Library.Indexes.update abacus_protocol.Library.Indexes.grown_deposit_index
    abacus_protocol.Library.Math.e18_mul_e0_to_e18
    abacus_protocol.Library.Math.e18_mul_e18_to_e18_rdown
    abacus_protocol.Library.Indexes.grown_debt_index
    abacus_protocol.Library.Math.e18_mul_e18_to_e18_rup
    abacus_protocol.Pool.Reserve.Actions.account_for_actions
    abacus_protocol.Pool.Reserve.Actions.account_for_action
    abacus_protocol.Pool.Reserve.Actions.account_at abacus_protocol.Pool.Reserve.account_for_repay
    abacus_protocol.Library.Reserve.ensure_activated abacus_protocol.Base.Bits.bit_at
    abacus_protocol.Base.Bits.clear_bit abacus_protocol.Base.Bits.clear_bit_at
    abacus_protocol.Base.Bits.set_bit abacus_protocol.Library.Account.accumulate_account_interest
    abacus_protocol.Library.Account.accumulate_debt
    abacus_protocol.Library.Account.accumulate_deposit
    abacus_protocol.Library.Account.decrease_account_debt
    abacus_protocol.Library.Account.decrease_account_deposit abacus_protocol.Library.Account.fee_on
    abacus_protocol.Library.Account.increase_account_debt
    abacus_protocol.Library.Account.increase_account_deposit
    abacus_protocol.Library.Indexes.increase_earned_fee
    abacus_protocol.Library.InterestRate.utilization_rate_to_interest_rate_e18
    abacus_protocol.Library.Math.calculate_amount_to_take
    abacus_protocol.Library.Math.e0_mul_e18_div_e18_to_e0_rdown
    abacus_protocol.Library.Math.e0_mul_e18_div_e18_to_e0_rup
    abacus_protocol.Library.Math.e0_mul_e6_to_e0_rup
    abacus_protocol.Library.Math.e18_mul_e18_div_e18_to_e18_rdown
    abacus_protocol.Library.Reserve.add_interests
    abacus_protocol.Library.Reserve.decrease_total_debt
    abacus_protocol.Library.Reserve.decrease_total_deposit
    abacus_protocol.Library.Reserve.ensure_not_frozen
    abacus_protocol.Library.Reserve.increase_total_debt
    abacus_protocol.Library.Reserve.increase_total_deposit
    abacus_protocol.Library.Reserve.recalculate_current_rates
    abacus_protocol.Library.Restrictions.ensure_debt_exceeds_minimum
    abacus_protocol.Library.Restrictions.ensure_max_total_debt_not_reached
    abacus_protocol.Library.Restrictions.ensure_max_total_deposit_not_reached
    abacus_protocol.Library.TimeWeighted.next abacus_protocol.Pool.Liquidation.account_for_taking
    abacus_protocol.Pool.Liquidation.amount_at_prices
    abacus_protocol.Pool.Liquidation.calculate_liquidated_amount_and_ensure_collateralized
    abacus_protocol.Pool.Liquidation.get_penalty abacus_protocol.Pool.Reserve.Actions.recalculated
    abacus_protocol.Pool.Reserve.Actions.update_at abacus_protocol.Pool.Reserve.account_for_borrow
    abacus_protocol.Pool.Reserve.account_for_deposit
    abacus_protocol.Pool.Reserve.account_for_withdraw abacus_protocol.Pool.Reserve.accrue
    abacus_protocol.Pool.Storage.asset_id abacus_protocol.Pool.Storage.assets_from
    abacus_protocol.Pool.Storage.get_account_config
    abacus_protocol.Pool.Storage.get_account_data_entry_mut
    abacus_protocol.Pool.Storage.get_all_registered_assets
    abacus_protocol.Pool.Storage.get_assets_prices_e18
    abacus_protocol.Pool.Storage.get_decimal_multiplier
    abacus_protocol.Pool.Storage.get_fee_reductions_of_account
    abacus_protocol.Pool.Storage.get_market_rule abacus_protocol.Pool.Storage.get_reserve_data
    abacus_protocol.Pool.Storage.get_reserve_indexes_and_fees
    abacus_protocol.Pool.Storage.get_reserve_restrictions
taken_accepted = refl
