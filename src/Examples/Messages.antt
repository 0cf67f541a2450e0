-- ===== src/Examples/Messages.antt =====
-- The theorems on the messages, applied.
use abacus_protocol.Base.{
  ℕ, ◌+◌, ◌*◌, ◌≤◌, ◌<◌, ◌^◌, ◌≡◌, ◌≢◌, refl, true, false, List, [], ◌∷◌, Option, none, some,
  Result, ok, err, panic, arith, Ensures, inl, inr,
}
use abacus_protocol.Errors.{LendingPoolError}
use abacus_protocol.Library.MulDiv.{exact, exact-IsMulDiv}
use abacus_protocol.Library.Restrictions.{AccountReserveData}
use abacus_protocol.Pool.Storage.{LendingPoolStorage, ReserveAbacusTokens}
use abacus_protocol.Pool.Power.{ensure_collateralized_by_account}
use abacus_protocol.Pool.Reserve.{Accounted, ReserveDataContext, accrue, account_for_repay}
use abacus_protocol.Pool.Reserve.Repayment.{account_for_repay-accepted}
use abacus_protocol.Pool.Lending.{Operation}
use abacus_protocol.Messages.Session.{Env, Session, Tokens, Call}
use abacus_protocol.Messages.Flash.{Receivers, flash_fee_part_e6, open_flash_loan, flash_loan}
use abacus_protocol.Messages.Payments.{paid_to, taken_from}
use abacus_protocol.Messages.Flash.Balance.{AreFees, flash_loan_lem}
use abacus_protocol.Messages.Bookkeeping.{Mirrors, deposit_in, debt_in, operate, operate-Mirrors}
use abacus_protocol.Examples.World.{pool, prices, later, borrower, borrower_config}

-- The account 7 sends a message to the pool, which is the account 1.
abbrev pub env : Env
env = record { caller = 7; account_id = 1; block_timestamp = 10 }

abbrev pub accepting : Tokens
accepting = record { answer = λ calls call. ok tt }

abbrev pub listed_tokens : ReserveAbacusTokens
listed_tokens = record { a_token_address = 301; v_token_address = 302 }

-- The pool with its tokens and a fee of 0.1% on flash loans.
abbrev pub session : Session
session = record {
  storage = record pool {
    reserve_abacus_tokens = λ k. some listed_tokens;
    flash_loan_fee_e6 = some 1000;
  };
  calls = [];
  events = [];
}

abbrev session_or : Result LendingPoolError Session → Session
session_or (ok g) = g
session_or (err e) = session
session_or panic = session

abbrev after_withdrawal : Session
after_withdrawal =
    session_or
      (operate ⦃p = exact⦄ ⦃o = prices⦄ ⦃t = accepting⦄ Operation.withdraw env session 100 7 1000)

withdrawal_accepted :
    (operate ⦃p = exact⦄ ⦃o = prices⦄ ⦃t = accepting⦄ Operation.withdraw env session 100 7 1000
      ≡ ok after_withdrawal)
    × (deposit_in after_withdrawal.storage 7 0 ≡ 99000)
    × (debt_in after_withdrawal.storage 7 0 ≡ 0)
unfolding abacus_protocol.Pool.Lending.account_for_account_actions
    abacus_protocol.Pool.Lending.account_for_each
    abacus_protocol.Pool.Lending.account_for_account_action
    abacus_protocol.Pool.Storage.get_account_data_entry_mut
    abacus_protocol.Pool.Storage.get_account_datas abacus_protocol.Pool.Lending.check_after
    abacus_protocol.Pool.Reserve.Actions.account_for_reserve_action
    abacus_protocol.Pool.Reserve.Actions.open_reserve
    abacus_protocol.Pool.Snapshot.store_utilization_rate_snapshot
    abacus_protocol.Library.Reserve.current_utilization_rate_e6
    abacus_protocol.Library.Indexes.update abacus_protocol.Library.Indexes.grown_deposit_index
    abacus_protocol.Library.Math.e18_mul_e0_to_e18
    abacus_protocol.Library.Math.e18_mul_e18_to_e18_rdown
    abacus_protocol.Library.Indexes.grown_debt_index
    abacus_protocol.Library.Math.e18_mul_e18_to_e18_rup
    abacus_protocol.Pool.Reserve.Actions.account_for_actions
    abacus_protocol.Pool.Reserve.Actions.account_for_action abacus_protocol.Base.Bits.bit_at
    abacus_protocol.Base.Bits.clear_bit abacus_protocol.Base.Bits.clear_bit_at
    abacus_protocol.Base.Bits.set_bit abacus_protocol.Library.Account.accumulate_account_interest
    abacus_protocol.Library.Account.accumulate_debt
    abacus_protocol.Library.Account.accumulate_deposit
    abacus_protocol.Library.Account.decrease_account_debt
    abacus_protocol.Library.Account.decrease_account_deposit abacus_protocol.Library.Account.fee_on
    abacus_protocol.Library.Account.increase_account_debt
    abacus_protocol.Library.Account.increase_account_deposit
    abacus_protocol.Library.Indexes.increase_earned_fee
    abacus_protocol.Library.InterestRate.utilization_rate_to_interest_rate_e18
    abacus_protocol.Library.Math.calculate_asset_amount_value_e8
    abacus_protocol.Library.Math.e0_mul_e18_div_e18_to_e0_rdown
    abacus_protocol.Library.Math.e0_mul_e18_div_e18_to_e0_rup
    abacus_protocol.Library.Math.e0_mul_e6_to_e0_rup
    abacus_protocol.Library.Math.e18_mul_e18_div_e18_to_e18_rdown
    abacus_protocol.Library.Math.e8_mul_e6_to_e6_rdown abacus_protocol.Library.Reserve.add_interests
    abacus_protocol.Library.Reserve.decrease_total_debt
    abacus_protocol.Library.Reserve.decrease_total_deposit
    abacus_protocol.Library.Reserve.ensure_activated
    abacus_protocol.Library.Reserve.ensure_not_frozen
    abacus_protocol.Library.Reserve.increase_total_debt
    abacus_protocol.Library.Reserve.increase_total_deposit
    abacus_protocol.Library.Reserve.recalculate_current_rates
    abacus_protocol.Library.Restrictions.ensure_debt_exceeds_minimum
    abacus_protocol.Library.Restrictions.ensure_max_total_debt_not_reached
    abacus_protocol.Library.Restrictions.ensure_max_total_deposit_not_reached
    abacus_protocol.Library.TimeWeighted.next abacus_protocol.Pool.Lending.check_progress
    abacus_protocol.Pool.Power.add_asset abacus_protocol.Pool.Power.add_power
    abacus_protocol.Pool.Power.calculate_lending_power_e6 abacus_protocol.Pool.Power.coefficient_of
    abacus_protocol.Pool.Power.ensure_collateralized
    abacus_protocol.Pool.Power.ensure_collateralized_from_raw abacus_protocol.Pool.Power.power_from
    abacus_protocol.Pool.Power.power_step abacus_protocol.Pool.Reserve.Actions.account_at
    abacus_protocol.Pool.Reserve.Actions.recalculated abacus_protocol.Pool.Reserve.Actions.update_at
    abacus_protocol.Pool.Reserve.account_for_borrow abacus_protocol.Pool.Reserve.account_for_deposit
    abacus_protocol.Pool.Reserve.account_for_repay abacus_protocol.Pool.Reserve.account_for_withdraw
    abacus_protocol.Pool.Reserve.accrue abacus_protocol.Pool.Storage.asset_id
    abacus_protocol.Pool.Storage.assets_from abacus_protocol.Pool.Storage.get_account_config
    abacus_protocol.Pool.Storage.get_all_registered_assets
    abacus_protocol.Pool.Storage.get_assets_prices_e18
    abacus_protocol.Pool.Storage.get_decimal_multiplier
    abacus_protocol.Pool.Storage.get_fee_reductions_of_account
    abacus_protocol.Pool.Storage.get_market_rule abacus_protocol.Pool.Storage.get_reserve_data
    abacus_protocol.Pool.Storage.get_reserve_indexes_and_fees
    abacus_protocol.Pool.Storage.get_reserve_restrictions
    abacus_protocol.Messages.Accounts.account_for_one
    abacus_protocol.Messages.Accounts.mirror_withdraw abacus_protocol.Messages.Accounts.withdraw
    abacus_protocol.Messages.Internal.check_amount_not_zero
    abacus_protocol.Messages.Internal.emit_abacus_token_transfer_event
    abacus_protocol.Messages.Internal.emit_abacus_token_transfer_event_and_decrease_allowance
    abacus_protocol.Messages.Internal.magnitude abacus_protocol.Messages.Internal.transfer_out
    abacus_protocol.Messages.Session.invoke
withdrawal_accepted = (refl, refl, refl)

before_withdrawal : (deposit_in session.storage 7 0 ≡ 100000) × (debt_in session.storage 7 0 ≡ 0)
unfolding abacus_protocol.Pool.Storage.get_account_datas
before_withdrawal = (refl, refl)

operate-Mirrors_example : Mirrors listed_tokens 7 0 session after_withdrawal
operate-Mirrors_example =
    operate-Mirrors ⦃p = exact⦄ ⦃o = prices⦄ ⦃t = accepting⦄ env session 100 7 1000 0 listed_tokens
      refl refl (λ e. absurd (omega arith))
      (rw (before_withdrawal.0) (omega arith), rw (before_withdrawal.1) (omega arith))
      after_withdrawal
      (rw (withdrawal_accepted.1) (omega arith), rw (withdrawal_accepted.2) (omega arith))
      Operation.withdraw refl withdrawal_accepted.0

-- A receiver that has nothing to do.
abbrev receivers : Receivers
receivers = record { execute_operation = λ receiver g assets amounts fees. ok g }

abbrev loan_opened : Result LendingPoolError (Session × List ℕ)
loan_opened =
    open_flash_loan ⦃p = exact⦄ ⦃o = prices⦄ ⦃t = accepting⦄ env session 60 (100 ∷ 200 ∷ [])
      (1000 ∷ 20 ∷ [])

abbrev lent : Session
lent = elim loan_opened [ ok (g, fees) ↦ g | err e ↦ session | panic ↦ session ]

abbrev lending : Result LendingPoolError Session
lending =
    flash_loan ⦃p = exact⦄ ⦃o = prices⦄ ⦃t = accepting⦄ ⦃c = receivers⦄ env session 60
      (100 ∷ 200 ∷ []) (1000 ∷ 20 ∷ [])

loan_accepted : (loan_opened ≡ ok (lent, 1 ∷ 1 ∷ [])) × (lending ≡ ok (session_or lending))
unfolding abacus_protocol.Messages.Flash.collect abacus_protocol.Messages.Flash.flash_fee
    abacus_protocol.Messages.Flash.lend abacus_protocol.Messages.Internal.check_amount_not_zero
    abacus_protocol.Messages.Internal.transfer_in abacus_protocol.Messages.Internal.transfer_out
    abacus_protocol.Messages.Session.invoke flash_loan open_flash_loan
loan_accepted = (refl, refl)

flash_loan_lem_example :
    AreFees 1000 (flash_fee_part_e6 ⦃o = prices⦄ session.storage 7) (1000 ∷ 20 ∷ []) (1 ∷ 1 ∷ [])
    × (paid_to 200 60 lent.calls ≡ 20)
    × (taken_from 200 60 (session_or lending).calls ≡ taken_from 200 60 lent.calls + 21)
flash_loan_lem_example =
    flash_loan_lem ⦃p = exact⦄ ⦃o = prices⦄ ⦃t = accepting⦄ exact-IsMulDiv env session 60 200
      (100 ∷ 200 ∷ []) (1000 ∷ 20 ∷ []) 1000 refl ⦃c = receivers⦄ lent lent (session_or lending)
      (1 ∷ 1 ∷ []) loan_accepted.0 refl loan_accepted.1

abbrev accrued : ReserveDataContext × AccountReserveData × (ℕ × ℕ)
accrued = elim (accrue ⦃p = exact⦄ later borrower (0, 0)) [
  | ok r ↦ r
  | err e ↦ (later, borrower, (0, 0))
  | panic ↦ (later, borrower, (0, 0))
]

accrued_accepted :
    (accrue ⦃p = exact⦄ later borrower (0, 0) ≡ ok accrued)
    × (accrued.0.asset_id ≡ 1)
    × (accrued.1.debt ≡ 24200)
    × (accrued.0.reserve_data.total_debt ≡ 204200)
unfolding abacus_protocol.Library.Account.accumulate_account_interest
    abacus_protocol.Library.Account.accumulate_debt
    abacus_protocol.Library.Account.accumulate_deposit
    abacus_protocol.Library.Math.e0_mul_e18_div_e18_to_e0_rup
    abacus_protocol.Library.Math.e0_mul_e6_to_e0_rup accrue
accrued_accepted = (refl, refl, refl, refl)

-- A debt of 20000 with 20% of interest, paid back in full.
account_for_repay-accepted_example :
    (t : Accounted) × (account_for_repay ⦃p = exact⦄ later borrower borrower_config
        (0, 0)
        30000
        true
      ≡ ok t)
    × (t.account_data.debt ≡ 0)
    × (t.amount ≡ accrued.1.debt)
account_for_repay-accepted_example =
    account_for_repay-accepted ⦃p = exact⦄ later borrower borrower_config (0, 0) 30000 accrued.0
      accrued.1 accrued.2 accrued_accepted.0 refl (rw (accrued_accepted.1) (omega arith))
      (rw (accrued_accepted.2) (omega arith))
      (rw (accrued_accepted.2, accrued_accepted.3) (omega arith))
      (rw (accrued_accepted.2) (omega arith))
