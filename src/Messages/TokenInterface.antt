-- ===== src/Messages/TokenInterface.antt =====
-- src/contract_modules/lending_pool/implementation/a_token_interface.rs and v_token_interface.rs: the
-- transfers that the abacus tokens ask for.
use abacus_protocol.Base.{
  ℕ, not, ◌||◌, List, [], ◌∷◌, ◌++◌, Result, ok, ok_or, ◌>>=◌, ◌>>◌, refuse_if, ◌==◌, if◌then◌else◌,
}
use abacus_protocol.Errors.{
  LendingPoolError, asset_not_registered, access_control_error, missing_role, from_psp22, from_math,
}
use abacus_protocol.Library.MulDiv.{Pendzl}
use abacus_protocol.Library.Reserve.{ReserveData}
use abacus_protocol.Library.Restrictions.{AccountReserveData}
use abacus_protocol.Library.Indexes.{update}
use abacus_protocol.Library.Account.{accumulate_account_interest}
use abacus_protocol.Pool.Storage.{
  AccountId, LendingPoolStorage, Oracles, asset_id, get_account_reserve_data, get_reserve_data,
  get_reserve_indexes_and_fees, get_fee_reductions_of_account,
}
use abacus_protocol.Pool.Power.{ensure_collateralized_by_account}
use abacus_protocol.Pool.Transfer.{
  account_for_deposit_transfer_from_to, account_for_debt_transfer_from_to,
}
use abacus_protocol.Messages.Session.{Env, Call, Event, Session, Tokens, invoke}
use abacus_protocol.Messages.Internal.{check_amount_not_zero, to_account}

module _ ⦃p : Pendzl⦄ where
  -- The reserve of an asset, after its indexes could be brought up to date.
  unfoldable pub updated_reserve :
      LendingPoolStorage → AccountId → ℕ → Result LendingPoolError ReserveData
  unfolding asset_id get_reserve_data get_reserve_indexes_and_fees
  updated_reserve s asset timestamp = do
    id ← asset_id s asset
    r ← get_reserve_data s id
    x ← get_reserve_indexes_and_fees s id
    indexes ← from_math (update x.indexes r timestamp)
    ok r

  unfoldable pub total_deposit_of : LendingPoolStorage → AccountId → ℕ → Result LendingPoolError ℕ
  unfolding updated_reserve
  total_deposit_of s asset timestamp = do r ← updated_reserve s asset timestamp; ok r.total_deposit

  unfoldable pub total_debt_of : LendingPoolStorage → AccountId → ℕ → Result LendingPoolError ℕ
  unfolding updated_reserve
  total_debt_of s asset timestamp = do r ← updated_reserve s asset timestamp; ok r.total_debt

module _ ⦃p : Pendzl⦄ ⦃o : Oracles⦄ where
  -- The data of an account with its interest up to a time.
  unfoldable pub updated_account :
      LendingPoolStorage → AccountId → AccountId → ℕ → Result LendingPoolError AccountReserveData
  unfolding asset_id get_reserve_data get_reserve_indexes_and_fees
  updated_account s asset account timestamp = do
    id ← asset_id s asset
    r ← get_reserve_data s id
    x ← get_reserve_indexes_and_fees s id
    let a = (get_account_reserve_data s id account).0
    indexes ← from_math (update x.indexes r timestamp)
    (a', fees, interests) ←
        from_math
          (accumulate_account_interest a indexes x.fees (get_fee_reductions_of_account s account))
    ok a'

  unfoldable pub account_deposit_of :
      LendingPoolStorage → AccountId → AccountId → ℕ → Result LendingPoolError ℕ
  unfolding updated_account
  account_deposit_of s asset account timestamp = do
    a ← updated_account s asset account timestamp
    ok a.deposit

  unfoldable pub account_debt_of :
      LendingPoolStorage → AccountId → AccountId → ℕ → Result LendingPoolError ℕ
  unfolding updated_account
  account_debt_of s asset account timestamp = do
    a ← updated_account s asset account timestamp
    ok a.debt

-- The events on the token that did not ask, where there is an interest to tell of.
unfoldable pub emit_interests :
    ⦃t : Tokens⦄
    → AccountId
    → AccountId
    → AccountId
    → ℕ
    → ℕ
    → List Call
    → Result LendingPoolError (List Call)
emit_interests token from to from_interest to_interest calls =
    if not (from_interest == 0) || not (to_interest == 0)
    then from_psp22 (
        invoke calls (
          Call.emit_transfer_events token
            (to_account from from_interest ∷ to_account to to_interest ∷ [])))
    else ok calls

module _ ⦃p : Pendzl⦄ ⦃o : Oracles⦄ ⦃t : Tokens⦄ where
  -- The session and the interests on the deposits of both accounts.
  unfoldable pub transfer_deposit_from_to :
      Env
      → Session
      → AccountId
      → AccountId
      → AccountId
      → ℕ
      → Result LendingPoolError (Session × (ℕ × ℕ))
  transfer_deposit_from_to env g asset from to amount = do
    check_amount_not_zero amount
    tokens ← ok_or (g.storage.reserve_abacus_tokens asset) asset_not_registered
    refuse_if (not (env.caller == tokens.a_token_address)) (access_control_error missing_role)
    (s, ((from_deposit, from_debt), (to_deposit, to_debt))) ←
        account_for_deposit_transfer_from_to g.storage asset from to amount env.block_timestamp
    ensure_collateralized_by_account s from
    calls ← emit_interests tokens.v_token_address from to from_debt to_debt g.calls
    ok (
      record {
        storage = s;
        calls = calls;
        events =
            g.events
            ++ Event.deposit asset env.caller to amount
              ∷ Event.withdraw asset env.caller from amount
              ∷ [];
      },
      (from_deposit, to_deposit),
    )

  -- The session and the interests on the debts of both accounts.
  unfoldable pub transfer_debt_from_to :
      Env
      → Session
      → AccountId
      → AccountId
      → AccountId
      → ℕ
      → Result LendingPoolError (Session × (ℕ × ℕ))
  transfer_debt_from_to env g asset from to amount = do
    check_amount_not_zero amount
    tokens ← ok_or (g.storage.reserve_abacus_tokens asset) asset_not_registered
    refuse_if (not (env.caller == tokens.v_token_address)) (access_control_error missing_role)
    (s, ((from_deposit, from_debt), (to_deposit, to_debt))) ←
        account_for_debt_transfer_from_to g.storage asset from to amount env.block_timestamp
    ensure_collateralized_by_account s to
    calls ← emit_interests tokens.a_token_address from to from_deposit to_deposit g.calls
    ok (
      record {
        storage = s;
        calls = calls;
        events =
            g.events
            ++ Event.repay asset env.caller from amount
              ∷ Event.borrow asset env.caller to amount
              ∷ [];
      },
      (from_debt, to_debt),
    )
