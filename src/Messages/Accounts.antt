-- ===== src/Messages/Accounts.antt =====
-- src/contract_modules/lending_pool/implementation/deposit.rs and borrow.rs: the four operations of
-- an account, the choice of the market rule and that of the collaterals.
use abacus_protocol.Base.{
  ℕ, Bool, true, false, List, [], ◌∷◌, ◌++◌, Result, ok, ok_or, unwrap, ◌>>=◌, ◌>>◌, get_elem?,
  checked_add, u128_mod,
}
use abacus_protocol.Errors.{LendingPoolError, math_error, overflow, from_psp22}
use abacus_protocol.Library.MulDiv.{Pendzl}
use abacus_protocol.Pool.Storage.{AccountId, LendingPoolStorage, ReserveAbacusTokens, Oracles}
use abacus_protocol.Pool.Lending.{Operation, account_for_account_actions}
use abacus_protocol.Pool.Power.{ensure_collateralized_by_account}
use abacus_protocol.Pool.Transfer.{account_for_set_as_collateral}
use abacus_protocol.Pool.Management.{account_for_market_rule_change}
use abacus_protocol.Messages.Session.{Env, Call, Event, Session, Tokens}
use abacus_protocol.Messages.Internal.{
  check_amount_not_zero, signed_difference, emit_abacus_token_transfer_event,
  emit_abacus_token_transfer_event_and_decrease_allowance, transfer_in, transfer_out,
}

module _ ⦃t : Tokens⦄ where
  -- What the a token and the v token are told of an operation, from the interests that the account
  -- has accumulated on its deposit and its debt.
  unfoldable pub mirror_deposit :
      ReserveAbacusTokens → AccountId → ℕ × ℕ → ℕ → List Call → Result LendingPoolError (List Call)
  mirror_deposit tokens account (deposit_interest, debt_interest) amount calls = do
    gained ← ok_or (checked_add u128_mod deposit_interest amount) (math_error overflow)
    calls' ←
        from_psp22 (emit_abacus_token_transfer_event tokens.a_token_address account gained calls)
    from_psp22
        (emit_abacus_token_transfer_event tokens.v_token_address account debt_interest calls')

  unfoldable pub mirror_withdraw :
      Env
      → ReserveAbacusTokens
      → AccountId
      → ℕ × ℕ
      → ℕ
      → List Call
      → Result LendingPoolError (List Call)
  mirror_withdraw env tokens account (deposit_interest, debt_interest) amount calls = do
    calls' ← from_psp22 (
        emit_abacus_token_transfer_event_and_decrease_allowance tokens.a_token_address account
          (signed_difference deposit_interest amount) env.caller amount calls)
    from_psp22
        (emit_abacus_token_transfer_event tokens.v_token_address account debt_interest calls')

  unfoldable pub mirror_borrow :
      Env
      → ReserveAbacusTokens
      → AccountId
      → ℕ × ℕ
      → ℕ
      → List Call
      → Result LendingPoolError (List Call)
  mirror_borrow env tokens account (deposit_interest, debt_interest) amount calls = do
    calls' ←
        from_psp22
          (emit_abacus_token_transfer_event tokens.a_token_address account deposit_interest calls)
    owed ← ok_or (checked_add u128_mod debt_interest amount) (math_error overflow)
    from_psp22 (
        emit_abacus_token_transfer_event_and_decrease_allowance tokens.v_token_address account owed
          env.caller amount calls')

  unfoldable pub mirror_repay :
      ReserveAbacusTokens → AccountId → ℕ × ℕ → ℕ → List Call → Result LendingPoolError (List Call)
  mirror_repay tokens account (deposit_interest, debt_interest) amount calls = do
    calls' ←
        from_psp22
          (emit_abacus_token_transfer_event tokens.a_token_address account deposit_interest calls)
    from_psp22 (
        emit_abacus_token_transfer_event tokens.v_token_address account
          (signed_difference debt_interest amount) calls')

module _ ⦃p : Pendzl⦄ ⦃o : Oracles⦄ where
  -- The accounting for one operation: the storage, its interests (`res.first().unwrap()`), and its
  -- amount as it is afterwards (`actions[0].args.amount`).
  unfoldable pub account_for_one :
      Env
      → Session
      → Operation
      → AccountId
      → AccountId
      → ℕ
      → Result LendingPoolError (LendingPoolStorage × (ℕ × ℕ) × ℕ)
  account_for_one env g op asset account amount = do
    check_amount_not_zero amount
    (s, interests, amounts) ←
        account_for_account_actions g.storage account
          (record { op = op; asset = asset; amount = amount } ∷ []) env.block_timestamp
    first ← unwrap (get_elem? interests 0)
    amount' ← unwrap (get_elem? amounts 0)
    ok (s, first, amount')

  unfoldable pub choose_market_rule : Env → Session → ℕ → Result LendingPoolError Session
  choose_market_rule env g rule_id = do
    s ← account_for_market_rule_change g.storage env.caller rule_id
    ensure_collateralized_by_account s env.caller
    ok (record g {
      storage = s;
      events = g.events ++ Event.market_rule_chosen env.caller rule_id ∷ [];
    })

  -- The collateralization is checked where the collateral is turned off.
  unfoldable pub set_as_collateral :
      Env → Session → AccountId → Bool → Result LendingPoolError Session
  set_as_collateral env g asset to_set = do
    s ← account_for_set_as_collateral g.storage env.caller asset to_set
    (elim to_set [ true ↦ ok tt | false ↦ ensure_collateralized_by_account s env.caller ])
    ok (record g {
      storage = s;
      events = g.events ++ Event.collateral_set env.caller asset to_set ∷ [];
    })

module _ ⦃p : Pendzl⦄ ⦃o : Oracles⦄ ⦃t : Tokens⦄ where
  unfoldable pub deposit :
      Env → Session → AccountId → AccountId → ℕ → Result LendingPoolError Session
  deposit env g asset on_behalf_of amount = do
    (s, interests, paid) ← account_for_one env g Operation.deposit asset on_behalf_of amount
    calls ← transfer_in env s asset env.caller paid g.calls
    tokens ← unwrap (s.reserve_abacus_tokens asset)
    calls' ← mirror_deposit tokens on_behalf_of interests amount calls
    ok (record {
      storage = s;
      calls = calls';
      events = g.events ++ Event.deposit asset env.caller on_behalf_of amount ∷ [];
    })

  unfoldable pub withdraw :
      Env → Session → AccountId → AccountId → ℕ → Result LendingPoolError (Session × ℕ)
  withdraw env g asset on_behalf_of amount = do
    (s, interests, paid) ← account_for_one env g Operation.withdraw asset on_behalf_of amount
    calls ← transfer_out s asset env.caller paid g.calls
    tokens ← unwrap (s.reserve_abacus_tokens asset)
    calls' ← mirror_withdraw env tokens on_behalf_of interests paid calls
    ok (
      record {
        storage = s;
        calls = calls';
        events = g.events ++ Event.withdraw asset env.caller on_behalf_of paid ∷ [];
      },
      paid,
    )

  unfoldable pub borrow :
      Env → Session → AccountId → AccountId → ℕ → Result LendingPoolError Session
  borrow env g asset on_behalf_of amount = do
    (s, interests, paid) ← account_for_one env g Operation.borrow asset on_behalf_of amount
    calls ← transfer_out s asset env.caller amount g.calls
    tokens ← unwrap (s.reserve_abacus_tokens asset)
    calls' ← mirror_borrow env tokens on_behalf_of interests amount calls
    ok (record {
      storage = s;
      calls = calls';
      events = g.events ++ Event.borrow asset env.caller on_behalf_of amount ∷ [];
    })

  unfoldable pub repay :
      Env → Session → AccountId → AccountId → ℕ → Result LendingPoolError (Session × ℕ)
  repay env g asset on_behalf_of amount = do
    (s, interests, paid) ← account_for_one env g Operation.repay asset on_behalf_of amount
    calls ← transfer_in env s asset env.caller paid g.calls
    tokens ← unwrap (s.reserve_abacus_tokens asset)
    calls' ← mirror_repay tokens on_behalf_of interests paid calls
    ok (
      record {
        storage = s;
        calls = calls';
        events = g.events ++ Event.repay asset env.caller on_behalf_of paid ∷ [];
      },
      paid,
    )
