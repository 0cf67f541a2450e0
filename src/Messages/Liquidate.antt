-- ===== src/Messages/Liquidate.antt =====
-- src/contract_modules/lending_pool/implementation/liquidate.rs.
pub mod Terms
use abacus_protocol.Base.{
  ℕ, List, [], ◌∷◌, ◌++◌, Result, ok, err, panic, ok_or, unwrap, ◌>>=◌, ◌>>◌, refuse_if, ltb,
  checked_add, u128_mod,
}
use abacus_protocol.Errors.{
  LendingPoolError, math_error, overflow, collaterized, minimum_recieved, from_math, from_psp22,
}
use abacus_protocol.Library.MulDiv.{Pendzl, down}
use abacus_protocol.Library.Math.{e18}
use abacus_protocol.Pool.Storage.{AccountId, LendingPoolStorage, Oracles}
use abacus_protocol.Pool.Power.{ensure_collateralized_by_account}
use abacus_protocol.Pool.Liquidation.{Liquidated, account_for_liquidate}
use abacus_protocol.Messages.Session.{Env, Call, Event, Session, Tokens}
use abacus_protocol.Messages.Internal.{
  TransferEventDataSimplified, signed_difference, emit_abacus_token_transfer_event,
  emit_abacus_token_transfer_events, transfer_in,
}

module _ ⦃p : Pendzl⦄ ⦃o : Oracles⦄ where
  -- Any failure of the check lets the liquidation go on.
  unfoldable pub ensure_not_collateralized :
      LendingPoolStorage → AccountId → Result LendingPoolError (Unit {0})
  ensure_not_collateralized s account = elim (ensure_collateralized_by_account s account) [
    | ok u ↦ err collaterized
    | err e ↦ ok tt
    | panic ↦ panic
  ]

module _ ⦃t : Tokens⦄ where
  abbrev entry : AccountId → ℕ → TransferEventDataSimplified
  entry account amount = record { account = account; amount = amount }

  -- What the four tokens are told.
  unfoldable pub mirror_liquidation :
      AccountId
      → AccountId
      → AccountId
      → AccountId
      → Liquidated
      → List Call
      → Result LendingPoolError (List Call)
  mirror_liquidation caller liquidated asset_to_repay asset_to_take r calls = do
    let (deposit_to_repay, debt_to_repay) = r.repay_interests
    let ((deposit_to_take, debt_to_take), (caller_deposit, caller_debt)) = r.take_interests
    repay_tokens ← unwrap (r.storage.reserve_abacus_tokens asset_to_repay)
    calls₁ ← from_psp22 (
        emit_abacus_token_transfer_event repay_tokens.a_token_address liquidated deposit_to_repay
          calls)
    calls₂ ← from_psp22 (
        emit_abacus_token_transfer_event repay_tokens.v_token_address liquidated
          (signed_difference debt_to_repay r.amount_repaid) calls₁)
    take_tokens ← unwrap (r.storage.reserve_abacus_tokens asset_to_take)
    gained ← ok_or (checked_add u128_mod caller_deposit r.amount_taken) (math_error overflow)
    calls₃ ← from_psp22 (
        emit_abacus_token_transfer_events take_tokens.a_token_address
          (entry liquidated (signed_difference deposit_to_take r.amount_taken)
            ∷ entry caller gained
            ∷ [])
          calls₂)
    from_psp22 (
        emit_abacus_token_transfer_events take_tokens.v_token_address
          (entry liquidated debt_to_take ∷ entry caller caller_debt ∷ []) calls₃)

module _ ⦃p : Pendzl⦄ ⦃o : Oracles⦄ ⦃t : Tokens⦄ where
  -- The session, the amount repaid and the amount taken.
  unfoldable pub liquidate :
      Env
      → Session
      → AccountId
      → AccountId
      → AccountId
      → ℕ
      → ℕ
      → Result LendingPoolError (Session × (ℕ × ℕ))
  unfolding ensure_not_collateralized
  liquidate env g liquidated asset_to_repay asset_to_take amount_to_repay minimum_e18 = do
    ensure_not_collateralized g.storage liquidated
    r ←
        account_for_liquidate g.storage env.caller liquidated asset_to_repay asset_to_take
          amount_to_repay env.block_timestamp
    recieved ← from_math (p.mul_div r.amount_taken e18 r.amount_repaid down)
    refuse_if (ltb recieved minimum_e18) minimum_recieved
    calls ← transfer_in env r.storage asset_to_repay env.caller r.amount_repaid g.calls
    calls' ← mirror_liquidation env.caller liquidated asset_to_repay asset_to_take r calls
    ok (
      record {
        storage = r.storage;
        calls = calls';
        events =
            g.events
            ++ Event.liquidation env.caller liquidated asset_to_repay asset_to_take r.amount_repaid
                r.amount_taken
              ∷ [];
      },
      (r.amount_repaid, r.amount_taken),
    )
