-- ===== src/Messages/Liquidate/Terms.antt =====
-- On what terms an account is liquidated: the message of liquidate.rs.
use native.Mathlib.Nat.{mul-le-mul_right}
use abacus_protocol.Base.{
  ℕ, ◌+◌, ◌*◌, ◌≡◌, ◌≤◌, List, err, arith, Ensures, Result-cases, inl, inr, ltb, false,
}
use abacus_protocol.Errors.{LendingPoolError}
use abacus_protocol.Library.MulDiv.{Pendzl, IsMulDiv, down, down_bounds}
use abacus_protocol.Library.Math.{e18}
use abacus_protocol.Pool.Storage.{AccountId, LendingPoolStorage, Oracles}
use abacus_protocol.Pool.Power.{ensure_collateralized_by_account}
use abacus_protocol.Pool.Liquidation.{Liquidated}
use abacus_protocol.Pool.Liquidation.Amounts.{account_for_liquidate-le}
use abacus_protocol.Messages.Session.{Env, Call, Session, Tokens, invoke}
use abacus_protocol.Messages.Internal.{
  TransferEventDataSimplified, emit_abacus_token_transfer_event, emit_abacus_token_transfer_events,
}
use abacus_protocol.Messages.Payments.{taken_from, taken_from-append, transfer_in-taken}
use abacus_protocol.Messages.Liquidate.{ensure_not_collateralized, mirror_liquidation, liquidate}

module _ ⦃t : Tokens⦄ (asset account : AccountId) where
  -- What a token is told moves nothing of an asset.
  event-taken :
      (token about : AccountId) (amount : ℕ) (calls : List Call)
      → Ensures
          (λ calls'. taken_from asset account calls' ≡ taken_from asset account calls)
          (emit_abacus_token_transfer_event token about amount calls)
  unfolding emit_abacus_token_transfer_event invoke
  event-taken token about amount calls =
      grind (arith, λ (call : Call). taken_from-append asset account calls call)

  events-taken :
      (token : AccountId) (told : List TransferEventDataSimplified) (calls : List Call)
      → Ensures
          (λ calls'. taken_from asset account calls' ≡ taken_from asset account calls)
          (emit_abacus_token_transfer_events token told calls)
  unfolding emit_abacus_token_transfer_events invoke
  events-taken token told calls =
      grind (arith, λ (call : Call). taken_from-append asset account calls call)

  mirror-taken :
      (caller liquidated asset_to_repay asset_to_take : AccountId) (r : Liquidated)
      (calls : List Call)
      → Ensures
          (λ calls'. taken_from asset account calls' ≡ taken_from asset account calls)
          (mirror_liquidation caller liquidated asset_to_repay asset_to_take r calls)
  unfolding mirror_liquidation
  mirror-taken caller liquidated asset_to_repay asset_to_take r calls = grind (
    arith,
    λ (token : AccountId) (n : ℕ) (c : List Call). event-taken token liquidated n c,
    λ (token : AccountId) (told : List TransferEventDataSimplified) (c : List Call).
        events-taken token told c,
  )

module _ ⦃p : Pendzl⦄ ⦃o : Oracles⦄ where
  collateralized-refused :
      (s : LendingPoolStorage) (account : AccountId)
      → Ensures
          (λ u. (e : LendingPoolError) × (ensure_collateralized_by_account s account ≡ err e))
          (ensure_not_collateralized s account)
  unfolding ensure_not_collateralized
  collateralized-refused s account =
      let refusal = Result-cases (ensure_collateralized_by_account s account) in ground arith

-- The received rate is what was taken for each token repaid.
rate-enough :
    ⦃p : Pendzl⦄ (laws : IsMulDiv p) (taken repaid minimum : ℕ)
    → Ensures
        (λ rate. ltb rate minimum ≡ false → minimum * repaid ≤ taken * e18)
        (p.mul_div taken e18 repaid down)
rate-enough ⦃p = p⦄ laws taken repaid minimum =
    elim (Result-cases (p.mul_div taken e18 repaid down)) [
      | inl (rate, q) ↦
          let (pos, low, high, fits) = down_bounds laws taken e18 repaid q in
          rw q (λ h.
            let m : minimum ≤ rate = ground arith in
            let scaled = mul-le-mul_right repaid m in omega arith)
      | inr (inl (e, q)) ↦ rw q tt
      | inr (inr q) ↦ rw q tt
    ]

module _ ⦃p : Pendzl⦄ ⦃o : Oracles⦄ ⦃t : Tokens⦄ (laws : IsMulDiv p) where
  -- After an accepted liquidation: the account failed the collateralization check before it, no
  -- more than asked for was repaid, what was taken is at least the minimum, in units of 10^-18,
  -- for each token repaid, and the repaid amount was taken from the caller.
  pub liquidate_lem :
      (env : Env) (g : Session) (liquidated asset_to_repay asset_to_take : AccountId)
      (amount minimum_e18 : ℕ)
      → Ensures
          (λ (g', (repaid, taken)).
            ((e : LendingPoolError) × (ensure_collateralized_by_account g.storage liquidated
                ≡ err e))
            × (repaid ≤ amount)
            × (minimum_e18 * repaid ≤ taken * e18)
            × (taken_from asset_to_repay env.caller g'.calls
                ≡ taken_from asset_to_repay env.caller g.calls + repaid))
          (liquidate env g liquidated asset_to_repay asset_to_take amount minimum_e18)
  unfolding liquidate
  liquidate_lem env g liquidated asset_to_repay asset_to_take amount minimum_e18 = grind (
    arith,
    collateralized-refused g.storage liquidated,
    account_for_liquidate-le g.storage env.caller liquidated asset_to_repay asset_to_take amount
        env.block_timestamp,
    λ (r : Liquidated). rate-enough laws r.amount_taken r.amount_repaid minimum_e18,
    λ (r : Liquidated).
        transfer_in-taken asset_to_repay env.caller env r.storage asset_to_repay r.amount_repaid
          g.calls,
    λ (r : Liquidated) (calls : List Call).
        mirror-taken asset_to_repay env.caller env.caller liquidated asset_to_repay asset_to_take r
          calls,
  )
