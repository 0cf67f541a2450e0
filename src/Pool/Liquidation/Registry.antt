-- ===== src/Pool/Liquidation/Registry.antt =====
-- A liquidation keeps the registry of the assets.
use abacus_protocol.Base.{ℕ, true, [], ◌∷◌, arith, Ensures}
use abacus_protocol.Library.MulDiv.{Pendzl}
use abacus_protocol.Library.Restrictions.{AccountReserveData}
use abacus_protocol.Pool.Storage.{AccountId, LendingPoolStorage, Oracles}
use abacus_protocol.Pool.Reserve.Actions.{ReserveAction}
use abacus_protocol.Pool.Liquidation.{
  Party, account_for_repayment, account_for_taking, account_for_liquidate,
}
use abacus_protocol.Pool.Lending.Registry.{account_for_reserve_action-Keeps}
use abacus_protocol.Pool.Transfer.Registry.{Preserves, Keeps-Preserves, Preserves-trans}

module _ ⦃p : Pendzl⦄ where
  repayment-Preserves :
      (s : LendingPoolStorage) (id : ℕ) (party : Party) (amount now : ℕ)
      → Ensures
          (λ (s', party', interests, repaid). Preserves s s')
          (account_for_repayment s id party amount now)
  unfolding account_for_repayment
  repayment-Preserves s id party amount now = grind (
    arith,
    λ (a : AccountReserveData).
        account_for_reserve_action-Keeps s id (a ∷ []) (party.config ∷ []) (party.reductions ∷ [])
          (ReserveAction.repay 0 amount ∷ []) now,
    λ (s' : LendingPoolStorage). Keeps-Preserves s s',
  )

  taking-Preserves :
      (s : LendingPoolStorage) (id : ℕ) (liquidated caller : Party) (amount now : ℕ)
      → Ensures
          (λ (s', parties, interests, taken). Preserves s s')
          (account_for_taking s id liquidated caller amount now)
  unfolding account_for_taking
  taking-Preserves s id liquidated caller amount now = grind (
    arith,
    λ (a b : AccountReserveData).
        account_for_reserve_action-Keeps s id (a ∷ b ∷ []) (liquidated.config ∷ caller.config ∷ [])
          (liquidated.reductions ∷ caller.reductions ∷ [])
          (ReserveAction.deposit_transfer 0 1 amount true ∷ []) now,
    λ (s' : LendingPoolStorage). Keeps-Preserves s s',
  )

  pub account_for_liquidate-Preserves :
      ⦃o : Oracles⦄ (s : LendingPoolStorage)
      (caller liquidated asset_to_repay asset_to_take : AccountId) (amount now : ℕ)
      → Ensures
          (λ r. Preserves s r.storage)
          (account_for_liquidate s caller liquidated asset_to_repay asset_to_take amount now)
  unfolding account_for_liquidate
  account_for_liquidate-Preserves s caller liquidated asset_to_repay asset_to_take amount now =
      grind (
        arith,
        λ (id : ℕ) (party : Party). repayment-Preserves s id party amount now,
        λ (s' : LendingPoolStorage) (id : ℕ) (a b : Party) (n : ℕ).
            taking-Preserves s' id a b n now,
        λ (s' s'' : LendingPoolStorage). Preserves-trans s s' s'',
      )
