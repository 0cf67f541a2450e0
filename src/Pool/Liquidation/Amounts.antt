-- ===== src/Pool/Liquidation/Amounts.antt =====
-- The amount that a liquidation repays, against the one that it is asked to repay.
use abacus_protocol.Base.{ℕ, ◌≤◌, ◌≡◌, List, [], ◌∷◌, some, arith, Ensures, get_elem?}
use abacus_protocol.Library.MulDiv.{Pendzl}
use abacus_protocol.Library.Restrictions.{AccountReserveData}
use abacus_protocol.Pool.Storage.{AccountId, LendingPoolStorage, Oracles}
use abacus_protocol.Pool.Lending.{Operation}
use abacus_protocol.Pool.Lending.Booking.{BookedFirst, reserve_action-BookedFirst}
use abacus_protocol.Pool.Liquidation.{Party, account_for_repayment, account_for_liquidate}

first-le :
    (asked : ℕ) (a a' : AccountReserveData) (after : List AccountReserveData) (items : List (ℕ × ℕ))
    (x : ℕ × ℕ) (amounts : List ℕ) (n : ℕ)
    → BookedFirst Operation.repay asked a after items amounts
    → get_elem? after 0 ≡ some a'
    → get_elem? items 0 ≡ some x
    → get_elem? amounts 0 ≡ some n
    → n ≤ asked
first-le asked a a' [] items x amounts n b ha hx hn = cc
first-le asked a a' (y ∷ after) [] x amounts n b ha hx hn = cc
first-le asked a a' (y ∷ after) (z ∷ items) x [] n b ha hx hn = cc
first-le asked a a' (y ∷ after) (z ∷ items) x (m ∷ amounts) n b ha hx hn = ground arith

module _ ⦃p : Pendzl⦄ where
  repayment-le :
      (s : LendingPoolStorage) (id : ℕ) (party : Party) (amount now : ℕ)
      → Ensures
          (λ (s', party', interests, repaid). repaid ≤ amount)
          (account_for_repayment s id party amount now)
  unfolding account_for_repayment
  repayment-le s id party amount now = grind (
    arith,
    λ (a : AccountReserveData).
        reserve_action-BookedFirst s id a party.config party.reductions Operation.repay amount now,
    λ (a a' : AccountReserveData) (after : List AccountReserveData) (items : List (ℕ × ℕ))
          (x : ℕ × ℕ) (amounts : List ℕ) (n : ℕ).
        first-le amount a a' after items x amounts n,
  )

  pub account_for_liquidate-le :
      ⦃o : Oracles⦄ (s : LendingPoolStorage)
      (caller liquidated asset_to_repay asset_to_take : AccountId) (amount now : ℕ)
      → Ensures
          (λ r. r.amount_repaid ≤ amount)
          (account_for_liquidate s caller liquidated asset_to_repay asset_to_take amount now)
  unfolding account_for_liquidate
  account_for_liquidate-le s caller liquidated asset_to_repay asset_to_take amount now =
      grind (arith, λ (id : ℕ) (party : Party). repayment-le s id party amount now)
