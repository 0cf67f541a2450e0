-- ===== src/Messages/Flash.antt =====
-- src/contract_modules/lending_pool/implementation/flash.rs: the assets are lent to the receiver, the
-- receiver is called, and each amount is taken back with its fee.
pub mod Balance
use abacus_protocol.Base.{
  ℕ, ◌-◌, List, [], ◌∷◌, ◌++◌, Option, none, some, Result, ok, panic, unwrap, ◌>>=◌, ◌>>◌,
  refuse_if, not, ◌==◌, length, checked_add, saturating_sub, map_err, u128_mod,
}
use abacus_protocol.Errors.{
  LendingPoolError, FlashLoanReceiverError, flash_loan_receiver_error, vectors_inconsistent_lengths,
  from_math,
}
use abacus_protocol.Library.MulDiv.{Pendzl, up}
use abacus_protocol.Library.Math.{e6}
use abacus_protocol.Pool.Storage.{AccountId, LendingPoolStorage, Oracles}
use abacus_protocol.Messages.Session.{Env, Call, Event, Session, Tokens}
use abacus_protocol.Messages.Internal.{check_amount_not_zero, transfer_in, transfer_out}

-- The receiver is a contract of its own, which may send messages to the pool in its turn
-- (`ALLOW_REENTRY`): the session that it leaves, from the assets, the amounts and the fees.
pub record Receivers : Type 0 where
  pub execute_operation :
      AccountId → Session → List AccountId → List ℕ → List ℕ → Result FlashLoanReceiverError Session

module _ ⦃o : Oracles⦄ where
  -- What is left of the fee for a caller, in millionths.
  unfoldable pub flash_fee_part_e6 : LendingPoolStorage → AccountId → ℕ
  flash_fee_part_e6 s caller = saturating_sub e6 (elim s.fee_reduction_provider [
    | none ↦ 0
    | some provider ↦ o.get_flash_loan_fee_reduction provider caller
  ])

module _ ⦃p : Pendzl⦄ where
  unfoldable pub flash_fee : ℕ → ℕ → ℕ → Result LendingPoolError ℕ
  flash_fee flash_fee_e6 fee_part_e6 amount = do
    pre_fee ← from_math (p.mul_div amount flash_fee_e6 e6 up)
    from_math (p.mul_div pre_fee fee_part_e6 e6 up)

module _ ⦃p : Pendzl⦄ ⦃t : Tokens⦄ where
  -- The fees, and the calls made.
  unfoldable pub lend :
      LendingPoolStorage
      → AccountId
      → ℕ
      → ℕ
      → List AccountId
      → List ℕ
      → List Call
      → Result LendingPoolError (List ℕ × List Call)
  lend s receiver flash_fee_e6 fee_part_e6 [] amounts calls = ok ([], calls)
  lend s receiver flash_fee_e6 fee_part_e6 (asset ∷ assets) [] calls = panic
  lend s receiver flash_fee_e6 fee_part_e6 (asset ∷ assets) (amount ∷ amounts) calls = do
    check_amount_not_zero amount
    fee ← flash_fee flash_fee_e6 fee_part_e6 amount
    calls' ← transfer_out s asset receiver amount calls
    (fees, calls'') ← lend s receiver flash_fee_e6 fee_part_e6 assets amounts calls'
    ok (fee ∷ fees, calls'')

-- The event's caller is the pool's own account.
module _ ⦃t : Tokens⦄ where
  unfoldable pub collect :
      Env → AccountId → List AccountId → List ℕ → List ℕ → Session → Result LendingPoolError Session
  collect env receiver [] amounts fees g = ok g
  collect env receiver (asset ∷ assets) [] fees g = panic
  collect env receiver (asset ∷ assets) (amount ∷ amounts) [] g = panic
  collect env receiver (asset ∷ assets) (amount ∷ amounts) (fee ∷ fees) g = do
    total ← unwrap (checked_add u128_mod amount fee)
    calls ← transfer_in env g.storage asset receiver total g.calls
    collect env receiver assets amounts fees (record g {
      calls = calls;
      events = g.events ++ Event.flash_loan receiver env.account_id asset amount fee ∷ [];
    })

module _ ⦃p : Pendzl⦄ ⦃o : Oracles⦄ ⦃t : Tokens⦄ where
  -- The session in which the receiver is called, and the fees.
  unfoldable pub open_flash_loan :
      Env
      → Session
      → AccountId
      → List AccountId
      → List ℕ
      → Result LendingPoolError (Session × List ℕ)
  unfolding flash_fee_part_e6
  open_flash_loan env g receiver assets amounts = do
    refuse_if (not (length assets == length amounts)) vectors_inconsistent_lengths
    flash_fee_e6 ← unwrap g.storage.flash_loan_fee_e6
    (fees, calls) ←
        lend g.storage receiver flash_fee_e6 (flash_fee_part_e6 g.storage env.caller) assets amounts
          g.calls
    ok (record g { calls = calls }, fees)

  unfoldable pub flash_loan :
      ⦃c : Receivers⦄
      → Env
      → Session
      → AccountId
      → List AccountId
      → List ℕ
      → Result LendingPoolError Session
  unfolding open_flash_loan
  flash_loan ⦃c = c⦄ env g receiver assets amounts = do
    (g', fees) ← open_flash_loan env g receiver assets amounts
    g'' ← map_err flash_loan_receiver_error (c.execute_operation receiver g' assets amounts fees)
    collect env receiver assets amounts fees g''
