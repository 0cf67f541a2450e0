-- ===== src/Examples/Lending.antt =====
-- The theorems on the lending operations, applied.
use abacus_protocol.Base.{
  List, [], ◌∷◌, ◌≡◌, ◌+◌, ◌<◌, min, refl, arith, true, false, some, none, ok, Ensures,
}
use abacus_protocol.Library.MulDiv.{exact}
use abacus_protocol.Library.Account.Balance.{Level}
use abacus_protocol.Pool.Storage.{get_account_config, get_account_datas}
use abacus_protocol.Pool.Reserve.{
  account_for_deposit, account_for_withdraw, account_for_borrow, account_for_repay,
}
use abacus_protocol.Pool.Reserve.Level.{
  Within, IsAllowedDebt, account_for_deposit_lem, account_for_withdraw_lem, account_for_borrow_lem,
  account_for_repay_lem,
}
use abacus_protocol.Pool.Lending.{Operation, Action, account_for_account_actions}
use abacus_protocol.Pool.Lending.Collateral.{borrow-IsCollateralized}
use abacus_protocol.Pool.Lending.Conservation.{
  Moves, account_for_account_actions-conserves, account_for_account_actions-others,
}
use abacus_protocol.Base.Bits.{bit_at}
use abacus_protocol.Pool.Lending.Flags.{StoredFlagged, account_for_account_actions-Flagged}
use abacus_protocol.Pool.Liquidation.{account_for_liquidate}
use abacus_protocol.Pool.Liquidation.Conservation.{BothMove, account_for_liquidate-conserves}
use abacus_protocol.Pool.Power.{ensure_collateralized_by_account}
use abacus_protocol.Examples.World.{
  pool, prices, reserve, depositor, borrower, depositor_config, borrower_config, later,
}

abbrev actions : List Action
actions =
    record { op = Operation.borrow; asset = 200; amount = 1000 }
    ∷ record { op = Operation.deposit; asset = 100; amount = 77 }
    ∷ record { op = Operation.withdraw; asset = 100; amount = 500 }
    ∷ record { op = Operation.repay; asset = 200; amount = 5000 }
    ∷ []

borrow-IsCollateralized_example :
    Ensures
      (λ (s', interests, amounts).
        ensure_collateralized_by_account ⦃p = exact⦄ ⦃o = prices⦄ s' 7 ≡ ok tt)
      (account_for_account_actions ⦃p = exact⦄ ⦃o = prices⦄ pool 7 actions 10)
borrow-IsCollateralized_example =
    borrow-IsCollateralized ⦃p = exact⦄ ⦃o = prices⦄ pool 7 actions 10 refl

account_for_account_actions-conserves_example :
    Ensures
      (λ (s', interests, amounts).
        Moves 1 pool (get_account_datas pool 7) s' (get_account_datas s' 7))
      (account_for_account_actions ⦃p = exact⦄ ⦃o = prices⦄ pool 7 actions 10)
account_for_account_actions-conserves_example =
    account_for_account_actions-conserves ⦃p = exact⦄ ⦃o = prices⦄ pool 7 actions 10 1

account_for_account_actions-others_example :
    Ensures
      (λ (s', interests, amounts).
        (s'.account_reserve_datas 8 ≡ pool.account_reserve_datas 8)
        × (s'.account_configs 8 ≡ pool.account_configs 8))
      (account_for_account_actions ⦃p = exact⦄ ⦃o = prices⦄ pool 7 actions 10)
account_for_account_actions-others_example =
    account_for_account_actions-others ⦃p = exact⦄ ⦃o = prices⦄ pool 7 8 actions 10
      (λ e. grind (arith, e))

depositor-StoredFlagged : StoredFlagged 0 7 pool
unfolding get_account_config get_account_datas bit_at
depositor-StoredFlagged = record {
  deposit_flag = λ some_deposit. refl;
  debt_flag = λ some_debt. absurd (some_debt refl);
}

account_for_account_actions-Flagged_example :
    Ensures
      (λ (s', interests, amounts). StoredFlagged 0 7 s')
      (account_for_account_actions ⦃p = exact⦄ ⦃o = prices⦄ pool 7 actions 10)
account_for_account_actions-Flagged_example =
    account_for_account_actions-Flagged ⦃p = exact⦄ ⦃o = prices⦄ pool 7 actions 10 0 (omega arith)
      depositor-StoredFlagged

-- The account 7 repays 5000 of the debt of account 8 in asset 200 and takes asset 100.
account_for_liquidate-conserves_example :
    Ensures
      (λ r.
        BothMove 0 pool
          (get_account_datas pool 8)
          (get_account_datas pool 7)
          r.storage
          (get_account_datas r.storage 8)
          (get_account_datas r.storage 7))
      (account_for_liquidate ⦃p = exact⦄ ⦃o = prices⦄ pool 7 8 200 100 5000 10)
account_for_liquidate-conserves_example =
    account_for_liquidate-conserves ⦃p = exact⦄ ⦃o = prices⦄ pool 7 8 200 100 5000 10 0
      (λ e. grind (arith, e))

account_for_deposit_example :
    Ensures
      (λ t.
        Level reserve t.ctx.reserve_data depositor t.account_data
        × (t.account_data.deposit ≡ 100000 + t.interests.0 + 500)
        × (t.account_data.debt ≡ 0 + t.interests.1)
        × (t.amount ≡ 500)
        × (true ≡ true)
        × (false ≡ false)
        × Within t.ctx.reserve_data.total_deposit (some 1000000000))
      (account_for_deposit ⦃p = exact⦄ later depositor depositor_config (0, 0) 500)
account_for_deposit_example =
    account_for_deposit_lem ⦃p = exact⦄ later depositor (0, 0) depositor_config 500

account_for_withdraw_example :
    Ensures
      (λ t.
        Level reserve t.ctx.reserve_data depositor t.account_data
        × (t.account_data.deposit + t.amount ≡ 100000 + t.interests.0)
        × (t.account_data.debt ≡ 0 + t.interests.1)
        × (t.amount ≡ min 999999 (100000 + t.interests.0))
        × (true ≡ true)
        × (0 < 100000))
      (account_for_withdraw ⦃p = exact⦄ later depositor depositor_config (0, 0) 999999 true)
account_for_withdraw_example =
    account_for_withdraw_lem ⦃p = exact⦄ later depositor (0, 0) depositor_config 999999 true

account_for_borrow_example :
    Ensures
      (λ t.
        Level reserve t.ctx.reserve_data borrower t.account_data
        × (t.account_data.debt ≡ 20000 + t.interests.1 + 500)
        × (t.account_data.deposit ≡ 0 + t.interests.0)
        × (t.amount ≡ 500)
        × (true ≡ true)
        × (false ≡ false)
        × IsAllowedDebt later t.account_data
        × Within t.ctx.reserve_data.total_debt none)
      (account_for_borrow ⦃p = exact⦄ later borrower borrower_config (0, 0) 500)
account_for_borrow_example =
    account_for_borrow_lem ⦃p = exact⦄ later borrower (0, 0) borrower_config 500

account_for_repay_example :
    Ensures
      (λ t.
        Level reserve t.ctx.reserve_data borrower t.account_data
        × (t.account_data.debt + t.amount ≡ 20000 + t.interests.1)
        × (t.account_data.deposit ≡ 0 + t.interests.0)
        × (t.amount ≡ min 999999 (20000 + t.interests.1))
        × (true ≡ true)
        × IsAllowedDebt later t.account_data)
      (account_for_repay ⦃p = exact⦄ later borrower borrower_config (0, 0) 999999 true)
account_for_repay_example =
    account_for_repay_lem ⦃p = exact⦄ later borrower (0, 0) borrower_config 999999 true
