-- ===== src/Library/Account/Balance.antt =====
-- How the operations on an account's data move the totals of its reserve.
use abacus_protocol.Base.{ℕ, ◌+◌, ◌≡◌, arith, Ensures}
use abacus_protocol.Library.Reserve.{ReserveData}
use abacus_protocol.Library.Restrictions.{AccountReserveData, ReserveRestrictions}
use abacus_protocol.Library.Account.{
  AccountConfig, increase_account_deposit, decrease_account_deposit, increase_account_debt,
  decrease_account_debt,
}

-- A total and a balance move by the same amount, which is written with no subtraction.
abbrev pub Level : ReserveData → ReserveData → AccountReserveData → AccountReserveData → Type 0
Level r r' a a' =
    (r'.total_deposit + a.deposit ≡ r.total_deposit + a'.deposit)
    × (r'.total_debt + a.debt ≡ r.total_debt + a'.debt)

module _ (a : AccountReserveData) (id : ℕ) (c : AccountConfig) (r : ReserveData) (amount : ℕ) where
  pub increase_account_deposit-Level :
      Ensures
        (λ (a', c', r'). Level r r' a a' × (a'.deposit ≡ a.deposit + amount) × (a'.debt ≡ a.debt))
        (increase_account_deposit a id c r amount)
  unfolding increase_account_deposit
  increase_account_deposit-Level = ground arith

  pub decrease_account_deposit-Level :
      (s : ReserveRestrictions)
      → Ensures
          (λ (a', c', r'). Level r r' a a' × (a'.deposit + amount ≡ a.deposit) × (a'.debt ≡ a.debt))
          (decrease_account_deposit a id c r s amount)
  unfolding decrease_account_deposit
  decrease_account_deposit-Level s = ground arith

  pub increase_account_debt-Level :
      Ensures
        (λ (a', c', r'). Level r r' a a' × (a'.debt ≡ a.debt + amount) × (a'.deposit ≡ a.deposit))
        (increase_account_debt a id c r amount)
  unfolding increase_account_debt
  increase_account_debt-Level = ground arith

  pub decrease_account_debt-Level :
      Ensures
        (λ (a', c', r'). Level r r' a a' × (a'.debt + amount ≡ a.debt) × (a'.deposit ≡ a.deposit))
        (decrease_account_debt a id c r amount)
  unfolding decrease_account_debt
  decrease_account_debt-Level = ground arith
