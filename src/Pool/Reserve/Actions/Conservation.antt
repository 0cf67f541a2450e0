-- ===== src/Pool/Reserve/Actions/Conservation.antt =====
-- Over any actions of any accounts, the totals of the reserve move with the sums of the accounts.
use abacus_protocol.Base.{
  ℕ, Bool, zero, suc, ◌+◌, ◌≡◌, List, [], ◌∷◌, some, arith, Ensures, get_elem?, set, length,
  length-set, Option-cases, inl, inr, true,
}
use abacus_protocol.Library.MulDiv.{Pendzl}
use abacus_protocol.Library.Restrictions.{AccountReserveData}
use abacus_protocol.Library.Account.{AccountConfig, FeeReductions}
use abacus_protocol.Library.Account.Balance.{Level}
use abacus_protocol.Pool.Reserve.{
  ReserveDataContext, account_for_deposit, account_for_withdraw, account_for_borrow,
  account_for_repay,
}
use abacus_protocol.Pool.Reserve.Level.{
  account_for_deposit_lem, account_for_withdraw_lem, account_for_borrow_lem, account_for_repay_lem,
}
use abacus_protocol.Pool.Reserve.Actions.{
  ReserveAction, deposit, withdraw, borrow, repay, deposit_transfer, debt_transfer, Turn,
  Accounting, account_at, account_for_action, account_for_actions,
}

abbrev pub deposits : List AccountReserveData → ℕ
deposits [] = 0
deposits (a ∷ rest) = a.deposit + deposits rest

abbrev pub debts : List AccountReserveData → ℕ
debts [] = 0
debts (a ∷ rest) = a.debt + debts rest

sums-set :
    (datas : List AccountReserveData) (i : ℕ) (a a' : AccountReserveData)
    → get_elem? datas i ≡ some a
    → (deposits (set datas i a') + a.deposit ≡ deposits datas + a'.deposit)
      × (debts (set datas i a') + a.debt ≡ debts datas + a'.debt)
sums-set [] i a a' h = cc
sums-set (x ∷ xs) zero a a' h = ground arith
sums-set (x ∷ xs) (suc i) a a' h = ground (arith, sums-set xs i a a' h)

-- The totals of a reserve move by as much as the sums over the accounts, of which there are as many.
abbrev pub LevelSums : Turn → Turn → Type 0
LevelSums t t' =
    (length t'.datas ≡ length t.datas)
    × (t'.ctx.reserve_data.total_deposit + deposits t.datas
        ≡ t.ctx.reserve_data.total_deposit + deposits t'.datas)
    × (t'.ctx.reserve_data.total_debt + debts t.datas
        ≡ t.ctx.reserve_data.total_debt + debts t'.datas)

IsLevel : Accounting → Type 0
IsLevel operation =
    (ctx : ReserveDataContext) (a : AccountReserveData) (c : AccountConfig) (red : FeeReductions)
    → Ensures (λ t. Level ctx.reserve_data t.ctx.reserve_data a t.account_data)
        (operation ctx a c red)

account_at-LevelSums :
    (operation : Accounting) (t : Turn) (fees : List FeeReductions) (i : ℕ)
    → IsLevel operation
    → Ensures (λ (t', amount). LevelSums t t') (account_at operation t fees i)
unfolding account_at IsLevel
account_at-LevelSums operation t fees i level = elim (Option-cases (get_elem? t.datas i)) [
  | inl e ↦ rw e tt
  | inr (a, ea) ↦ elim (Option-cases (get_elem? t.configs i)) [
    | inl e ↦ rw (ea, e) tt
    | inr (c, ec) ↦ elim (Option-cases (get_elem? fees i)) [
      | inl e ↦ rw (ea, ec, e) tt
      | inr (red, er) ↦
          rw (ea, ec, er)
            (grind (
              arith,
              level t.ctx a c red,
              λ (a' : AccountReserveData). sums-set t.datas i a a' ea,
              λ (a' : AccountReserveData). length-set t.datas i a',
            ))
    ]
  ]
]

module _ ⦃p : Pendzl⦄ where
  deposit-IsLevel : (amount : ℕ) → IsLevel (λ ctx a c red. account_for_deposit ctx a c red amount)
  unfolding IsLevel
  deposit-IsLevel amount ctx a c red = ground (arith, account_for_deposit_lem ctx a red c amount)

  withdraw-IsLevel :
      (amount : ℕ) (can_mutate : Bool)
      → IsLevel (λ ctx a c red. account_for_withdraw ctx a c red amount can_mutate)
  unfolding IsLevel
  withdraw-IsLevel amount can_mutate ctx a c red =
      ground (arith, account_for_withdraw_lem ctx a red c amount can_mutate)

  borrow-IsLevel : (amount : ℕ) → IsLevel (λ ctx a c red. account_for_borrow ctx a c red amount)
  unfolding IsLevel
  borrow-IsLevel amount ctx a c red = ground (arith, account_for_borrow_lem ctx a red c amount)

  repay-IsLevel :
      (amount : ℕ) (can_mutate : Bool)
      → IsLevel (λ ctx a c red. account_for_repay ctx a c red amount can_mutate)
  unfolding IsLevel
  repay-IsLevel amount can_mutate ctx a c red =
      ground (arith, account_for_repay_lem ctx a red c amount can_mutate)

  account_for_action-LevelSums :
      (t : Turn) (fees : List FeeReductions) (action : ReserveAction)
      → Ensures (λ (t', amount). LevelSums t t') (account_for_action t fees action)
  unfolding account_for_action
  account_for_action-LevelSums t fees (deposit i amount) =
      account_at-LevelSums _ t fees i (deposit-IsLevel amount)
  account_for_action-LevelSums t fees (withdraw i amount can_mutate) =
      account_at-LevelSums _ t fees i (withdraw-IsLevel amount can_mutate)
  account_for_action-LevelSums t fees (borrow i amount) =
      account_at-LevelSums _ t fees i (borrow-IsLevel amount)
  account_for_action-LevelSums t fees (repay i amount) =
      account_at-LevelSums _ t fees i (repay-IsLevel amount true)
  account_for_action-LevelSums t fees (deposit_transfer from to amount can_mutate) = grind (
    arith,
    account_at-LevelSums _ t fees from (withdraw-IsLevel amount can_mutate),
    λ (t' : Turn) (amount' : ℕ). account_at-LevelSums _ t' fees to (deposit-IsLevel amount'),
  )
  account_for_action-LevelSums t fees (debt_transfer from to amount can_mutate) = grind (
    arith,
    account_at-LevelSums _ t fees from (repay-IsLevel amount can_mutate),
    λ (t' : Turn) (amount' : ℕ). account_at-LevelSums _ t' fees to (borrow-IsLevel amount'),
  )

  pub account_for_actions-LevelSums :
      (t : Turn) (fees : List FeeReductions) (actions : List ReserveAction)
      → Ensures (λ (t', amounts). LevelSums t t') (account_for_actions t fees actions)
  unfolding account_for_actions
  account_for_actions-LevelSums t fees [] = ground arith
  account_for_actions-LevelSums t fees (action ∷ rest) = grind (
    arith,
    account_for_action-LevelSums t fees action,
    λ (t' : Turn). account_for_actions-LevelSums t' fees rest,
  )
