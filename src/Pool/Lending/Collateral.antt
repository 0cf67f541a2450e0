-- ===== src/Pool/Lending/Collateral.antt =====
-- A list of actions that borrows is accepted only if the account is collateralized afterwards.
use abacus_protocol.Base.{
  ℕ, ◌≡◌, refl, ◌∙◌, Bool, true, false, ◌||◌, List, [], ◌∷◌, arith, Ensures, ok, length, ==-refl,
}
use abacus_protocol.Library.MulDiv.{Pendzl}
use abacus_protocol.Library.Account.{AccountConfig, FeeReductions}
use abacus_protocol.Pool.Storage.{
  AccountId, LendingPoolStorage, Oracles, get_account_datas, get_account_config,
  get_fee_reductions_of_account,
}
use abacus_protocol.Pool.Power.{ensure_collateralized_from_raw, ensure_collateralized_by_account}
use abacus_protocol.Pool.Power.Frame.{ensure_collateralized_from_raw-frame}
use abacus_protocol.Pool.Reserve.Actions.Frame.{SameAccounts}
use abacus_protocol.Pool.Lending.{
  Operation, Action, Progress, check_after, account_for_account_action, account_for_each,
  account_for_account_actions, opened, written, check_progress,
}
use abacus_protocol.Pool.Lending.Conservation.{
  account_for_each-Moves, get_account_datas-length, get_account_datas-stored,
}

-- Whether a list of actions borrows.
abbrev pub is_borrow : Operation → Bool
is_borrow Operation.deposit = false
is_borrow Operation.withdraw = false
is_borrow Operation.borrow = true
is_borrow Operation.repay = false

abbrev pub has_borrow : List Action → Bool
has_borrow [] = false
has_borrow (action ∷ rest) = is_borrow action.op || has_borrow rest

check_after_lem :
    (op : Operation) (config : AccountConfig) (id : ℕ) (must : Bool)
    → Ensures
        (λ must'. (must || is_borrow op) ≡ true → must' ≡ true)
        (check_after op config id must)
unfolding check_after
check_after_lem Operation.deposit config id must = ground arith
check_after_lem Operation.withdraw config id must = ground arith
check_after_lem Operation.borrow config id must = ground arith
check_after_lem Operation.repay config id must = ground arith

module _ ⦃p : Pendzl⦄ where
  action_must :
      (reductions : FeeReductions) (now : ℕ) (g : Progress) (action : Action)
      → Ensures
          (λ (g', amount).
            (g.must_check_collateralization || is_borrow action.op) ≡ true
            → g'.must_check_collateralization ≡ true)
          (account_for_account_action reductions now g action)
  unfolding account_for_account_action
  action_must reductions now g action =
      grind
        (arith, λ (id : ℕ). check_after_lem action.op g.config id g.must_check_collateralization)

  each_must :
      (reductions : FeeReductions) (now : ℕ) (g : Progress) (actions : List Action)
      → Ensures
          (λ (g', amounts).
            (g.must_check_collateralization || has_borrow actions) ≡ true
            → g'.must_check_collateralization ≡ true)
          (account_for_each reductions now g actions)
  unfolding account_for_each
  each_must reductions now g [] = grind arith
  each_must reductions now g (action ∷ rest) = grind (
    arith,
    action_must reductions now g action,
    λ (g' : Progress). each_must reductions now g' rest,
  )

  module _ ⦃o : Oracles⦄ where
    check_progress_lem :
        (s : LendingPoolStorage) (account : AccountId) (g : Progress)
        → SameAccounts s g.storage
        → length g.datas ≡ length (get_account_datas s account)
        → g.must_check_collateralization ≡ true
        → check_progress (get_fee_reductions_of_account s account) g ≡ ok tt
        → ensure_collateralized_by_account (written account g) account ≡ ok tt
    unfolding check_progress ensure_collateralized_by_account get_fee_reductions_of_account
        get_account_config
    check_progress_lem s account g same len must checked =
        let s' = written account g in
        let reductions = get_fee_reductions_of_account s account in
        let fees : get_fee_reductions_of_account s' account ≡ reductions = rw same refl in
        let enough = get_account_datas-length s account in
        let read : get_account_datas s' account ≡ g.datas =
          get_account_datas-stored s' account g.datas (grind (arith, ==-refl account))
            (grind arith) in
        let due : ensure_collateralized_from_raw g.storage g.datas g.config reductions ≡ ok tt =
          grind arith in
        rw (read, fees, ==-refl account)
          (ensure_collateralized_from_raw-frame g.storage s'.account_reserve_datas
              s'.account_configs g.datas g.config reductions
            ∙ due)

    -- If a list of actions with a borrow among them is accepted, the account passes the
    -- collateralization check in the storage that is left, at the same prices.
    pub borrow-IsCollateralized :
        (s : LendingPoolStorage) (account : AccountId) (actions : List Action) (now : ℕ)
        → has_borrow actions ≡ true
        → Ensures
            (λ (s', interests, amounts). ensure_collateralized_by_account s' account ≡ ok tt)
            (account_for_account_actions s account actions now)
    unfolding account_for_account_actions
    borrow-IsCollateralized s account actions now borrows =
        let reductions = get_fee_reductions_of_account s account in
        grind (
          arith,
          account_for_each-Moves reductions now (opened s account) actions 0,
          each_must reductions now (opened s account) actions,
          λ (g : Progress). check_progress_lem s account g,
        )
