-- ===== src/Pool/Lending.antt =====
-- `account_for_account_actions` of storage/mod.rs: a list of actions for one account, each on the
-- reserve of its asset (src/library/structs/multi_op.rs), with one check of the collateralization after
-- the last.
pub mod Conservation
pub mod Collateral
pub mod Registry
pub mod Flags
pub mod Booking
use abacus_protocol.Base.{
  ℕ, Bool, true, false, ◌||◌, List, [], ◌∷◌, ◌++◌, some, Result, ok, unwrap, ◌>>=◌, ◌>>◌, insert,
  ◌==◌, get_elem?, set,
}
use abacus_protocol.Base.Bits.{bit_at}
use abacus_protocol.Errors.{LendingPoolError}
use abacus_protocol.Library.MulDiv.{Pendzl}
use abacus_protocol.Library.Account.{AccountConfig, FeeReductions, shifted}
use abacus_protocol.Pool.Storage.{
  AccountId, AccountDatas, LendingPoolStorage, Oracles, asset_id, get_account_datas,
  get_account_config, get_account_data_entry_mut, get_fee_reductions_of_account,
}
use abacus_protocol.Pool.Reserve.Actions.{ReserveAction, account_for_reserve_action}
use abacus_protocol.Pool.Power.{ensure_collateralized_from_raw}

pub data Operation : Type 0 where
  deposit withdraw borrow repay : Operation

-- An operation with its `OperationArgs`.
pub record Action : Type 0 where
  pub op : Operation
  pub asset : AccountId
  pub amount : ℕ

-- The action on the reserve that stands for an operation of the account at index 0.
abbrev pub reserve_action : Operation → ℕ → ReserveAction
reserve_action Operation.deposit amount = ReserveAction.deposit 0 amount
reserve_action Operation.withdraw amount = ReserveAction.withdraw 0 amount true
reserve_action Operation.borrow amount = ReserveAction.borrow 0 amount
reserve_action Operation.repay amount = ReserveAction.repay 0 amount

-- What the loop changes.
pub record Progress : Type 0 where
  pub storage : LendingPoolStorage
  pub datas : AccountDatas
  pub config : AccountConfig
  pub must_check_collateralization : Bool
  pub results : List (ℕ × ℕ)

-- Whether the check is due after an operation on an asset.
unfoldable pub check_after : Operation → AccountConfig → ℕ → Bool → Result LendingPoolError Bool
check_after Operation.deposit config id must = ok must
check_after Operation.withdraw config id must =
    shifted id (must || (bit_at config.collaterals id == 1))
check_after Operation.borrow config id must = ok true
check_after Operation.repay config id must = ok must

module _ ⦃p : Pendzl⦄ where
  -- One action, and its amount as it is afterwards.
  unfoldable pub account_for_account_action :
      FeeReductions → ℕ → Progress → Action → Result LendingPoolError (Progress × ℕ)
  unfolding asset_id
  account_for_account_action reductions timestamp g action = do
    id ← asset_id g.storage action.asset
    (a, datas) ← get_account_data_entry_mut g.datas id
    must ← check_after action.op g.config id g.must_check_collateralization
    (s, t, amounts) ←
        account_for_reserve_action g.storage id (a ∷ []) (g.config ∷ []) (reductions ∷ [])
          (reserve_action action.op action.amount ∷ []) timestamp
    a' ← unwrap (get_elem? t.datas 0)
    config ← unwrap (get_elem? t.configs 0)
    interests ← unwrap (get_elem? t.items 0)
    amount ← unwrap (get_elem? amounts 0)
    ok (
      record {
        storage = s;
        datas = set datas id (some a');
        config = config;
        must_check_collateralization = must;
        results = g.results ++ interests ∷ [];
      },
      amount,
    )

  unfoldable pub account_for_each :
      FeeReductions → ℕ → Progress → List Action → Result LendingPoolError (Progress × List ℕ)
  account_for_each reductions timestamp g [] = ok (g, [])
  account_for_each reductions timestamp g (action ∷ rest) = do
    (g', amount) ← account_for_account_action reductions timestamp g action
    (g'', amounts) ← account_for_each reductions timestamp g' rest
    ok (g'', amount ∷ amounts)

-- What is read before the loop, and what is written after it.
abbrev pub opened : LendingPoolStorage → AccountId → Progress
opened s account = record {
  storage = s;
  datas = get_account_datas s account;
  config = get_account_config s account;
  must_check_collateralization = false;
  results = [];
}

abbrev pub written : AccountId → Progress → LendingPoolStorage
written account g =
    let s = g.storage in
    record s {
      account_reserve_datas = insert account g.datas s.account_reserve_datas;
      account_configs = insert account g.config s.account_configs;
    }

module _ ⦃p : Pendzl⦄ ⦃o : Oracles⦄ where
  -- `if must_check_collateralization { ensure_collateralized_from_raw(..)? }`
  unfoldable pub check_progress : FeeReductions → Progress → Result LendingPoolError (Unit {0})
  check_progress reductions g = elim g.must_check_collateralization [
    | true ↦ ensure_collateralized_from_raw g.storage g.datas g.config reductions
    | false ↦ ok tt
  ]

  -- The storage, the interests of each action, and the amounts.
  unfoldable pub account_for_account_actions :
      LendingPoolStorage
      → AccountId
      → List Action
      → ℕ
      → Result LendingPoolError (LendingPoolStorage × List (ℕ × ℕ) × List ℕ)
  unfolding check_progress
  account_for_account_actions s account actions timestamp = do
    let reductions = get_fee_reductions_of_account s account
    (g, amounts) ← account_for_each reductions timestamp (opened s account) actions
    check_progress reductions g
    ok (written account g, g.results, amounts)
