-- ===== src/Pool/Reserve/Actions.antt =====
-- `account_for_reserve_action` of storage/mod.rs: a list of actions on one reserve, over the
-- accounts that take part in it.
pub mod Conservation
pub mod Frame
use abacus_protocol.Base.{
  ℕ, Bool, not, List, [], ◌∷◌, Option, none, some, Result, ok, ok_or, unwrap, ◌>>=◌, ◌>>◌,
  refuse_if, insert, ◌==◌, checked_add, u128_mod, length, get_elem?, set, replicate, true,
}
use abacus_protocol.Errors.{
  LendingPoolError, MathError, overflow, vectors_inconsistent_lengths, from_math,
}
use abacus_protocol.Library.MulDiv.{Pendzl}
use abacus_protocol.Library.Reserve.{ReserveData, recalculate_current_rates}
use abacus_protocol.Library.Restrictions.{AccountReserveData}
use abacus_protocol.Library.InterestRate.{InterestRateModel}
use abacus_protocol.Library.Indexes.{update}
use abacus_protocol.Library.Account.{AccountConfig, FeeReductions}
use abacus_protocol.Pool.Storage.{
  LendingPoolStorage, get_reserve_data, get_reserve_restrictions, get_reserve_indexes_and_fees,
}
use abacus_protocol.Pool.Snapshot.{store_utilization_rate_snapshot}
use abacus_protocol.Pool.Reserve.{
  ReserveDataContext, Accounted, account_for_deposit, account_for_withdraw, account_for_borrow,
  account_for_repay,
}

pub data ReserveAction : Type 0 where
  deposit : ℕ → ℕ → ReserveAction
  withdraw : ℕ → ℕ → Bool → ReserveAction
  borrow : ℕ → ℕ → ReserveAction
  repay : ℕ → ℕ → ReserveAction
  deposit_transfer : ℕ → ℕ → ℕ → Bool → ReserveAction
  debt_transfer : ℕ → ℕ → ℕ → Bool → ReserveAction

-- `InterestsAcc::update_at`
unfoldable pub update_at : List (ℕ × ℕ) → ℕ → ℕ × ℕ → Result MathError (List (ℕ × ℕ))
update_at items index interests = do
  old ← unwrap (get_elem? items index)
  first ← ok_or (checked_add u128_mod old.0 interests.0) overflow
  second ← ok_or (checked_add u128_mod old.1 interests.1) overflow
  ok (set items index (first, second))

-- What the loop over the actions changes.
pub record Turn : Type 0 where
  pub ctx : ReserveDataContext
  pub datas : List AccountReserveData
  pub configs : List AccountConfig
  pub items : List (ℕ × ℕ)

-- One of the four operations, with its amount.
abbrev pub Accounting : Type 0
Accounting =
    ReserveDataContext
    → AccountReserveData
    → AccountConfig
    → FeeReductions
    → Result LendingPoolError Accounted

-- An operation on the account at an index; the amount comes back as the operation left it.
unfoldable pub account_at :
    Accounting → Turn → List FeeReductions → ℕ → Result LendingPoolError (Turn × ℕ)
account_at operation t fees index = do
  a ← unwrap (get_elem? t.datas index)
  c ← unwrap (get_elem? t.configs index)
  reductions ← unwrap (get_elem? fees index)
  done ← operation t.ctx a c reductions
  items ← from_math (update_at t.items index done.interests)
  ok (
    record {
      ctx = done.ctx;
      datas = set t.datas index done.account_data;
      configs = set t.configs index done.config;
      items = items;
    },
    done.amount,
  )

module _ ⦃p : Pendzl⦄ where
  -- One action, and the amount that it leaves in its place.
  unfoldable pub account_for_action :
      Turn → List FeeReductions → ReserveAction → Result LendingPoolError (Turn × ℕ)
  account_for_action t fees (deposit i amount) =
      account_at (λ ctx a c red. account_for_deposit ctx a c red amount) t fees i
  account_for_action t fees (withdraw i amount can_mutate) =
      account_at (λ ctx a c red. account_for_withdraw ctx a c red amount can_mutate) t fees i
  account_for_action t fees (borrow i amount) =
      account_at (λ ctx a c red. account_for_borrow ctx a c red amount) t fees i
  account_for_action t fees (repay i amount) =
      account_at (λ ctx a c red. account_for_repay ctx a c red amount true) t fees i
  account_for_action t fees (deposit_transfer from to amount can_mutate) = do
    (t', amount') ←
        account_at (λ ctx a c red. account_for_withdraw ctx a c red amount can_mutate) t fees from
    account_at (λ ctx a c red. account_for_deposit ctx a c red amount') t' fees to
  account_for_action t fees (debt_transfer from to amount can_mutate) = do
    (t', amount') ←
        account_at (λ ctx a c red. account_for_repay ctx a c red amount can_mutate) t fees from
    account_at (λ ctx a c red. account_for_borrow ctx a c red amount') t' fees to

  unfoldable pub account_for_actions :
      Turn → List FeeReductions → List ReserveAction → Result LendingPoolError (Turn × List ℕ)
  account_for_actions t fees [] = ok (t, [])
  account_for_actions t fees (action ∷ rest) = do
    (t', amount) ← account_for_action t fees action
    (t'', amounts) ← account_for_actions t' fees rest
    ok (t'', amount ∷ amounts)

  -- `if let Some(params) = model { reserve_data.recalculate_current_rates(&params)? }`
  unfoldable pub recalculated :
      ReserveData → Option InterestRateModel → Result LendingPoolError ReserveData
  recalculated r none = ok r
  recalculated r (some model) = from_math (recalculate_current_rates r model)

  -- The context before the first action: the snapshot is stored and the indexes are updated.
  unfoldable pub open_reserve :
      LendingPoolStorage → ℕ → ℕ → Result LendingPoolError (LendingPoolStorage × ReserveDataContext)
  unfolding get_reserve_data get_reserve_indexes_and_fees get_reserve_restrictions
  open_reserve s id timestamp = do
    r ← get_reserve_data s id
    x ← get_reserve_indexes_and_fees s id
    restrictions ← get_reserve_restrictions s id
    s' ← store_utilization_rate_snapshot s id r timestamp
    indexes ← from_math (update x.indexes r timestamp)
    ok (
      s',
      record {
        asset_id = id;
        reserve_data = r;
        reserve_indexes_and_fees = record x { indexes = indexes };
        reserve_restrictions = restrictions;
      },
    )

  -- The storage, the accounts' data and configs, the interests and the amounts of the actions.
  unfoldable pub account_for_reserve_action :
      LendingPoolStorage
      → ℕ
      → List AccountReserveData
      → List AccountConfig
      → List FeeReductions
      → List ReserveAction
      → ℕ
      → Result LendingPoolError (LendingPoolStorage × Turn × List ℕ)
  account_for_reserve_action s id datas configs fees actions timestamp = do
    refuse_if (not (length datas == length configs)) vectors_inconsistent_lengths
    (s', ctx) ← open_reserve s id timestamp
    (t, amounts) ←
        account_for_actions
          (record {
            ctx = ctx;
            datas = datas;
            configs = configs;
            items = replicate (length datas) (0, 0);
          })
          fees actions
    r ← recalculated t.ctx.reserve_data (s'.interest_rate_model id)
    ok (
      record s' {
        reserve_datas = insert id r s'.reserve_datas;
        reserve_indexes_and_fees =
            insert id t.ctx.reserve_indexes_and_fees s'.reserve_indexes_and_fees;
      },
      t,
      amounts,
    )
