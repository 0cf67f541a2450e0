-- ===== src/Pool/Transfer.antt =====
-- The transfers of deposits and of debts between accounts, and the choice of collaterals: the rest
-- of the lending section of storage/mod.rs but for the liquidation.
pub mod Collateral
pub mod Shift
pub mod Registry
use Prim.Native.Nat.{bit_and}
use abacus_protocol.Base.{
  ℕ, zero, suc, ◌^◌, Bool, true, false, ◌&&◌, List, [], ◌∷◌, Option, none, some, Result, ok, ok_or,
  unwrap, ◌>>=◌, ◌>>◌, refuse_if, insert, ◌==◌, if◌then◌else◌, unwrap_or, get_elem?, set,
}
use abacus_protocol.Base.Bits.{set_bit, clear_bit}
use abacus_protocol.Errors.{
  LendingPoolError, insufficient_deposit, insufficient_collateral, rule_collateral_disable,
  from_restrictions, from_math,
}
use abacus_protocol.Library.MulDiv.{Pendzl}
use abacus_protocol.Library.Indexes.{update}
use abacus_protocol.Library.Restrictions.{AccountReserveData, ensure_collateral_exceeds_minimum}
use abacus_protocol.Library.Account.{shifted}
use abacus_protocol.Pool.Storage.{
  AccountId, AccountDatas, LendingPoolStorage, Oracles, asset_id, get_account_config,
  get_account_data_entry_mut, get_fee_reductions_of_account, get_account_reserve_data,
  get_market_rule, get_reserve_data, get_reserve_restrictions, get_reserve_indexes_and_fees,
}
use abacus_protocol.Pool.Snapshot.{store_utilization_rate_snapshot}
use abacus_protocol.Pool.Reserve.Actions.{ReserveAction, account_for_reserve_action, recalculated}
use abacus_protocol.Pool.Power.{ensure_collateralized_from_raw}

-- `Vec::insert`, which moves the elements from the index on up by one, and panics beyond the end.
unfoldable pub insert_at {ℓ} : {A : Type ℓ} → List A → ℕ → A → Option (List A)
insert_at xs zero v = some (v ∷ xs)
insert_at [] (suc i) v = none
insert_at (x ∷ xs) (suc i) v = elim (insert_at xs i v) [ none ↦ none | some ys ↦ some (x ∷ ys) ]

unfoldable pub insert_account_data :
    LendingPoolStorage
    → AccountDatas
    → ℕ
    → AccountReserveData
    → AccountId
    → Result LendingPoolError LendingPoolStorage
unfolding insert_at
insert_account_data s datas id updated account = do
  datas' ← unwrap (insert_at datas id (some updated))
  ok (record s { account_reserve_datas = insert account datas' s.account_reserve_datas })

-- Two accounts' data and configs after an action on both.
abbrev pub both {ℓ} : {A : Type ℓ} → List A → Result LendingPoolError (A × A)
both xs = do first ← unwrap (get_elem? xs 0); second ← unwrap (get_elem? xs 1); ok (first, second)

module _ ⦃p : Pendzl⦄ ⦃o : Oracles⦄ where
  -- The storage and the interests of both accounts. The check of the collateralization is made if
  -- `collaterals & (1 << id) == 1`.
  unfoldable pub account_for_deposit_transfer_from_to :
      LendingPoolStorage
      → AccountId
      → AccountId
      → AccountId
      → ℕ
      → ℕ
      → Result LendingPoolError (LendingPoolStorage × ((ℕ × ℕ) × (ℕ × ℕ)))
  unfolding asset_id insert_account_data
  account_for_deposit_transfer_from_to s asset from to amount timestamp = do
    id ← asset_id s asset
    from_config ← ok_or (s.account_configs from) insufficient_deposit
    from_datas ← ok_or (s.account_reserve_datas from) insufficient_deposit
    let to_config = get_account_config s to
    let (to_data, to_datas) = get_account_reserve_data s id to
    entry ← unwrap (get_elem? from_datas id)
    from_data ← ok_or entry insufficient_deposit
    (s', t, amounts) ←
        account_for_reserve_action s id (from_data ∷ to_data ∷ []) (from_config ∷ to_config ∷ [])
          (get_fee_reductions_of_account s from ∷ get_fee_reductions_of_account s to ∷ [])
          (ReserveAction.deposit_transfer 0 1 amount false ∷ []) timestamp
    (from_data', to_data') ← both t.datas
    (from_config', to_config') ← both t.configs
    interests ← both t.items
    let from_datas' = set from_datas id (some from_data')
    is_first ← shifted id (bit_and from_config'.collaterals (2 ^ id) == 1)
    (elim is_first [
      | true ↦
          ensure_collateralized_from_raw s' from_datas' from_config'
            (get_fee_reductions_of_account s' from)
      | false ↦ ok tt
    ])
    s'' ← insert_account_data s' to_datas id to_data' to
    ok (
      record s'' {
        account_reserve_datas = insert from from_datas' s''.account_reserve_datas;
        account_configs = insert to to_config' (insert from from_config' s''.account_configs);
      },
      interests,
    )

  unfoldable pub account_for_debt_transfer_from_to :
      LendingPoolStorage
      → AccountId
      → AccountId
      → AccountId
      → ℕ
      → ℕ
      → Result LendingPoolError (LendingPoolStorage × ((ℕ × ℕ) × (ℕ × ℕ)))
  unfolding asset_id insert_account_data get_account_data_entry_mut
  account_for_debt_transfer_from_to s asset from to amount timestamp = do
    id ← asset_id s asset
    let from_config = get_account_config s from
    let (from_data, from_datas) = get_account_reserve_data s id from
    to_config ← ok_or (s.account_configs to) insufficient_collateral
    stored ← ok_or (s.account_reserve_datas to) insufficient_collateral
    (to_data, to_datas) ← get_account_data_entry_mut stored id
    (s', t, amounts) ←
        account_for_reserve_action s id (from_data ∷ to_data ∷ []) (from_config ∷ to_config ∷ [])
          (get_fee_reductions_of_account s from ∷ get_fee_reductions_of_account s to ∷ [])
          (ReserveAction.debt_transfer 0 1 amount false ∷ []) timestamp
    (from_data', to_data') ← both t.datas
    (from_config', to_config') ← both t.configs
    interests ← both t.items
    let to_datas' = set to_datas id (some to_data')
    ensure_collateralized_from_raw s' to_datas' to_config' (get_fee_reductions_of_account s' to)
    s'' ← insert_account_data s' from_datas id from_data' from
    ok (
      record s'' {
        account_reserve_datas = insert to to_datas' s''.account_reserve_datas;
        account_configs = insert from from_config' (insert to to_config' s''.account_configs);
      },
      interests,
    )

unfoldable pub account_for_set_as_collateral :
    LendingPoolStorage → AccountId → AccountId → Bool → Result LendingPoolError LendingPoolStorage
unfolding asset_id get_market_rule get_reserve_restrictions
account_for_set_as_collateral s account asset to_set = do
  id ← asset_id s asset
  let a = (get_account_reserve_data s id account).0
  let config = get_account_config s account
  restrictions ← get_reserve_restrictions s id
  rule ← get_market_rule s config
  entry ← ok_or (get_elem? rule id) rule_collateral_disable
  rules ← ok_or entry rule_collateral_disable
  let coefficient = unwrap_or rules.collateral_coefficient_e6 0
  refuse_if (to_set && coefficient == 0) rule_collateral_disable
  (if to_set then from_restrictions (ensure_collateral_exceeds_minimum restrictions a) else ok tt)
  collaterals ←
      (if to_set
        then shifted id (set_bit config.collaterals id)
        else shifted id (clear_bit config.collaterals id))
  ok (record s {
    account_configs =
        insert account (record config { collaterals = collaterals }) s.account_configs;
  })

module _ ⦃p : Pendzl⦄ where
  unfoldable pub account_for_accumulate_interest :
      LendingPoolStorage → AccountId → ℕ → Result LendingPoolError LendingPoolStorage
  unfolding asset_id get_reserve_data get_reserve_indexes_and_fees recalculated
  account_for_accumulate_interest s asset timestamp = do
    id ← asset_id s asset
    r ← get_reserve_data s id
    x ← get_reserve_indexes_and_fees s id
    s' ← store_utilization_rate_snapshot s id r timestamp
    indexes ← from_math (update x.indexes r timestamp)
    r' ← recalculated r (s.interest_rate_model id)
    ok (record s' {
      reserve_datas = insert id r' s'.reserve_datas;
      reserve_indexes_and_fees =
          insert id (record x { indexes = indexes }) s'.reserve_indexes_and_fees;
    })
