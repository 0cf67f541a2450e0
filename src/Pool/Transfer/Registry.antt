-- ===== src/Pool/Transfer/Registry.antt =====
-- The transfers, the liquidation, the choice of collaterals and the accumulation of interest keep the
-- registry of the assets.
use abacus_protocol.Base.{
  ℕ, Bool, List, ◌≡◌, refl, ◌∙◌, insert, arith, Ensures, Ensures-map, Result, is_some, true,
}
use abacus_protocol.Errors.{LendingPoolError}
use abacus_protocol.Library.MulDiv.{Pendzl}
use abacus_protocol.Library.Restrictions.{AccountReserveData}
use abacus_protocol.Library.Reserve.{ReserveData}
use abacus_protocol.Library.Indexes.{ReserveIndexesAndFees}
use abacus_protocol.Library.Account.{AccountConfig, FeeReductions}
use abacus_protocol.Pool.Storage.{AccountId, AccountDatas, LendingPoolStorage, Oracles, asset_id}
use abacus_protocol.Pool.Snapshot.{store_utilization_rate_snapshot}
use abacus_protocol.Pool.Reserve.Actions.{ReserveAction}
use abacus_protocol.Pool.Transfer.{
  insert_account_data, account_for_deposit_transfer_from_to, account_for_debt_transfer_from_to,
  account_for_set_as_collateral, account_for_accumulate_interest,
}
use abacus_protocol.Pool.Lending.Registry.{Keeps, account_for_reserve_action-Keeps}
use abacus_protocol.Pool.Management.Laws.{Registry}

-- The maps of the registry are the same, and no part of a reserve is removed.
abbrev pub Preserves : LendingPoolStorage → LendingPoolStorage → Type 0
Preserves s s' =
    ((s'.next_asset_id ≡ s.next_asset_id)
      × (s'.asset_to_id ≡ s.asset_to_id)
      × (s'.id_to_asset ≡ s.id_to_asset)
      × (s'.reserve_restrictions ≡ s.reserve_restrictions)
      × (s'.reserve_decimal_multiplier ≡ s.reserve_decimal_multiplier))
    × ((j : ℕ) → is_some (s.reserve_datas j) ≡ true → is_some (s'.reserve_datas j) ≡ true)
    × ((j : ℕ)
        → is_some (s.reserve_indexes_and_fees j) ≡ true
        → is_some (s'.reserve_indexes_and_fees j) ≡ true)
    × ((j : ℕ) → is_some (s.tw_ur_indexes j) ≡ true → is_some (s'.tw_ur_indexes j) ≡ true)

pub Preserves-Registry : (s s' : LendingPoolStorage) → Preserves s s' → Registry s → Registry s'
Preserves-Registry s s' (same, datas, indexes, tw) (assets, ids, back) = (
  λ asset id h. grind (arith, assets asset id),
  λ id h. grind (arith, ids id, datas id, indexes id, tw id),
  λ id asset h. grind (arith, back id asset),
)

pub Keeps-Preserves : (s s' : LendingPoolStorage) → Keeps s s' → Preserves s s'
Keeps-Preserves s s' (same, datas, indexes, tw) =
    (rw same (refl, refl, refl, refl, refl), datas, indexes, tw)

pub Preserves-trans :
    (s s' s'' : LendingPoolStorage) → Preserves s s' → Preserves s' s'' → Preserves s s''
Preserves-trans s s' s'' ((a, b, c, d, e), k, l, m) ((a', b', c', d', e'), k', l', m') = (
  (a' ∙ a, b' ∙ b, c' ∙ c, d' ∙ d, e' ∙ e),
  λ j h. k' j (k j h),
  λ j h. l' j (l j h),
  λ j h. m' j (m j h),
)

insert_account_data-Preserves :
    (s : LendingPoolStorage) (datas : AccountDatas) (id : ℕ) (a : AccountReserveData)
    (account : AccountId)
    → Ensures (λ s'. Preserves s s') (insert_account_data s datas id a account)
unfolding insert_account_data
insert_account_data-Preserves s datas id a account = ground arith

pub account_for_set_as_collateral-Registry :
    (s : LendingPoolStorage) (account asset : AccountId) (to_set : Bool)
    → Registry s
    → Ensures Registry (account_for_set_as_collateral s account asset to_set)
unfolding account_for_set_as_collateral asset_id
account_for_set_as_collateral-Registry s account asset to_set registry = ground (arith, registry)

module _ ⦃p : Pendzl⦄ where
  snapshot-Preserves :
      (s : LendingPoolStorage) (id : ℕ) (r : ReserveData) (now : ℕ)
      → Ensures (λ s'. Preserves s s') (store_utilization_rate_snapshot s id r now)
  unfolding store_utilization_rate_snapshot
  snapshot-Preserves s id r now = ground arith

  written-Preserves :
      (s s' : LendingPoolStorage) (id : ℕ) (r : ReserveData) (x : ReserveIndexesAndFees)
      → Preserves s s'
      → Preserves s (record s' {
        reserve_datas = insert id r s'.reserve_datas;
        reserve_indexes_and_fees = insert id x s'.reserve_indexes_and_fees;
      })
  written-Preserves s s' id r x (same, datas, indexes, tw) =
      (same, λ j h. ground (arith, datas j h), λ j h. ground (arith, indexes j h), tw)

  pub account_for_accumulate_interest-Preserves :
      (s : LendingPoolStorage) (asset : AccountId) (now : ℕ)
      → Ensures (λ s'. Preserves s s') (account_for_accumulate_interest s asset now)
  unfolding account_for_accumulate_interest
  account_for_accumulate_interest-Preserves s asset now = grind (
    arith,
    λ (id : ℕ) (r : ReserveData). snapshot-Preserves s id r now,
    λ (s' : LendingPoolStorage) (id : ℕ) (r : ReserveData) (x : ReserveIndexesAndFees).
        written-Preserves s s' id r x,
  )

  pub account_for_deposit_transfer_from_to-Preserves :
      ⦃o : Oracles⦄ (s : LendingPoolStorage) (asset from to : AccountId) (amount now : ℕ)
      → Ensures
          (λ (s', interests). Preserves s s')
          (account_for_deposit_transfer_from_to s asset from to amount now)
  unfolding account_for_deposit_transfer_from_to
  account_for_deposit_transfer_from_to-Preserves s asset from to amount now = grind (
    arith,
    λ (id : ℕ) (datas : List AccountReserveData) (configs : List AccountConfig)
          (fees : List FeeReductions) (actions : List ReserveAction).
        account_for_reserve_action-Keeps s id datas configs fees actions now,
    λ (s' : LendingPoolStorage) (datas : AccountDatas) (id : ℕ) (a : AccountReserveData).
        insert_account_data-Preserves s' datas id a to,
  )

  pub account_for_debt_transfer_from_to-Preserves :
      ⦃o : Oracles⦄ (s : LendingPoolStorage) (asset from to : AccountId) (amount now : ℕ)
      → Ensures
          (λ (s', interests). Preserves s s')
          (account_for_debt_transfer_from_to s asset from to amount now)
  unfolding account_for_debt_transfer_from_to
  account_for_debt_transfer_from_to-Preserves s asset from to amount now = grind (
    arith,
    λ (id : ℕ) (datas : List AccountReserveData) (configs : List AccountConfig)
          (fees : List FeeReductions) (actions : List ReserveAction).
        account_for_reserve_action-Keeps s id datas configs fees actions now,
    λ (s' : LendingPoolStorage) (datas : AccountDatas) (id : ℕ) (a : AccountReserveData).
        insert_account_data-Preserves s' datas id a from,
  )

-- What preserves the registry's maps keeps the registry.
pub Preserves-Ensures {ℓ} :
    {A : Type ℓ} (s : LendingPoolStorage) (r : Result LendingPoolError A)
    (storage : A → LendingPoolStorage)
    → Registry s
    → Ensures (λ a. Preserves s (storage a)) r
    → Ensures (λ a. Registry (storage a)) r
Preserves-Ensures s r storage registry =
    Ensures-map r (λ a k. Preserves-Registry s (storage a) k registry)
