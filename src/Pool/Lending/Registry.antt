-- ===== src/Pool/Lending/Registry.antt =====
-- The lending operations keep the registry of the assets.
use mathlib.Core.Path.{subst}
use abacus_protocol.Base.{
  ℕ, ◌≡◌, refl, true, List, [], ◌∷◌, arith, Ensures, is_some, Result-cases, inl, inr,
}
use abacus_protocol.Library.MulDiv.{Pendzl}
use abacus_protocol.Library.Restrictions.{AccountReserveData}
use abacus_protocol.Library.Account.{AccountConfig, FeeReductions}
use abacus_protocol.Pool.Storage.{
  AccountId, LendingPoolStorage, Oracles, get_fee_reductions_of_account,
}
use abacus_protocol.Pool.Snapshot.{store_utilization_rate_snapshot}
use abacus_protocol.Pool.Reserve.Actions.{ReserveAction, account_for_reserve_action, open_reserve}
use abacus_protocol.Pool.Reserve.Actions.Frame.{SameAccounts}
use abacus_protocol.Pool.Lending.{
  Action, Progress, reserve_action, account_for_account_action, account_for_each,
  account_for_account_actions, opened, written, check_progress,
}
use abacus_protocol.Pool.Management.Laws.{Registry}

-- No part of a reserve is removed from the maps that an action writes.
abbrev pub Keeps : LendingPoolStorage → LendingPoolStorage → Type 0
Keeps s s' =
    SameAccounts s s'
    × ((j : ℕ) → is_some (s.reserve_datas j) ≡ true → is_some (s'.reserve_datas j) ≡ true)
    × ((j : ℕ)
        → is_some (s.reserve_indexes_and_fees j) ≡ true
        → is_some (s'.reserve_indexes_and_fees j) ≡ true)
    × ((j : ℕ) → is_some (s.tw_ur_indexes j) ≡ true → is_some (s'.tw_ur_indexes j) ≡ true)

pub Keeps-Registry : (s s' : LendingPoolStorage) → Keeps s s' → Registry s → Registry s'
Keeps-Registry s s' (same, datas, indexes, tw) (assets, ids, back) = (
  λ asset id h. grind (arith, assets asset id),
  λ id h. grind (arith, ids id, datas id, indexes id, tw id),
  λ id asset h. grind (arith, back id asset),
)

module _ ⦃p : Pendzl⦄ where
  snapshot-Keeps :
      (s : LendingPoolStorage) (id now : ℕ)
      → Ensures
          (λ (s', ctx).
            (s' ≡ record s { tw_ur_indexes = s'.tw_ur_indexes; tw_ur_entries = s'.tw_ur_entries })
            × ((j : ℕ) → is_some (s.tw_ur_indexes j) ≡ true → is_some (s'.tw_ur_indexes j) ≡ true))
          (open_reserve s id now)
  unfolding open_reserve store_utilization_rate_snapshot
  snapshot-Keeps s id now = ground arith

  pub account_for_reserve_action-Keeps :
      (s : LendingPoolStorage) (id : ℕ) (datas : List AccountReserveData)
      (configs : List AccountConfig) (fees : List FeeReductions) (actions : List ReserveAction)
      (now : ℕ)
      → Ensures
          (λ (s', t, amounts). Keeps s s')
          (account_for_reserve_action s id datas configs fees actions now)
  unfolding account_for_reserve_action
  account_for_reserve_action-Keeps s id datas configs fees actions now =
      grind (arith, snapshot-Keeps s id now)

  action-Keeps :
      (reductions : FeeReductions) (now : ℕ) (g : Progress) (action : Action)
      → Ensures
          (λ (g', amount). Keeps g.storage g'.storage)
          (account_for_account_action reductions now g action)
  unfolding account_for_account_action
  action-Keeps reductions now g action = grind (
    arith,
    λ (id : ℕ) (a : AccountReserveData).
        account_for_reserve_action-Keeps g.storage id (a ∷ []) (g.config ∷ []) (reductions ∷ [])
          (reserve_action action.op action.amount ∷ []) now,
  )

  each-Keeps :
      (reductions : FeeReductions) (now : ℕ) (g : Progress) (actions : List Action)
      → Ensures
          (λ (g', amounts). Keeps g.storage g'.storage)
          (account_for_each reductions now g actions)
  unfolding account_for_each
  each-Keeps reductions now g [] = (refl, λ j h. h, λ j h. h, λ j h. h)
  each-Keeps reductions now g (action ∷ rest) = grind (
    arith,
    action-Keeps reductions now g action,
    λ (g' : Progress). each-Keeps reductions now g' rest,
  )

  -- From a storage with a registry, an accepted list of actions keeps it: the two asset maps
  -- inverse to each other and a complete reserve under each id.
  pub account_for_account_actions-Registry :
      ⦃o : Oracles⦄ (s : LendingPoolStorage) (account : AccountId) (actions : List Action) (now : ℕ)
      → Registry s
      → Ensures
          (λ (s', interests, amounts). Registry s')
          (account_for_account_actions s account actions now)
  unfolding account_for_account_actions
  account_for_account_actions-Registry s account actions now registry =
      let reductions = get_fee_reductions_of_account s account in
      let keeps = each-Keeps reductions now (opened s account) actions in
      elim (Result-cases (account_for_each reductions now (opened s account) actions)) [
        | inl ((g, amounts), e) ↦
            let kept : Registry (written account g) =
              Keeps-Registry s g.storage (subst (Ensures _) e keeps) registry in
            rw e (elim (Result-cases (check_progress reductions g)) [
              | inl (u, q) ↦ rw q kept
              | inr (inl (f, q)) ↦ rw q tt
              | inr (inr q) ↦ rw q tt
            ])
        | inr (inl (f, e)) ↦ rw e tt
        | inr (inr e) ↦ rw e tt
      ]
