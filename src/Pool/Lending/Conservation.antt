-- ===== src/Pool/Lending/Conservation.antt =====
-- The actions of one account move the totals of each reserve by as much as its own balances.
use mathlib.Core.Path.{subst}
use native.Mathlib.Decide.{ℕ_discrete}
use abacus_protocol.Base.{
  ℕ, ◌+◌, ◌-◌, ◌≤◌, ◌≡◌, refl, ap, sym, ◌∙◌, ◌≢◌, List, [], ◌∷◌, Option, none, some, inl, inr,
  arith, Ensures, get_elem?, set, length, length-set, length-append, length-replicate, replicate,
  get_elem?-set_self, get_elem?-set_ne, Option-cases, unwrap_or, ==-refl, ==-ne,
}
use abacus_protocol.Library.MulDiv.{Pendzl}
use abacus_protocol.Library.Restrictions.{AccountReserveData}
use abacus_protocol.Library.Account.{FeeReductions, default_account}
use abacus_protocol.Pool.Storage.{
  AccountId, AccountDatas, LendingPoolStorage, Oracles, data_or_default, get_account_datas,
  get_account_data_entry_mut, get_fee_reductions_of_account,
}
use abacus_protocol.Pool.Reserve.Actions.Conservation.{deposits, debts}
use abacus_protocol.Pool.Reserve.Actions.Frame.{
  total_deposit_in, total_debt_in, SameAccounts, account_for_reserve_action-conserves,
}
use abacus_protocol.Pool.Lending.{
  Action, Progress, reserve_action, account_for_account_action, account_for_each,
  account_for_account_actions, opened, written,
}

-- The balances of an account in an asset.
abbrev pub deposit_of : AccountDatas → ℕ → ℕ
deposit_of datas id = (data_or_default (get_elem? datas id)).deposit

abbrev pub debt_of : AccountDatas → ℕ → ℕ
debt_of datas id = (data_or_default (get_elem? datas id)).debt

-- The totals of an asset move with the account's balances in it.
abbrev pub Moves :
    ℕ → LendingPoolStorage → AccountDatas → LendingPoolStorage → AccountDatas → Type 0
Moves id s datas s' datas' =
    (total_deposit_in s' id + deposit_of datas id ≡ total_deposit_in s id + deposit_of datas' id)
    × (total_debt_in s' id + debt_of datas id ≡ total_debt_in s id + debt_of datas' id)

pub one_account :
    (xs : List AccountReserveData) (a : AccountReserveData)
    → length xs ≡ 1
    → get_elem? xs 0 ≡ some a
    → (deposits xs ≡ a.deposit) × (debts xs ≡ a.debt)
one_account [] a h e = cc
one_account (x ∷ []) a h e = ground arith
one_account (x ∷ y ∷ rest) a h e = absurd (omega arith)

pub entry_lem :
    (datas : AccountDatas) (id : ℕ)
    → Ensures
        (λ (a, datas').
          (a ≡ data_or_default (get_elem? datas id))
          × (datas' ≡ set datas id (some a))
          × (get_elem? datas' id ≡ some (some a)))
        (get_account_data_entry_mut datas id)
unfolding get_account_data_entry_mut
entry_lem datas id = elim (Option-cases (get_elem? datas id)) [
  | inl e ↦ rw e tt
  | inr (none, e) ↦ rw e (refl, refl, get_elem?-set_self datas id (some default_account) e)
  | inr (some a, e) ↦ rw e (refl, refl, get_elem?-set_self datas id (some a) e)
]

-- The part of an action that is about the account's list: `entries` has an entry for the asset.
Moves-at :
    (s s' : LendingPoolStorage) (datas entries : AccountDatas) (id j : ℕ)
    (a a' : AccountReserveData) (after : List AccountReserveData)
    → (a ≡ data_or_default (get_elem? datas id))
      × (entries ≡ set datas id (some a))
      × (get_elem? entries id ≡ some (some a))
    → (total_deposit_in s' id + deposits (a ∷ []) ≡ total_deposit_in s id + deposits after)
      × (total_debt_in s' id + debts (a ∷ []) ≡ total_debt_in s id + debts after)
      × (length after ≡ 1)
    → (j ≢ id → s'.reserve_datas j ≡ s.reserve_datas j)
    → get_elem? after 0 ≡ some a'
    → Moves j s datas s' (set entries id (some a'))
      × (length (set entries id (some a')) ≡ length datas)
Moves-at s s' datas entries id j a a' after (ea, ee, eg) (td, tb, len) other got =
    let one = one_account after a' len got in
    let written = get_elem?-set_self entries id (some a') eg in
    let same_length : length (set entries id (some a')) ≡ length datas =
      length-set entries id (some a') ∙ ap length ee ∙ length-set datas id (some a) in
    elim (ℕ_discrete j id) [
      | yes e ↦ (
        subst (λ (k : ℕ). Moves k s datas s' (set entries id (some a'))) (sym e) (ground arith),
        same_length,
      )
      | no ne ↦
          let kept : get_elem? (set entries id (some a')) j ≡ get_elem? datas j =
            get_elem?-set_ne entries id j (some a') (λ q. ne (sym q))
            ∙ ap (λ (l : AccountDatas). get_elem? l j) ee
            ∙ get_elem?-set_ne datas id j (some a) (λ q. ne (sym q)) in
          let stay = other ne in (ground arith, same_length)
    ]

module _ ⦃p : Pendzl⦄ (reductions : FeeReductions) (now : ℕ) where
  pub account_for_account_action-Moves :
      (g : Progress) (action : Action) (j : ℕ)
      → Ensures
          (λ (g', amount).
            Moves j g.storage g.datas g'.storage g'.datas
            × SameAccounts g.storage g'.storage
            × (length g'.datas ≡ length g.datas))
          (account_for_account_action reductions now g action)
  unfolding account_for_account_action
  account_for_account_action-Moves g action j = grind (
    arith,
    λ (id : ℕ). entry_lem g.datas id,
    λ (id : ℕ) (a : AccountReserveData).
        account_for_reserve_action-conserves g.storage id (a ∷ []) (g.config ∷ []) (reductions ∷ [])
          (reserve_action action.op action.amount ∷ []) now,
    λ (s' : LendingPoolStorage) (entries : AccountDatas) (id : ℕ) (a a' : AccountReserveData)
          (after : List AccountReserveData).
        Moves-at g.storage s' g.datas entries id j a a' after,
  )

  pub account_for_each-Moves :
      (g : Progress) (actions : List Action) (j : ℕ)
      → Ensures
          (λ (g', amounts).
            Moves j g.storage g.datas g'.storage g'.datas
            × SameAccounts g.storage g'.storage
            × (length g'.datas ≡ length g.datas))
          (account_for_each reductions now g actions)
  unfolding account_for_each
  account_for_each-Moves g [] j = ((refl, refl), refl, refl)
  account_for_each-Moves g (action ∷ rest) j = grind (
    arith,
    account_for_account_action-Moves g action j,
    λ (g' : Progress). account_for_each-Moves g' rest j,
  )

-- The list of an account has an entry for each asset.
pub get_account_datas-length :
    ⦃o : Oracles⦄ (s : LendingPoolStorage) (account : AccountId)
    → s.next_asset_id ≤ length (get_account_datas s account)
unfolding get_account_datas
get_account_datas-length s account =
    let datas = unwrap_or (s.account_reserve_datas account) (replicate s.next_asset_id none) in
    grind (
      arith,
      length-append datas (replicate (s.next_asset_id - length datas) none),
      length-replicate {A = Option AccountReserveData} (s.next_asset_id - length datas) none,
    )

-- A list that is stored with an entry for each asset is read as it is.
pub get_account_datas-stored :
    (s : LendingPoolStorage) (account : AccountId) (datas : AccountDatas)
    → s.account_reserve_datas account ≡ some datas
    → s.next_asset_id ≤ length datas
    → get_account_datas s account ≡ datas
unfolding get_account_datas
get_account_datas-stored s account datas e h = rw e (ground arith)

module _ ⦃p : Pendzl⦄ ⦃o : Oracles⦄ where
  -- An accepted list of actions moves the total deposit and the total debt of each reserve by as
  -- much as the account's own deposit and debt in it.
  pub account_for_account_actions-conserves :
      (s : LendingPoolStorage) (account : AccountId) (actions : List Action) (now j : ℕ)
      → Ensures
          (λ (s', interests, amounts).
            Moves j s (get_account_datas s account) s' (get_account_datas s' account))
          (account_for_account_actions s account actions now)
  unfolding account_for_account_actions
  account_for_account_actions-conserves s account actions now j = grind (
    arith,
    account_for_each-Moves (get_fee_reductions_of_account s account) now (opened s account) actions
        j,
    get_account_datas-length s account,
    λ (g : Progress). get_account_datas-stored (written account g) account g.datas,
    ==-refl account,
  )

  -- An accepted list of actions leaves the stored data and configuration of every other account
  -- as they were.
  pub account_for_account_actions-others :
      (s : LendingPoolStorage) (account other : AccountId) (actions : List Action) (now : ℕ)
      → other ≢ account
      → Ensures
          (λ (s', interests, amounts).
            (s'.account_reserve_datas other ≡ s.account_reserve_datas other)
            × (s'.account_configs other ≡ s.account_configs other))
          (account_for_account_actions s account actions now)
  unfolding account_for_account_actions
  account_for_account_actions-others s account other actions now ne = grind (
    arith,
    account_for_each-Moves (get_fee_reductions_of_account s account) now (opened s account) actions
        0,
    ==-ne other account,
  )
