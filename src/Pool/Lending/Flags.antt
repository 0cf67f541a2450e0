-- ===== src/Pool/Lending/Flags.antt =====
-- The bits of an account's configuration cover its balances, and still do after a list of actions.
use mathlib.Core.Path.{subst}
use native.Mathlib.Decide.{ℕ_discrete}
use abacus_protocol.Base.{
  ℕ, ◌<◌, ◌≡◌, ◌≢◌, true, sym, ap, ◌∙◌, List, [], ◌∷◌, some, arith, Ensures, Result, ok, err, panic,
  Result-cases, inl, inr, get_elem?, set, get_elem?-set_self, get_elem?-set_ne, ==-refl,
}
use abacus_protocol.Errors.{LendingPoolError}
use abacus_protocol.Library.MulDiv.{Pendzl}
use abacus_protocol.Library.Restrictions.{AccountReserveData}
use abacus_protocol.Library.Account.{AccountConfig, FeeReductions}
use abacus_protocol.Library.Account.Flags.{Flagged, SameElsewhere}
use abacus_protocol.Pool.Storage.{
  AccountId, AccountDatas, LendingPoolStorage, Oracles, data_or_default, get_account_datas,
  get_account_config, get_fee_reductions_of_account,
}
use abacus_protocol.Pool.Reserve.{
  ReserveDataContext, Accounted, account_for_deposit, account_for_withdraw, account_for_borrow,
  account_for_repay,
}
use abacus_protocol.Pool.Reserve.Flags.{
  account_for_deposit-Flagged, account_for_withdraw-Flagged, account_for_borrow-Flagged,
  account_for_repay-Flagged, account_for_deposit-SameElsewhere, account_for_withdraw-SameElsewhere,
  account_for_borrow-SameElsewhere, account_for_repay-SameElsewhere,
}
use abacus_protocol.Pool.Reserve.Actions.{
  account_at, account_for_action, account_for_actions, account_for_reserve_action, open_reserve,
}
use abacus_protocol.Pool.Lending.{
  Operation, Action, Progress, reserve_action, account_for_account_action, account_for_each,
  account_for_account_actions, opened, written,
}
use abacus_protocol.Pool.Lending.Conservation.{
  entry_lem, account_for_each-Moves, get_account_datas-length, get_account_datas-stored,
}

-- The bits of an asset cover what a list of an account's data has for it.
abbrev pub FlaggedIn : ℕ → AccountConfig → AccountDatas → Type 0
FlaggedIn j c datas = Flagged j c (data_or_default (get_elem? datas j))

-- Of an operation on one asset: its bits cover the new data if they covered the old, and the bits of
-- another asset stay.
record Covers (j id : ℕ) (c : AccountConfig) (a : AccountReserveData) (c' : AccountConfig)
    (a' : AccountReserveData) : Type 0 where
  own : Flagged id c a → Flagged id c' a'
  elsewhere : id ≢ j → SameElsewhere j c c'

same-Flagged :
    (j : ℕ) (c c' : AccountConfig) (a : AccountReserveData)
    → SameElsewhere j c c'
    → Flagged j c a
    → Flagged j c' a
same-Flagged j c c' a (deposits, borrows, collaterals, rule) f = record {
  deposit_flag = λ h. deposits ∙ f.deposit_flag h;
  debt_flag = λ h. borrows ∙ f.debt_flag h;
}

abbrev CoversFirst :
    ℕ
    → ℕ
    → AccountConfig
    → AccountReserveData
    → List AccountConfig
    → List AccountReserveData
    → Type 0
CoversFirst j id c a (c' ∷ configs) (a' ∷ datas) = Covers j id c a c' a'
CoversFirst j id c a configs datas = Unit

accounted-Covers :
    (j id : ℕ) (c : AccountConfig) (a : AccountReserveData) (r : Result LendingPoolError Accounted)
    → (Flagged id c a → Ensures (λ t. Flagged id t.config t.account_data) r)
    → (id ≢ j → Ensures (λ t. SameElsewhere j c t.config) r)
    → Ensures (λ t. Covers j id c a t.config t.account_data) r
accounted-Covers j id c a (ok t) own elsewhere = record { own = own; elsewhere = elsewhere }
accounted-Covers j id c a (err e) own elsewhere = tt
accounted-Covers j id c a panic own elsewhere = tt

module _ ⦃p : Pendzl⦄ (j : ℕ) (small : j < 128) where
  action-CoversFirst :
      (ctx : ReserveDataContext) (a : AccountReserveData) (c : AccountConfig) (red : FeeReductions)
      (op : Operation) (amount : ℕ)
      → Ensures
          (λ (t, n). CoversFirst j ctx.asset_id c a t.configs t.datas)
          (account_for_action
            (record { ctx = ctx; datas = a ∷ []; configs = c ∷ []; items = (0, 0) ∷ [] })
            (red ∷ [])
            (reserve_action op amount))
  unfolding account_for_action account_at
  action-CoversFirst ctx a c red Operation.deposit amount = grind (
    arith,
    accounted-Covers j ctx.asset_id c a (account_for_deposit ctx a c red amount)
        (account_for_deposit-Flagged ctx a red c amount)
        (λ ne. account_for_deposit-SameElsewhere ctx a red c amount j ne small),
  )
  action-CoversFirst ctx a c red Operation.withdraw amount = grind (
    arith,
    accounted-Covers j ctx.asset_id c a (account_for_withdraw ctx a c red amount true)
        (account_for_withdraw-Flagged ctx a red c amount true)
        (λ ne. account_for_withdraw-SameElsewhere ctx a red c amount true j ne small),
  )
  action-CoversFirst ctx a c red Operation.borrow amount = grind (
    arith,
    accounted-Covers j ctx.asset_id c a (account_for_borrow ctx a c red amount)
        (account_for_borrow-Flagged ctx a red c amount)
        (λ ne. account_for_borrow-SameElsewhere ctx a red c amount j ne small),
  )
  action-CoversFirst ctx a c red Operation.repay amount = grind (
    arith,
    accounted-Covers j ctx.asset_id c a (account_for_repay ctx a c red amount true)
        (account_for_repay-Flagged ctx a red c amount true)
        (λ ne. account_for_repay-SameElsewhere ctx a red c amount true j ne small),
  )

  open_reserve-asset_id :
      (s : LendingPoolStorage) (id now : ℕ)
      → Ensures (λ (s', ctx). ctx.asset_id ≡ id) (open_reserve s id now)
  unfolding open_reserve
  open_reserve-asset_id s id now = ground arith

  reserve_action-CoversFirst :
      (s : LendingPoolStorage) (id : ℕ) (a : AccountReserveData) (c : AccountConfig)
      (red : FeeReductions) (op : Operation) (amount now : ℕ)
      → Ensures
          (λ (s', t, amounts). CoversFirst j id c a t.configs t.datas)
          (account_for_reserve_action s id
            (a ∷ [])
            (c ∷ [])
            (red ∷ [])
            (reserve_action op amount ∷ [])
            now)
  unfolding account_for_reserve_action account_for_actions
  reserve_action-CoversFirst s id a c red op amount now = grind (
    arith,
    open_reserve-asset_id s id now,
    λ (ctx : ReserveDataContext). action-CoversFirst ctx a c red op amount,
  )

-- The bits after an account's entry has been written back.
covered-FlaggedIn :
    (j id : ℕ) (c c' : AccountConfig) (datas entries : AccountDatas) (a a' : AccountReserveData)
    → a ≡ data_or_default (get_elem? datas id)
    → entries ≡ set datas id (some a)
    → get_elem? entries id ≡ some (some a)
    → Covers j id c a c' a'
    → FlaggedIn j c datas
    → FlaggedIn j c' (set entries id (some a'))
covered-FlaggedIn j id c c' datas entries a a' ea ee eg k f = elim (ℕ_discrete id j) [
  | yes e ↦
      let before : Flagged id c a =
        subst (Flagged id c) (sym ea)
          (subst (λ (i : ℕ). Flagged i c (data_or_default (get_elem? datas i))) (sym e) f) in
      let after : FlaggedIn id c' (set entries id (some a')) =
        subst (λ o. Flagged id c' (data_or_default o))
          (sym (get_elem?-set_self entries id (some a') eg)) (k.own before) in
      subst (λ (i : ℕ). FlaggedIn i c' (set entries id (some a'))) e after
  | no ne ↦
      let kept : get_elem? (set entries id (some a')) j ≡ get_elem? datas j =
        get_elem?-set_ne entries id j (some a') ne
        ∙ ap (λ (l : AccountDatas). get_elem? l j) ee
        ∙ get_elem?-set_ne datas id j (some a) ne in
      subst (λ o. Flagged j c' (data_or_default o)) (sym kept)
        (same-Flagged j c c' (data_or_default (get_elem? datas j)) (k.elsewhere ne) f)
]

entry-FlaggedIn :
    (j id : ℕ) (c c' : AccountConfig) (datas entries : AccountDatas) (a a' : AccountReserveData)
    (configs : List AccountConfig) (after : List AccountReserveData)
    → CoversFirst j id c a configs after
    → get_elem? after 0 ≡ some a'
    → get_elem? configs 0 ≡ some c'
    → (a ≡ data_or_default (get_elem? datas id))
      × (entries ≡ set datas id (some a))
      × (get_elem? entries id ≡ some (some a))
    → FlaggedIn j c datas
    → FlaggedIn j c' (set entries id (some a'))
entry-FlaggedIn j id c c' datas entries a a' [] after k ha hc entry f = cc
entry-FlaggedIn j id c c' datas entries a a' (x ∷ configs) [] k ha hc entry f = cc
entry-FlaggedIn j id c c' datas entries a a' (x ∷ configs) (y ∷ after) k ha hc (ea, ee, eg) f =
    let ex : x ≡ c' = grind arith in
    let ey : y ≡ a' = grind arith in
    covered-FlaggedIn j id c c' datas entries a a' ea ee eg
      (subst (Covers j id c a c') ey (subst (λ z. Covers j id c a z y) ex k)) f

module _ ⦃p : Pendzl⦄ (j : ℕ) (small : j < 128) (red : FeeReductions) (now : ℕ) where
  action-FlaggedIn :
      (g : Progress) (action : Action)
      → FlaggedIn j g.config g.datas
      → Ensures
          (λ (g', amount). FlaggedIn j g'.config g'.datas)
          (account_for_account_action red now g action)
  unfolding account_for_account_action
  action-FlaggedIn g action f = grind (
    arith,
    λ (id : ℕ). entry_lem g.datas id,
    λ (id : ℕ) (a : AccountReserveData).
        reserve_action-CoversFirst j small g.storage id a g.config red action.op action.amount now,
    λ (id : ℕ) (entries : AccountDatas) (a a' : AccountReserveData) (c' : AccountConfig)
          (configs : List AccountConfig) (after : List AccountReserveData).
        entry-FlaggedIn j id g.config c' g.datas entries a a' configs after,
  )

  each-FlaggedIn :
      (g : Progress) (actions : List Action)
      → FlaggedIn j g.config g.datas
      → Ensures
          (λ (g', amounts). FlaggedIn j g'.config g'.datas)
          (account_for_each red now g actions)
  unfolding account_for_each
  each-FlaggedIn g [] f = f
  each-FlaggedIn g (action ∷ rest) f =
      elim (Result-cases (account_for_account_action red now g action)) [
        | inl ((g', n), e) ↦
            let first : FlaggedIn j g'.config g'.datas =
              subst (Ensures (λ (g', n'). FlaggedIn j g'.config g'.datas)) e
                (action-FlaggedIn g action f) in
            let others = each-FlaggedIn g' rest first in
            rw e (elim (Result-cases (account_for_each red now g' rest)) [
              | inl ((g'', ns), q) ↦
                  rw q (subst (Ensures (λ (g', n'). FlaggedIn j g'.config g'.datas)) q others)
              | inr (inl (x, q)) ↦ rw q tt
              | inr (inr q) ↦ rw q tt
            ])
        | inr (inl (x, e)) ↦ rw e tt
        | inr (inr e) ↦ rw e tt
      ]

-- The stored bits of an asset cover what is stored of the account's deposit and debt in it.
abbrev pub StoredFlagged : ℕ → AccountId → LendingPoolStorage → Type 0
StoredFlagged j account s = FlaggedIn j (get_account_config s account) (get_account_datas s account)

module _ ⦃p : Pendzl⦄ ⦃o : Oracles⦄ where
  -- For an asset whose id is below 128: if the deposit and borrow bits of an account cover what
  -- is stored of its deposit and its debt in the asset, they still do after an accepted list of
  -- actions, on this asset and on others, interest included.
  pub account_for_account_actions-Flagged :
      (s : LendingPoolStorage) (account : AccountId) (actions : List Action) (now j : ℕ)
      → j < 128
      → StoredFlagged j account s
      → Ensures
          (λ (s', interests, amounts). StoredFlagged j account s')
          (account_for_account_actions s account actions now)
  unfolding account_for_account_actions get_account_config
  account_for_account_actions-Flagged s account actions now j small f = grind (
    arith,
    each-FlaggedIn j small (get_fee_reductions_of_account s account) now (opened s account) actions
        f,
    account_for_each-Moves (get_fee_reductions_of_account s account) now (opened s account) actions
        j,
    get_account_datas-length s account,
    λ (g : Progress). get_account_datas-stored (written account g) account g.datas,
    ==-refl account,
  )
