-- ===== src/Pool/Lending/Booking.antt =====
-- What one accepted operation does to the balances of the account that it is for.
use abacus_protocol.Base.{
  ℕ, true, ◌+◌, ◌≡◌, ◌≤◌, refl, List, [], ◌∷◌, some, arith, Ensures, get_elem?, set,
  get_elem?-set_self, ==-refl,
}
use abacus_protocol.Library.MulDiv.{Pendzl}
use abacus_protocol.Library.Restrictions.{AccountReserveData}
use abacus_protocol.Library.Account.{AccountConfig, FeeReductions}
use abacus_protocol.Pool.Storage.{
  AccountId, AccountDatas, LendingPoolStorage, Oracles, get_account_datas, asset_id,
  data_or_default, get_fee_reductions_of_account,
}
use abacus_protocol.Pool.Reserve.{ReserveDataContext}
use abacus_protocol.Pool.Reserve.Level.{
  account_for_deposit_lem, account_for_withdraw_lem, account_for_borrow_lem, account_for_repay_lem,
}
use abacus_protocol.Pool.Reserve.Actions.{
  account_at, account_for_action, account_for_actions, account_for_reserve_action, update_at,
}
use abacus_protocol.Pool.Lending.{
  Operation, Action, Progress, reserve_action, account_for_account_action, account_for_each,
  account_for_account_actions, opened, written,
}
use abacus_protocol.Pool.Lending.Conservation.{
  deposit_of, debt_of, entry_lem, account_for_each-Moves, get_account_datas-length,
  get_account_datas-stored,
}

-- The amount of an operation where it adds to the deposit, takes from it, adds to the debt, or takes
-- from it, and 0 elsewhere.
abbrev pub deposited : Operation → ℕ → ℕ
deposited Operation.deposit n = n
deposited op n = 0

abbrev pub withdrawn : Operation → ℕ → ℕ
withdrawn Operation.withdraw n = n
withdrawn op n = 0

abbrev pub borrowed : Operation → ℕ → ℕ
borrowed Operation.borrow n = n
borrowed op n = 0

abbrev pub repaid : Operation → ℕ → ℕ
repaid Operation.repay n = n
repaid op n = 0

-- A deposit and a borrow are of the amount asked for, the others of that much at most.
abbrev pub IsAmount : Operation → ℕ → ℕ → Type 0
IsAmount Operation.deposit asked n = n ≡ asked
IsAmount Operation.withdraw asked n = n ≤ asked
IsAmount Operation.borrow asked n = n ≡ asked
IsAmount Operation.repay asked n = n ≤ asked

-- The balances move by the interests and by the amount of the operation.
abbrev pub Booked : Operation → ℕ → ℕ → ℕ → ℕ × ℕ → ℕ → ℕ → ℕ → Type 0
Booked op asked deposit debt interests n deposit' debt' =
    IsAmount op asked n
    × (deposit' + withdrawn op n ≡ deposit + interests.0 + deposited op n)
    × (debt' + repaid op n ≡ debt + interests.1 + borrowed op n)

-- The first of each list after an operation.
abbrev pub BookedFirst :
    Operation → ℕ → AccountReserveData → List AccountReserveData → List (ℕ × ℕ) → List ℕ → Type 0
BookedFirst op asked a (a' ∷ datas) (x ∷ items) (n ∷ amounts) =
    Booked op asked a.deposit a.debt x n a'.deposit a'.debt
BookedFirst op asked a datas items amounts = Unit

module _ ⦃p : Pendzl⦄ where
  action-BookedFirst :
      (ctx : ReserveDataContext) (a : AccountReserveData) (c : AccountConfig) (red : FeeReductions)
      (op : Operation) (amount : ℕ)
      → Ensures
          (λ (t, n). BookedFirst op amount a t.datas t.items (n ∷ []))
          (account_for_action
            (record { ctx = ctx; datas = a ∷ []; configs = c ∷ []; items = (0, 0) ∷ [] })
            (red ∷ [])
            (reserve_action op amount))
  unfolding account_for_action account_at update_at
  action-BookedFirst ctx a c red Operation.deposit amount =
      grind (arith, account_for_deposit_lem ctx a red c amount)
  action-BookedFirst ctx a c red Operation.withdraw amount =
      grind (arith, account_for_withdraw_lem ctx a red c amount true)
  action-BookedFirst ctx a c red Operation.borrow amount =
      grind (arith, account_for_borrow_lem ctx a red c amount)
  action-BookedFirst ctx a c red Operation.repay amount =
      grind (arith, account_for_repay_lem ctx a red c amount true)

  pub reserve_action-BookedFirst :
      (s : LendingPoolStorage) (id : ℕ) (a : AccountReserveData) (c : AccountConfig)
      (red : FeeReductions) (op : Operation) (amount now : ℕ)
      → Ensures
          (λ (s', t, amounts). BookedFirst op amount a t.datas t.items amounts)
          (account_for_reserve_action s id
            (a ∷ [])
            (c ∷ [])
            (red ∷ [])
            (reserve_action op amount ∷ [])
            now)
  unfolding account_for_reserve_action account_for_actions
  reserve_action-BookedFirst s id a c red op amount now =
      grind (arith, λ (ctx : ReserveDataContext). action-BookedFirst ctx a c red op amount)

-- The same of the interests and the amounts of a list of one operation.
abbrev pub BookedOnly : Operation → ℕ → ℕ → ℕ → List (ℕ × ℕ) → List ℕ → ℕ → ℕ → Type 0
BookedOnly op asked deposit debt (x ∷ []) (n ∷ []) deposit' debt' =
    Booked op asked deposit debt x n deposit' debt'
BookedOnly op asked deposit debt items amounts deposit' debt' = ⊥

-- The balances after an account's entry has been written back.
entry-BookedOnly :
    (op : Operation) (asked : ℕ) (datas entries : AccountDatas) (id : ℕ) (a a' : AccountReserveData)
    (after : List AccountReserveData) (items : List (ℕ × ℕ)) (x : ℕ × ℕ) (n : ℕ) (amounts : List ℕ)
    → a ≡ data_or_default (get_elem? datas id)
    → get_elem? entries id ≡ some (some a)
    → BookedFirst op asked a after items amounts
    → get_elem? after 0 ≡ some a'
    → get_elem? items 0 ≡ some x
    → get_elem? amounts 0 ≡ some n
    → Booked op asked
        (deposit_of datas id)
        (debt_of datas id)
        x
        n
        (deposit_of (set entries id (some a')) id)
        (debt_of (set entries id (some a')) id)
entry-BookedOnly op asked datas entries id a a' [] items x n amounts ea eg b ha hx hn = cc
entry-BookedOnly op asked datas entries id a a' (y ∷ after) [] x n amounts ea eg b ha hx hn = cc
entry-BookedOnly op asked datas entries id a a' (y ∷ after) (z ∷ items) x n [] ea eg b ha hx hn = cc
entry-BookedOnly op asked datas entries id a a' (y ∷ after) (z ∷ items) x n (m ∷ amounts) ea eg b ha
      hx hn =
    let written = get_elem?-set_self entries id (some a') eg in ground arith

module _ ⦃p : Pendzl⦄ (red : FeeReductions) (now : ℕ) where
  action-Booked :
      (g : Progress) (op : Operation) (asset : AccountId) (amount id : ℕ)
      → g.storage.asset_to_id asset ≡ some id
      → g.results ≡ []
      → Ensures
          (λ (g', n).
            BookedOnly op amount
              (deposit_of g.datas id)
              (debt_of g.datas id)
              g'.results
              (n ∷ [])
              (deposit_of g'.datas id)
              (debt_of g'.datas id))
          (account_for_account_action red now g
            (record { op = op; asset = asset; amount = amount }))
  unfolding account_for_account_action asset_id
  action-Booked g op asset amount id known empty =
      rw (known, empty)
        (grind (
          arith,
          entry_lem g.datas id,
          λ (a : AccountReserveData).
              reserve_action-BookedFirst g.storage id a g.config red op amount now,
          λ (entries : AccountDatas) (a a' : AccountReserveData) (after : List AccountReserveData)
                (items : List (ℕ × ℕ)) (x : ℕ × ℕ) (n : ℕ) (amounts : List ℕ).
              entry-BookedOnly op amount g.datas entries id a a' after items x n amounts,
        ))

  each-Booked :
      (g : Progress) (op : Operation) (asset : AccountId) (amount id : ℕ)
      → g.storage.asset_to_id asset ≡ some id
      → g.results ≡ []
      → Ensures
          (λ (g', amounts).
            BookedOnly op amount
              (deposit_of g.datas id)
              (debt_of g.datas id)
              g'.results
              amounts
              (deposit_of g'.datas id)
              (debt_of g'.datas id))
          (account_for_each red now g (record { op = op; asset = asset; amount = amount } ∷ []))
  unfolding account_for_each
  each-Booked g op asset amount id known empty =
      grind (arith, action-Booked g op asset amount id known empty)

module _ ⦃p : Pendzl⦄ ⦃o : Oracles⦄ where
  -- One accepted operation of an account on an asset with a known id.
  pub account_for_account_actions-Booked :
      (s : LendingPoolStorage) (account asset : AccountId) (op : Operation) (amount now id : ℕ)
      → s.asset_to_id asset ≡ some id
      → Ensures
          (λ (s', interests, amounts).
            BookedOnly op amount
              (deposit_of (get_account_datas s account) id)
              (debt_of (get_account_datas s account) id)
              interests
              amounts
              (deposit_of (get_account_datas s' account) id)
              (debt_of (get_account_datas s' account) id)
            × (s'.reserve_abacus_tokens ≡ s.reserve_abacus_tokens)
            × (s'.asset_to_id ≡ s.asset_to_id)
            × (s'.interest_rate_model ≡ s.interest_rate_model))
          (account_for_account_actions s account
            (record { op = op; asset = asset; amount = amount } ∷ [])
            now)
  unfolding account_for_account_actions
  account_for_account_actions-Booked s account asset op amount now id known =
      let red = get_fee_reductions_of_account s account in
      let action : Action = record { op = op; asset = asset; amount = amount } in
      grind (
        arith,
        each-Booked red now (opened s account) op asset amount id known refl,
        account_for_each-Moves red now (opened s account) (action ∷ []) id,
        get_account_datas-length s account,
        λ (g : Progress). get_account_datas-stored (written account g) account g.datas,
        ==-refl account,
      )
