-- ===== src/Pool/Liquidation/Conservation.antt =====
-- A liquidation moves the totals of each reserve by as much as the balances of its two accounts.
use mathlib.Core.Path.{subst}
use native.Mathlib.Decide.{ℕ_discrete}
use abacus_protocol.Base.{
  ℕ, ◌+◌, ◌≡◌, ap, sym, ◌∙◌, ◌≢◌, List, [], ◌∷◌, Option, none, some, arith, true, Option-cases,
  Result-cases, Ensures-intro, inl, inr, Ensures, get_elem?, set, length, length-set,
  get_elem?-set_self, get_elem?-set_ne, ==-refl, ==-ne,
}
use abacus_protocol.Library.MulDiv.{Pendzl}
use abacus_protocol.Library.Restrictions.{AccountReserveData}
use abacus_protocol.Pool.Storage.{
  AccountId, AccountDatas, LendingPoolStorage, Oracles, data_or_default, get_account_datas,
  get_account_data_entry_mut,
}
use abacus_protocol.Pool.Reserve.Actions.{ReserveAction}
use abacus_protocol.Pool.Reserve.Actions.Conservation.{deposits, debts}
use abacus_protocol.Pool.Reserve.Actions.Frame.{
  total_deposit_in, total_debt_in, SameAccounts, account_for_reserve_action-conserves,
}
use abacus_protocol.Pool.Lending.Conservation.{
  deposit_of, debt_of, Moves, one_account, entry_lem, get_account_datas-length,
  get_account_datas-stored,
}
use abacus_protocol.Pool.Liquidation.{
  Party, party_of, settled, account_for_repayment, account_for_taking, account_for_liquidate,
}

-- The entry of an asset in a list where one entry is written.
entry-set :
    (datas : AccountDatas) (id j : ℕ) (old : Option AccountReserveData) (a : AccountReserveData)
    → get_elem? datas id ≡ some old
    → ((j ≡ id → get_elem? (set datas id (some a)) j ≡ some (some a))
        × (j ≢ id → get_elem? (set datas id (some a)) j ≡ get_elem? datas j))
      × (length (set datas id (some a)) ≡ length datas)
entry-set datas id j old a h = (
  (
    λ e. ap (get_elem? (set datas id (some a))) e ∙ get_elem?-set_self datas id (some a) h,
    λ ne. get_elem?-set_ne datas id j (some a) (λ e. ne (sym e)),
  ),
  length-set datas id (some a),
)

-- The totals of an asset move with two accounts' balances in it.
abbrev pub BothMove :
    ℕ
    → LendingPoolStorage
    → AccountDatas
    → AccountDatas
    → LendingPoolStorage
    → AccountDatas
    → AccountDatas
    → Type 0
BothMove id s first second s' first' second' =
    (total_deposit_in s' id + (deposit_of first id + deposit_of second id)
      ≡ total_deposit_in s id + (deposit_of first' id + deposit_of second' id))
    × (total_debt_in s' id + (debt_of first id + debt_of second id)
        ≡ total_debt_in s id + (debt_of first' id + debt_of second' id))

-- One account's entry is written after an action on it.
one-Moves :
    (s s' : LendingPoolStorage) (datas : AccountDatas) (id j : ℕ) (a a' : AccountReserveData)
    (after : List AccountReserveData)
    → get_elem? datas id ≡ some (some a)
    → (total_deposit_in s' id + deposits (a ∷ []) ≡ total_deposit_in s id + deposits after)
      × (total_debt_in s' id + debts (a ∷ []) ≡ total_debt_in s id + debts after)
      × (length after ≡ 1)
    → (j ≢ id → s'.reserve_datas j ≡ s.reserve_datas j)
    → get_elem? after 0 ≡ some a'
    → Moves j s datas s' (set datas id (some a')) × (length (set datas id (some a')) ≡ length datas)
one-Moves s s' datas id j a a' after here (td, tb, len) other got =
    let one = one_account after a' len got in
    let written = entry-set datas id j (some a) a' here in
    elim (ℕ_discrete j id) [ yes e ↦ grind arith | no ne ↦ let stay = other ne in grind arith ]

two_accounts :
    (xs : List AccountReserveData) (a b : AccountReserveData)
    → length xs ≡ 2
    → get_elem? xs 0 ≡ some a
    → get_elem? xs 1 ≡ some b
    → (deposits xs ≡ a.deposit + b.deposit) × (debts xs ≡ a.debt + b.debt)
two_accounts [] a b h e f = cc
two_accounts (x ∷ []) a b h e f = cc
two_accounts (x ∷ y ∷ []) a b h e f = ground arith
two_accounts (x ∷ y ∷ z ∷ rest) a b h e f = absurd (omega arith)

-- Two accounts' entries are written after an action on both.
two_move :
    (s s' : LendingPoolStorage) (first second entries : AccountDatas) (id j : ℕ)
    (a a' b b' : AccountReserveData) (after : List AccountReserveData)
    → get_elem? first id ≡ some (some a)
    → (b ≡ data_or_default (get_elem? second id))
      × (entries ≡ set second id (some b))
      × (get_elem? entries id ≡ some (some b))
    → (total_deposit_in s' id + deposits (a ∷ b ∷ []) ≡ total_deposit_in s id + deposits after)
      × (total_debt_in s' id + debts (a ∷ b ∷ []) ≡ total_debt_in s id + debts after)
      × (length after ≡ 2)
    → (j ≢ id → s'.reserve_datas j ≡ s.reserve_datas j)
    → get_elem? after 0 ≡ some a'
    → get_elem? after 1 ≡ some b'
    → BothMove j s first second s' (set first id (some a')) (set entries id (some b'))
      × (length (set first id (some a')) ≡ length first)
      × (length (set entries id (some b')) ≡ length second)
two_move s s' first second entries id j a a' b b' after here (eb, ee, eg) (td, tb, len) other got
      got' =
    let two = two_accounts after a' b' len got got' in
    let written = entry-set first id j (some a) a' here in
    let written' = entry-set entries id j (some b) b' eg in
    let same_length : length entries ≡ length second =
      ap length ee ∙ length-set second id (some b) in
    let same_others : j ≢ id → get_elem? entries j ≡ get_elem? second j = λ ne.
      ap (λ (l : AccountDatas). get_elem? l j) ee
      ∙ get_elem?-set_ne second id j (some b) (λ q. ne (sym q)) in
    elim (ℕ_discrete j id) [
      | yes e ↦ grind arith
      | no ne ↦ let stay = other ne in let others = same_others ne in grind arith
    ]

module _ ⦃p : Pendzl⦄ (now j : ℕ) where
  repayment-Moves :
      (s : LendingPoolStorage) (id : ℕ) (party : Party) (amount : ℕ)
      → Ensures
          (λ (s', party', interests, repaid).
            Moves j s party.datas s' party'.datas
            × SameAccounts s s'
            × (length party'.datas ≡ length party.datas))
          (account_for_repayment s id party amount now)
  unfolding account_for_repayment
  repayment-Moves s id party amount = elim (Option-cases (get_elem? party.datas id)) [
    | inl e ↦ rw e tt
    | inr (none, e) ↦ rw e tt
    | inr (some a, e) ↦ rw e (
        grind (
          arith,
          account_for_reserve_action-conserves s id (a ∷ []) (party.config ∷ [])
              (party.reductions ∷ []) (ReserveAction.repay 0 amount ∷ []) now,
          λ (s' : LendingPoolStorage) (a' : AccountReserveData) (after : List AccountReserveData).
              one-Moves s s' party.datas id j a a' after e,
        ))
  ]

  taking-BothMove :
      (s : LendingPoolStorage) (id : ℕ) (liquidated caller : Party) (amount : ℕ)
      → Ensures
          (λ (s', parties, interests, taken).
            BothMove j s liquidated.datas caller.datas s' parties.0.datas parties.1.datas
            × SameAccounts s s'
            × (length parties.0.datas ≡ length liquidated.datas)
            × (length parties.1.datas ≡ length caller.datas))
          (account_for_taking s id liquidated caller amount now)
  unfolding account_for_taking
  taking-BothMove s id liquidated caller amount =
      elim (Option-cases (get_elem? liquidated.datas id)) [
        | inl e ↦ rw e tt
        | inr (none, e) ↦ rw e tt
        | inr (some a, e) ↦
            let entry = entry_lem caller.datas id in
            rw e (elim (Result-cases (get_account_data_entry_mut caller.datas id)) [
              | inl ((b, entries), q) ↦
                  let known = subst (Ensures _) q entry in
                  rw q (
                    grind (
                      arith,
                      account_for_reserve_action-conserves s id (a ∷ b ∷ [])
                          (liquidated.config ∷ caller.config ∷ [])
                          (liquidated.reductions ∷ caller.reductions ∷ [])
                          (ReserveAction.deposit_transfer 0 1 amount true ∷ []) now,
                      λ (s' : LendingPoolStorage) (a' b' : AccountReserveData)
                            (after : List AccountReserveData).
                          two_move s s' liquidated.datas caller.datas entries id j a a' b b' after e
                            known,
                    ))
              | inr (inl (f, q)) ↦ rw q tt
              | inr (inr q) ↦ rw q tt
            ])
      ]

module _ ⦃p : Pendzl⦄ ⦃o : Oracles⦄ where
  settled_lem :
      (s u : LendingPoolStorage) (liquidated caller : AccountId) (first second : Party)
      → caller ≢ liquidated
      → SameAccounts s u
      → length first.datas ≡ length (get_account_datas s liquidated)
      → length second.datas ≡ length (get_account_datas s caller)
      → (get_account_datas (settled u liquidated caller first second) liquidated ≡ first.datas)
        × (get_account_datas (settled u liquidated caller first second) caller ≡ second.datas)
  settled_lem s u liquidated caller first second ne same len len' =
      let u' = settled u liquidated caller first second in
      let long = get_account_datas-length s liquidated in
      let long' = get_account_datas-length s caller in
      let differ = ==-ne liquidated caller (λ e. ne (sym e)) in
      (
        get_account_datas-stored u' liquidated first.datas (grind (arith, ==-refl liquidated))
            (grind arith),
        get_account_datas-stored u' caller second.datas (grind (arith, ==-refl caller))
            (grind arith),
      )

  -- The two halves together.
  taken_lem :
      (s s' : LendingPoolStorage) (caller liquidated : AccountId) (first : Party)
      (id amount now j : ℕ)
      → caller ≢ liquidated
      → Moves j s (get_account_datas s liquidated) s' first.datas
        × SameAccounts s s'
        × (length first.datas ≡ length (get_account_datas s liquidated))
      → Ensures
          (λ (u, parties, interests, taken).
            BothMove j s
              (get_account_datas s liquidated)
              (get_account_datas s caller)
              (settled u liquidated caller parties.0 parties.1)
              (get_account_datas (settled u liquidated caller parties.0 parties.1) liquidated)
              (get_account_datas (settled u liquidated caller parties.0 parties.1) caller))
          (account_for_taking s' id first (party_of s caller) amount now)
  taken_lem s s' caller liquidated first id amount now j ne repaid =
      let taking = taking-BothMove now j s' id first (party_of s caller) amount in
      Ensures-intro (account_for_taking s' id first (party_of s caller) amount now)
        (λ (u, parties, interests, taken) e.
          let known = subst (Ensures _) e taking in
          let read = settled_lem s u liquidated caller parties.0 parties.1 ne in grind arith)

  -- An accepted liquidation between two distinct accounts moves the totals of each reserve by as
  -- much as the balances of the two accounts together.
  pub account_for_liquidate-conserves :
      (s : LendingPoolStorage) (caller liquidated repaid taken : AccountId) (amount now j : ℕ)
      → caller ≢ liquidated
      → Ensures
          (λ r.
            BothMove j s
              (get_account_datas s liquidated)
              (get_account_datas s caller)
              r.storage
              (get_account_datas r.storage liquidated)
              (get_account_datas r.storage caller))
          (account_for_liquidate s caller liquidated repaid taken amount now)
  unfolding account_for_liquidate
  account_for_liquidate-conserves s caller liquidated repaid taken amount now j ne = grind (
    arith,
    λ (id : ℕ). repayment-Moves now j s id (party_of s liquidated) amount,
    λ (s' : LendingPoolStorage) (first : Party) (id n : ℕ).
        taken_lem s s' caller liquidated first id n now j ne,
  )
