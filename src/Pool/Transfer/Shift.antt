-- ===== src/Pool/Transfer/Shift.antt =====
-- Where `insert_account_data` leaves the entries of an account (`Vec::insert`).
use abacus_protocol.Base.{
  ℕ, zero, suc, ◌≤◌, ◌≡◌, arith, [], ◌∷◌, Option, none, some, inl, inr, Ensures, get_elem?,
  Option-cases, ==-refl,
}
use abacus_protocol.Library.Restrictions.{AccountReserveData}
use abacus_protocol.Pool.Storage.{AccountId, AccountDatas, LendingPoolStorage}
use abacus_protocol.Pool.Transfer.{insert_at, insert_account_data}

-- The entry of an index in a list that may be missing.
abbrev pub entry_in : Option AccountDatas → ℕ → Option (Option AccountReserveData)
entry_in none j = none
entry_in (some datas) j = get_elem? datas j

insert_at-shift :
    (datas : AccountDatas) (i j : ℕ) (v : Option AccountReserveData) {datas' : AccountDatas}
    → i ≤ j
    → insert_at datas i v ≡ some datas'
    → get_elem? datas' (suc j) ≡ get_elem? datas j
unfolding insert_at
insert_at-shift datas zero j v {datas'} le h = grind arith
insert_at-shift [] (suc i) j v {datas'} le h = cc
insert_at-shift (x ∷ datas) (suc i) zero v {datas'} le h = absurd (omega arith)
insert_at-shift (x ∷ datas) (suc i) (suc j) v {datas'} le h =
    elim (Option-cases (insert_at datas i v)) [
      | inl e ↦ absurd (grind arith)
      | inr (rest, e) ↦ let shifted = insert_at-shift datas i j v (omega arith) e in grind arith
    ]

-- An accepted insertion of an account entry leaves each entry from its index on at the index
-- after its own.
pub insert_account_data-shift :
    (s : LendingPoolStorage) (datas : AccountDatas) (id j : ℕ) (a : AccountReserveData)
    (account : AccountId)
    → id ≤ j
    → Ensures
        (λ s'. entry_in (s'.account_reserve_datas account) (suc j) ≡ get_elem? datas j)
        (insert_account_data s datas id a account)
unfolding insert_account_data
insert_account_data-shift s datas id j a account le =
    elim (Option-cases (insert_at datas id (some a))) [
      | inl e ↦ rw e tt
      | inr (datas', e) ↦
          let shifted = insert_at-shift datas id j (some a) le e in
          rw e (rw (==-refl account) shifted)
    ]
