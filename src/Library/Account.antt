-- ===== src/Library/Account.antt =====
-- src/library/structs/account_reserve_data.rs and src/library/structs/account_config.rs. A method that the
-- source gives several mutable references returns the new values in the order of its arguments.
pub mod Interest
pub mod Balance
pub mod Flags
use abacus_protocol.Base.{
  ℕ, Bool, not, ◌&&◌, Result, ok, panic, ok_or, unwrap, ◌>>=◌, ◌>>◌, ltb, leb, ◌==◌, if◌then◌else◌,
  checked_add, checked_sub, u128_mod,
}
use abacus_protocol.Base.Bits.{set_bit, clear_bit}
use abacus_protocol.Errors.{MathError, overflow, underflow}
use abacus_protocol.Library.MulDiv.{Pendzl}
use abacus_protocol.Library.Math.{
  e6, e0_mul_e18_div_e18_to_e0_rdown, e0_mul_e18_div_e18_to_e0_rup, e0_mul_e6_to_e0_rup,
}
use abacus_protocol.Library.Reserve.{
  ReserveData, increase_total_deposit, decrease_total_deposit, increase_total_debt,
  decrease_total_debt,
}
use abacus_protocol.Library.Restrictions.{ReserveRestrictions, AccountReserveData}
use abacus_protocol.Library.Indexes.{ReserveFees, ReserveIndexes, increase_earned_fee}

pub record AccountConfig : Type 0 where
  pub deposits : ℕ
  pub collaterals : ℕ
  pub borrows : ℕ
  pub market_rule_id : ℕ

-- The reductions of the deposit fee and of the debt fee, in e6.
abbrev pub FeeReductions : Type 0
FeeReductions = ℕ × ℕ

-- `AccountReserveData::default`
abbrev pub default_account : AccountReserveData
default_account = record {
  deposit = 0;
  debt = 0;
  applied_deposit_index_e18 = 0;
  applied_debt_index_e18 = 0;
}

-- `1_u128 << i` panics from 128 on, as overflow checks make it.
abbrev pub shifted {ℓ} : {E : Type 0} {A : Type ℓ} → ℕ → A → Result E A
shifted i a = if ltb i 128 then ok a else panic

unfoldable pub increase_account_deposit :
    AccountReserveData
    → ℕ
    → AccountConfig
    → ReserveData
    → ℕ
    → Result MathError (AccountReserveData × AccountConfig × ReserveData)
unfolding increase_total_deposit
increase_account_deposit a asset_id c r amount = do
  deposits ← shifted asset_id (set_bit c.deposits asset_id)
  deposit ← ok_or (checked_add u128_mod a.deposit amount) overflow
  r' ← increase_total_deposit r amount
  ok (record a { deposit = deposit }, record c { deposits = deposits }, r')

unfoldable pub decrease_account_deposit :
    AccountReserveData
    → ℕ
    → AccountConfig
    → ReserveData
    → ReserveRestrictions
    → ℕ
    → Result MathError (AccountReserveData × AccountConfig × ReserveData)
unfolding decrease_total_deposit
decrease_account_deposit a asset_id c r restrictions amount = do
  deposits ←
      (if amount == a.deposit
        then shifted asset_id (clear_bit c.deposits asset_id)
        else ok c.deposits)
  deposit ← ok_or (checked_sub a.deposit amount) underflow
  r' ← decrease_total_deposit r amount
  collaterals ←
      (if ltb deposit restrictions.minimal_collateral
        then shifted asset_id (clear_bit c.collaterals asset_id)
        else ok c.collaterals)
  ok (
    record a { deposit = deposit },
    record c { deposits = deposits; collaterals = collaterals },
    r',
  )

unfoldable pub increase_account_debt :
    AccountReserveData
    → ℕ
    → AccountConfig
    → ReserveData
    → ℕ
    → Result MathError (AccountReserveData × AccountConfig × ReserveData)
unfolding increase_total_debt
increase_account_debt a asset_id c r amount = do
  borrows ← shifted asset_id (set_bit c.borrows asset_id)
  debt ← ok_or (checked_add u128_mod a.debt amount) overflow
  r' ← increase_total_debt r amount
  ok (record a { debt = debt }, record c { borrows = borrows }, r')

unfoldable pub decrease_account_debt :
    AccountReserveData
    → ℕ
    → AccountConfig
    → ReserveData
    → ℕ
    → Result MathError (AccountReserveData × AccountConfig × ReserveData)
unfolding decrease_total_debt
decrease_account_debt a asset_id c r amount = do
  borrows ←
      (if amount == a.debt then shifted asset_id (clear_bit c.borrows asset_id) else ok c.borrows)
  debt ← ok_or (checked_sub a.debt amount) underflow
  r' ← decrease_total_debt r amount
  ok (record a { debt = debt }, record c { borrows = borrows }, r')

module _ ⦃p : Pendzl⦄ where
  -- The fee on an interest: rounded up twice, and a panic if the reduction is above 100%.
  unfoldable pub fee_on : ℕ → ℕ → ℕ → Result MathError ℕ
  fee_on interest fee_e6 fee_reduction_e6 = do
    pre_fee ← e0_mul_e6_to_e0_rup interest fee_e6
    fee_part_e6 ← unwrap (checked_sub e6 fee_reduction_e6)
    e0_mul_e6_to_e0_rup pre_fee fee_part_e6

  -- The deposit with its interest less the fee, the interest, and the fees.
  unfoldable pub accumulate_deposit :
      AccountReserveData → ℕ → ReserveFees → ℕ → Result MathError (ℕ × ℕ × ReserveFees)
  unfolding fee_on increase_earned_fee
  accumulate_deposit a index fees reduction =
      if not (a.deposit == 0)
        && not (a.applied_deposit_index_e18 == 0)
        && ltb a.applied_deposit_index_e18 index
      then (do
        with_fee ← e0_mul_e18_div_e18_to_e0_rdown a.deposit index a.applied_deposit_index_e18
        interest ← ok_or (checked_sub with_fee a.deposit) underflow
        fee ← fee_on interest fees.deposit_fee_e6 reduction
        updated ← ok_or (checked_sub with_fee fee) underflow
        delta ← ok_or (checked_sub updated a.deposit) underflow
        fees' ← increase_earned_fee fees fee
        ok (updated, delta, fees'))
      else ok (a.deposit, 0, fees)

  -- The debt with its interest and the fee on it, their sum, and the fees.
  unfoldable pub accumulate_debt :
      AccountReserveData → ℕ → ReserveFees → ℕ → Result MathError (ℕ × ℕ × ReserveFees)
  unfolding fee_on increase_earned_fee
  accumulate_debt a index fees reduction =
      if not (a.debt == 0)
        && not (a.applied_debt_index_e18 == 0)
        && ltb a.applied_debt_index_e18 index
      then (do
        no_fee ← e0_mul_e18_div_e18_to_e0_rup a.debt index a.applied_debt_index_e18
        interest ← ok_or (checked_sub no_fee a.debt) underflow
        fee ← fee_on interest fees.debt_fee_e6 reduction
        updated ← ok_or (checked_add u128_mod no_fee fee) overflow
        delta ← ok_or (checked_sub updated a.debt) underflow
        fees' ← increase_earned_fee fees fee
        ok (updated, delta, fees'))
      else ok (a.debt, 0, fees)

  -- The account's data, the fees and the two interests.
  unfoldable pub accumulate_account_interest :
      AccountReserveData
      → ReserveIndexes
      → ReserveFees
      → FeeReductions
      → Result MathError (AccountReserveData × ReserveFees × (ℕ × ℕ))
  accumulate_account_interest a x fees reductions =
      if leb x.deposit_index_e18 a.applied_deposit_index_e18
        && leb x.debt_index_e18 a.applied_debt_index_e18
      then ok (a, fees, (0, 0))
      else (do
        (deposit, delta_deposit, fees') ← accumulate_deposit a x.deposit_index_e18 fees reductions.0
        (debt, delta_debt, fees'') ← accumulate_debt a x.debt_index_e18 fees' reductions.1
        ok (
          record {
            deposit = deposit;
            debt = debt;
            applied_deposit_index_e18 = x.deposit_index_e18;
            applied_debt_index_e18 = x.debt_index_e18;
          },
          fees'',
          (delta_deposit, delta_debt),
        ))
