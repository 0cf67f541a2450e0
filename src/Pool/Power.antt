-- ===== src/Pool/Power.antt =====
-- The lending power of an account: `calculate_lending_power_e6` of storage/mod.rs and the checks of
-- the collateralization that stand on it.
pub mod Check
pub mod Loop
pub mod Frame
use Prim.Native.Nat.{bit_and, bit_or}
use abacus_protocol.Base.{
  ℕ, zero, suc, ◌+◌, ◌-◌, ◌/◌, ◌^◌, Bool, true, false, List, Option, none, some, Result, ok, err,
  ok_or, unwrap, unwrap_result, ◌>>=◌, leb, ◌==◌, if◌then◌else◌, checked_add, checked_sub, u128_mod,
  get_elem?,
}
use abacus_protocol.Base.Bits.{bit_at}
use abacus_protocol.Errors.{
  LendingPoolError, math_error, overflow, underflow, rule_collateral_disable, rule_borrow_disable,
  insufficient_collateral, from_math,
}
use abacus_protocol.Library.MulDiv.{Pendzl}
use abacus_protocol.Library.Math.{calculate_asset_amount_value_e8, e8_mul_e6_to_e6_rdown}
use abacus_protocol.Library.Restrictions.{AccountReserveData}
use abacus_protocol.Library.Account.{
  AccountConfig, FeeReductions, shifted, accumulate_account_interest,
}
use abacus_protocol.Library.AssetRules.{AssetRules}
use abacus_protocol.Pool.Storage.{
  AccountId, AccountDatas, LendingPoolStorage, MarketRule, Oracles, get_account_datas,
  get_account_config, get_assets_prices_e18, get_decimal_multiplier, get_fee_reductions_of_account,
  get_market_rule, get_reserve_indexes_and_fees,
}

-- `market_rule.get(id).ok_or(e)?.ok_or(e)?.coefficient.ok_or(e)?`
unfoldable pub coefficient_of :
    MarketRule → ℕ → (AssetRules → Option ℕ) → LendingPoolError → Result LendingPoolError ℕ
coefficient_of rule id coefficient e = do
  entry ← ok_or (get_elem? rule id) e
  rules ← ok_or entry e
  ok_or (coefficient rules) e

module _ ⦃p : Pendzl⦄ where
  -- A total with the power of one balance added.
  unfoldable pub add_power :
      LendingPoolStorage
      → List ℕ
      → MarketRule
      → (AssetRules → Option ℕ)
      → LendingPoolError
      → ℕ
      → ℕ
      → ℕ
      → Result LendingPoolError ℕ
  unfolding coefficient_of get_decimal_multiplier
  add_power s prices rule coefficient e id balance total = do
    price ← unwrap (get_elem? prices id)
    decimals ← get_decimal_multiplier s id
    value_e8 ← calculate_asset_amount_value_e8 balance price decimals
    coefficient_e6 ← coefficient_of rule id coefficient e
    power ← from_math (e8_mul_e6_to_e6_rdown value_e8 coefficient_e6)
    ok_or (checked_add u128_mod total power) (math_error overflow)

  module _ (s : LendingPoolStorage) (datas : AccountDatas) (reductions : FeeReductions)
      (prices : List ℕ) (rule : MarketRule) (collaterals debts : ℕ) where
    -- The totals with those of one asset whose bit is set.
    unfoldable pub add_asset : ℕ → AccountReserveData → ℕ × ℕ → Result LendingPoolError (ℕ × ℕ)
    unfolding get_reserve_indexes_and_fees
    add_asset id a totals = do
      x ← get_reserve_indexes_and_fees s id
      (a', fees, interests) ← from_math (accumulate_account_interest a x.indexes x.fees reductions)
      collateral ←
          (if bit_at collaterals id == 1
            then add_power s prices rule (λ r. r.collateral_coefficient_e6) rule_collateral_disable
                id a'.deposit totals.0
            else ok totals.0)
      debt ←
          (if bit_at debts id == 1
            then add_power s prices rule (λ r. r.borrow_coefficient_e6) rule_borrow_disable id
                a'.debt totals.1
            else ok totals.1)
      ok (collateral, debt)

    -- The body of the loop: whether it breaks, and the totals.
    unfoldable pub power_step : ℕ → ℕ × ℕ → Result LendingPoolError (Bool × (ℕ × ℕ))
    power_step id totals = do
      let active = bit_or collaterals debts
      rest ← shifted id (active / 2 ^ id)
      (if rest == 0
          then ok (true, totals)
          else if bit_at active id == 0
          then ok (false, totals)
          else (do
            entry ← unwrap (get_elem? datas id)
            elim entry [
              | none ↦ ok (false, totals)
              | some a ↦ do totals' ← add_asset id a totals; ok (false, totals')
            ]))

    -- The loop from an asset on, with a number of assets left.
    unfoldable pub power_from : ℕ → ℕ → ℕ × ℕ → Result LendingPoolError (ℕ × ℕ)
    power_from zero id totals = ok totals
    power_from (suc n) id totals = do
      (stop, totals') ← power_step id totals
      elim stop [ true ↦ ok totals' | false ↦ power_from n (id + 1) totals' ]

  -- Whether the account is collateralized, and by how much it is over or under.
  unfoldable pub calculate_lending_power_e6 :
      LendingPoolStorage
      → AccountDatas
      → AccountConfig
      → FeeReductions
      → List ℕ
      → Result LendingPoolError (Bool × ℕ)
  unfolding get_market_rule
  calculate_lending_power_e6 s datas config reductions prices = do
    rule ← get_market_rule s config
    let collaterals = bit_and config.deposits config.collaterals
    (collateral, debt) ←
        power_from s datas reductions prices rule collaterals config.borrows s.next_asset_id 0
          (0, 0)
    (if leb debt collateral
        then (do over ← ok_or (checked_sub collateral debt) (math_error underflow); ok (true, over))
        else (do
          under ← ok_or (checked_sub debt collateral) (math_error underflow)
          ok (false, under)))

  -- `ensure_collateralized`
  unfoldable pub ensure_collateralized :
      LendingPoolStorage
      → AccountDatas
      → AccountConfig
      → FeeReductions
      → List ℕ
      → Result LendingPoolError (Unit {0})
  ensure_collateralized s datas config reductions prices = do
    (collateralized, amount) ← calculate_lending_power_e6 s datas config reductions prices
    (if collateralized then ok tt else err insufficient_collateral)

  module _ ⦃o : Oracles⦄ where
    unfoldable pub ensure_collateralized_from_raw :
        LendingPoolStorage
        → AccountDatas
        → AccountConfig
        → FeeReductions
        → Result LendingPoolError (Unit {0})
    ensure_collateralized_from_raw s datas config reductions = do
      prices ← get_assets_prices_e18 s
      ensure_collateralized s datas config reductions prices

    unfoldable pub ensure_collateralized_by_account :
        LendingPoolStorage → AccountId → Result LendingPoolError (Unit {0})
    ensure_collateralized_by_account s account =
        ensure_collateralized_from_raw s (get_account_datas s account)
          (get_account_config s account) (get_fee_reductions_of_account s account)

    unfoldable pub calculate_lending_power_of_an_account_e6 :
        LendingPoolStorage → AccountId → Result LendingPoolError (Bool × ℕ)
    calculate_lending_power_of_an_account_e6 s account = do
      prices ← get_assets_prices_e18 s
      calculate_lending_power_e6 s (get_account_datas s account) (get_account_config s account)
          (get_fee_reductions_of_account s account) prices
