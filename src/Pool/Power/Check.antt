-- ===== src/Pool/Power/Check.antt =====
-- What the answer of `calculate_lending_power_e6` says.
use Prim.Native.Nat.{bit_and}
use abacus_protocol.Base.{
  ℕ, zero, suc, ◌+◌, ◌^◌, ◌/◌, ◌≤◌, ◌≡◌, refl, List, arith, true, false, Ensures, ok, ◌>>=◌, leb,
  if◌then◌else◌, Result-cases, inl, inr, ◌-◌,
}
use abacus_protocol.Base.Bits.{bit_at}
use abacus_protocol.Library.MulDiv.{Pendzl}
use abacus_protocol.Library.Account.{AccountConfig, FeeReductions}
use abacus_protocol.Pool.Storage.{AccountDatas, LendingPoolStorage, MarketRule, get_market_rule}
use abacus_protocol.Pool.Power.{add_asset, power_step, power_from, calculate_lending_power_e6}
use abacus_protocol.Pool.Power.Loop.{power_of_all, power_from-power_of_all}

module _ ⦃p : Pendzl⦄ (s : LendingPoolStorage) (datas : AccountDatas) (reductions : FeeReductions)
    (prices : List ℕ) where
  -- With at most 128 assets and a known market rule, the lending power is the comparison and the
  -- difference of the two sums over all assets, failures included.
  pub calculate_lending_power_lem :
      (config : AccountConfig) (rule : MarketRule)
      → s.next_asset_id ≤ 128
      → get_market_rule s config ≡ ok rule
      → calculate_lending_power_e6 s datas config reductions prices ≡ (
          power_of_all s datas reductions prices rule
            (bit_and config.deposits config.collaterals)
            config.borrows
            s.next_asset_id
            0
            (0, 0)
          >>= λ (collateral, debt). ok (
              if leb debt collateral
              then (true, collateral - debt)
              else (false, debt - collateral)))
  unfolding calculate_lending_power_e6
  calculate_lending_power_lem config rule few h =
      let collaterals = bit_and config.deposits config.collaterals in
      let sum =
        power_of_all s datas reductions prices rule collaterals config.borrows s.next_asset_id 0
          (0, 0) in
      rw
        (
          h,
          power_from-power_of_all s datas reductions prices rule collaterals config.borrows
              s.next_asset_id 0 (0, 0) (omega arith),
        )
        (elim (Result-cases sum) [
          | inl ((collateral, debt), e) ↦ rw e (ground arith)
          | inr (inl (e, q)) ↦ rw q refl
          | inr (inr q) ↦ rw q refl
        ])

  bit_at_none : (id : ℕ) → bit_at 0 id ≡ 0
  unfolding bit_at
  bit_at_none id = let none : 0 / 2 ^ id ≡ 0 = omega arith in rw none refl

  debt_of_none :
      (rule : MarketRule) (collaterals n id : ℕ) (totals : ℕ × ℕ)
      → Ensures
          (λ totals'. totals'.1 ≡ totals.1)
          (power_from s datas reductions prices rule collaterals 0 n id totals)
  unfolding power_from power_step add_asset
  debt_of_none rule collaterals zero id totals = refl
  debt_of_none rule collaterals (suc n) id totals =
      grind (arith, bit_at_none id, debt_of_none rule collaterals n (id + 1))

  -- An account without a bit for a borrow is found collateralized wherever its lending power is
  -- computed.
  pub no_debt-IsCollateralized :
      (config : AccountConfig)
      → config.borrows ≡ 0
      → Ensures
          (λ (collateralized, amount). collateralized ≡ true)
          (calculate_lending_power_e6 s datas config reductions prices)
  unfolding calculate_lending_power_e6
  no_debt-IsCollateralized config h = rw h (
      grind (
        arith,
        λ (rule : MarketRule).
            debt_of_none rule (bit_and config.deposits config.collaterals) s.next_asset_id 0 (0, 0),
      ))
