-- ===== src/Examples/Pool.antt =====
-- The theorems on the lending power, the utilization rate and the management, applied.
use Prim.Native.Nat.{bit_and}
use abacus_protocol.Base.{
  ℕ, List, [], ◌∷◌, ◌≡◌, ◌≢◌, ◌+◌, ◌-◌, ◌<◌, refl, arith, true, false, some, none, ok, Ensures,
  Option, if◌then◌else◌, ◌>>=◌, leb, get_elem?, length, set, insert,
}
use abacus_protocol.Errors.{from_rules}
use abacus_protocol.Library.MulDiv.{exact, exact-IsMulDiv}
use abacus_protocol.Base.{◌*◌, ◌≤◌}
use abacus_protocol.Base.Bits.{bit_at}
use abacus_protocol.Library.Reserve.{recalculate_current_rates}
use abacus_protocol.Library.Reserve.Rates.{recalculate_current_rates_lem}
use abacus_protocol.Pool.Storage.{get_account_config, get_account_reserve_data}
use abacus_protocol.Pool.Transfer.{account_for_set_as_collateral, insert_account_data}
use abacus_protocol.Pool.Transfer.Collateral.{account_for_set_as_collateral_lem}
use abacus_protocol.Pool.Transfer.Shift.{entry_in, insert_account_data-shift}
use abacus_protocol.Examples.World.{depositor}
use abacus_protocol.Library.AssetRules.{AssetRules, validate_new_rule}
use abacus_protocol.Library.TimeWeighted.{TwEntry}
use abacus_protocol.Pool.Storage.{
  LendingPoolStorage, AccountId, get_all_registered_assets, get_market_rule,
}
use abacus_protocol.Pool.Power.{calculate_lending_power_e6}
use abacus_protocol.Pool.Power.Loop.{power_of_all}
use abacus_protocol.Pool.Power.Check.{calculate_lending_power_lem, no_debt-IsCollateralized}
use abacus_protocol.Pool.Utilization.{seek, out_of_fuel, get_tw_ur_from_shortest_period_longer_than}
use abacus_protocol.Pool.Utilization.Search.{MeanOver, get_tw_ur_lem, seek-period_zero}
use abacus_protocol.Pool.Management.{
  account_for_register_asset, account_for_asset_rule_change, account_for_changing_is_frozen,
  extended,
}
use abacus_protocol.Pool.Management.Laws.{
  Registry, account_for_register_asset-Registry, get_all_registered_assets_lem, frozen_in,
  account_for_asset_rule_change-ignores_old, account_for_changing_is_frozen_lem,
}
use abacus_protocol.Examples.World.{
  model, pool, pool-Registry, reserve, restrictions, fees, market_rule, borrower_config,
  borrower_datas, depositor_config, depositor_datas,
}

-- The prices of the two assets.
abbrev both_one : List ℕ
both_one = 1000000000000000000 ∷ 1000000000000000000 ∷ []

borrower_rule : get_market_rule pool borrower_config ≡ ok market_rule
unfolding get_market_rule
borrower_rule = refl

calculate_lending_power_example :
    calculate_lending_power_e6 ⦃p = exact⦄ pool borrower_datas borrower_config (0, 0) both_one ≡ (
      power_of_all ⦃p = exact⦄ pool borrower_datas
        (0, 0)
        both_one
        market_rule
        (bit_and 1 1)
        2
        2
        0
        (0, 0)
      >>= λ (collateral, debt).
          ok
            (if leb debt collateral then (true, collateral - debt) else (false, debt - collateral)))
calculate_lending_power_example =
    calculate_lending_power_lem ⦃p = exact⦄ pool borrower_datas (0, 0) both_one borrower_config
      market_rule (omega arith) borrower_rule

no_debt-IsCollateralized_example :
    Ensures
      (λ (collateralized, amount). collateralized ≡ true)
      (calculate_lending_power_e6 ⦃p = exact⦄ pool depositor_datas depositor_config (0, 0) both_one)
no_debt-IsCollateralized_example =
    no_debt-IsCollateralized ⦃p = exact⦄ pool depositor_datas (0, 0) both_one depositor_config refl

-- Entries every 10 milliseconds at a utilization rate of 20%; the last one is at index 3.
abbrev entry_at : ℕ → Option TwEntry
entry_at k =
    if leb k 3 then some (record { timestamp = k + k + k + k; accumulator = k + k }) else none

abbrev recorded : LendingPoolStorage
recorded = record pool {
  tw_ur_indexes = insert 1 3 pool.tw_ur_indexes;
  tw_ur_entries = λ id k. entry_at k;
}

get_tw_ur_example :
    Ensures
      (λ r.
        (rate : ℕ) × (r ≡ some rate)
        × MeanOver entry_at (record { timestamp = 12; accumulator = 6 }) 5 rate)
      (get_tw_ur_from_shortest_period_longer_than recorded 61 5 1 0)
get_tw_ur_example =
    get_tw_ur_lem recorded 5 1 0 3 (record { timestamp = 12; accumulator = 6 }) refl (omega arith)
      refl (omega arith)

-- A ring that is full.
abbrev full_ring : ℕ → Option TwEntry
full_ring k = some (record { timestamp = 500; accumulator = 7 })

seek-period_zero_example :
    seek full_ring
      (record { timestamp = 500; accumulator = 7 })
      0
      1000
      4
      (record { timestamp = 500; accumulator = 7 })
    ≡ ok out_of_fuel
seek-period_zero_example =
    seek-period_zero full_ring (record { timestamp = 500; accumulator = 7 })
      (λ i h. (record { timestamp = 500; accumulator = 7 }, refl)) 1000 4
      (record { timestamp = 500; accumulator = 7 })

account_for_register_asset-Registry_example :
    Ensures
      (λ s'.
        Registry s'
        × (pool.asset_to_id 300 ≡ none)
        × (s'.asset_to_id 300 ≡ some 2)
        × ((other : AccountId) → other ≢ 300 → s'.asset_to_id other ≡ pool.asset_to_id other)
        × (s'.next_asset_id ≡ 2 + 1))
      (account_for_register_asset pool 300 reserve restrictions 1000 fees (some model) 5)
account_for_register_asset-Registry_example =
    account_for_register_asset-Registry pool 300 reserve restrictions 1000 fees (some model) 5
      pool-Registry

get_all_registered_assets_example :
    (assets : List AccountId) × (get_all_registered_assets pool ≡ ok assets)
    × (length assets ≡ 2)
    × ((i : ℕ) → i < 2 → get_elem? assets i ≡ pool.id_to_asset i)
get_all_registered_assets_example = get_all_registered_assets_lem pool pool-Registry

-- A rule without the coefficients that the present rule has.
abbrev weaker_rules : AssetRules
weaker_rules = record {
  collateral_coefficient_e6 = none;
  borrow_coefficient_e6 = none;
  penalty_e6 = some 1;
}

account_for_asset_rule_change-ignores_old_example :
    account_for_asset_rule_change pool 0 200 weaker_rules ≡ (
      from_rules (validate_new_rule weaker_rules none) >>= λ _. ok (record pool {
        market_rules =
            insert 0 (set (extended market_rule 1) 1 (some weaker_rules)) pool.market_rules;
      }))
account_for_asset_rule_change-ignores_old_example =
    account_for_asset_rule_change-ignores_old pool 0 1 200 weaker_rules market_rule refl
      (omega arith) refl

account_for_changing_is_frozen_example :
    Ensures (λ s'. frozen_in s' 1 ≡ frozen_in pool 1) (account_for_changing_is_frozen pool 200 true)
account_for_changing_is_frozen_example = account_for_changing_is_frozen_lem pool 200 true 1

recalculate_current_rates_example :
    Ensures
      (λ r'.
        (r'.current_deposit_rate_e18 * r'.total_deposit ≤ r'.current_debt_rate_e18 * r'.total_debt)
        × (r' ≡ record reserve {
          current_deposit_rate_e18 = r'.current_deposit_rate_e18;
          current_debt_rate_e18 = r'.current_debt_rate_e18;
        }))
      (recalculate_current_rates ⦃p = exact⦄ reserve model)
recalculate_current_rates_example =
    recalculate_current_rates_lem ⦃p = exact⦄ exact-IsMulDiv reserve model

account_for_set_as_collateral_example :
    Ensures
      (λ s'.
        (bit_at (get_account_config s' 7).collaterals 0 ≡ 1)
        × (10 ≤ (get_account_reserve_data pool 0 7).0.deposit)
        × (s' ≡ record pool { account_configs = s'.account_configs }))
      (account_for_set_as_collateral pool 7 100 true)
account_for_set_as_collateral_example = account_for_set_as_collateral_lem pool 7 100 0 true refl

insert_account_data-shift_example :
    Ensures
      (λ s'. entry_in (s'.account_reserve_datas 8) 2 ≡ get_elem? borrower_datas 1)
      (insert_account_data pool borrower_datas 0 depositor 8)
insert_account_data-shift_example =
    insert_account_data-shift pool borrower_datas 0 1 depositor 8 (omega arith)
