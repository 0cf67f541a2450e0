-- ===== src/Examples/Library.antt =====
-- The theorems on the library, applied.
use abacus_protocol.Base.{ℕ, ◌≤◌, ◌≡◌, ◌+◌, ◌-◌, ◌*◌, ok, refl, arith, Ensures}
use abacus_protocol.Base.Bits.{bit_at}
use abacus_protocol.Library.MulDiv.{exact, exact-IsMulDiv, OnlyOverflows}
use abacus_protocol.Library.Math.{
  e18_mul_e0_to_e18, e18_mul_e18_to_e18_rdown, e18_mul_e18_to_e18_rup,
  e0_mul_e18_div_e18_to_e0_rdown, e0_mul_e6_to_e0_rup,
}
use abacus_protocol.Library.InterestRate.{
  utilization_rate_to_interest_rate_e18, adjust_rate_at_target,
}
use abacus_protocol.Library.InterestRate.Curve.{rate_mono}
use abacus_protocol.Library.InterestRate.Adjust.{
  IsCurve, rate_total, rate_anchors, adjust_rate_at_target_lem,
}
use abacus_protocol.Library.Indexes.{ReserveIndexes, grown_deposit_index, grown_debt_index, update}
use abacus_protocol.Library.Indexes.Growth.{update_mono}
use abacus_protocol.Library.Restrictions.{AccountReserveData}
use abacus_protocol.Library.Account.{
  increase_account_deposit, decrease_account_deposit, increase_account_debt, decrease_account_debt,
  accumulate_deposit, accumulate_debt, accumulate_account_interest,
}
use abacus_protocol.Library.Account.Interest.{
  accumulate_account_interest_lem, accumulate_account_interest_again, accumulate_deposit_rounding,
  accumulate_debt_rounding, accumulate_account_interest-OnlyOverflows,
}
use abacus_protocol.Library.Account.Flags.{
  Flagged, SameElsewhere, operations-Flagged, operations-SameElsewhere,
}
use abacus_protocol.Examples.World.{
  model, restrictions, fees, indexes, later_indexes, reserve, depositor, borrower, borrower_config,
}

-- The rate curve at half the target and above the target.
rate_low : utilization_rate_to_interest_rate_e18 ⦃p = exact⦄ 450000 model ≡ ok 50
unfolding utilization_rate_to_interest_rate_e18
rate_low = refl

rate_high : utilization_rate_to_interest_rate_e18 ⦃p = exact⦄ 950000 model ≡ ok 2550
unfolding utilization_rate_to_interest_rate_e18
rate_high = refl

model-IsCurve : IsCurve model
model-IsCurve = record {
  target_positive = omega arith;
  target_below_full = omega arith;
  rates_rise = omega arith;
  top_fits = omega arith;
}

rate_mono_example : 50 ≤ 2550
rate_mono_example =
    rate_mono ⦃p = exact⦄ exact-IsMulDiv 450000 950000 model (omega arith) rate_low rate_high

rate_total_example :
    (r : ℕ) × (utilization_rate_to_interest_rate_e18 ⦃p = exact⦄ 950000 model ≡ ok r)
rate_total_example = rate_total ⦃p = exact⦄ exact-IsMulDiv 950000 model model-IsCurve (omega arith)

rate_anchors_example :
    (utilization_rate_to_interest_rate_e18 ⦃p = exact⦄ 0 model ≡ ok 0)
    × (utilization_rate_to_interest_rate_e18 ⦃p = exact⦄ 900000 model ≡ ok 100)
    × (utilization_rate_to_interest_rate_e18 ⦃p = exact⦄ 1000000 model ≡ ok 5000)
rate_anchors_example = rate_anchors ⦃p = exact⦄ exact-IsMulDiv model model-IsCurve

-- The mean utilization of 95% moves the rate at the target to the rate at 95%, cut to the maximum.
adjusted :
    adjust_rate_at_target ⦃p = exact⦄ model 950000 77
    ≡ ok (record model { rate_at_target_ur_e18 = 1000; last_adjustment_timestamp = 77 }, 1000)
unfolding adjust_rate_at_target utilization_rate_to_interest_rate_e18
adjusted = refl

adjust_rate_at_target_example :
    (10 ≤ 1000)
    × (1000 ≤ 1000)
    × (record model { rate_at_target_ur_e18 = 1000; last_adjustment_timestamp = 77 }
        ≡ record model { rate_at_target_ur_e18 = 1000; last_adjustment_timestamp = 77 })
adjust_rate_at_target_example =
    adjust_rate_at_target_lem ⦃p = exact⦄ exact-IsMulDiv model 950000 77 (omega arith) adjusted

-- 500 milliseconds later.
abbrev grown : ReserveIndexes
grown = record {
  deposit_index_e18 = 1000000000500000000;
  debt_index_e18 = 1000000001000000000;
  update_timestamp = 500;
}

updated : update ⦃p = exact⦄ indexes reserve 500 ≡ ok grown
unfolding update grown_deposit_index e18_mul_e0_to_e18 e18_mul_e18_to_e18_rdown grown_debt_index
    e18_mul_e18_to_e18_rup
updated = refl

update_mono_example :
    (0 ≤ 500)
    × (grown.update_timestamp ≡ 500)
    × (indexes.deposit_index_e18 ≤ grown.deposit_index_e18)
    × (indexes.debt_index_e18 ≤ grown.debt_index_e18)
update_mono_example = update_mono ⦃p = exact⦄ exact-IsMulDiv indexes reserve 500 updated

accumulate_account_interest_example :
    Ensures
      (λ (a', f', d).
        (a'.deposit ≡ 100000 + d.0)
        × (a'.debt ≡ 0 + d.1)
        × (later_indexes.deposit_index_e18 ≤ a'.applied_deposit_index_e18)
        × (later_indexes.debt_index_e18 ≤ a'.applied_debt_index_e18)
        × (0 ≤ f'.earned_fee)
        × (f'.deposit_fee_e6 ≡ 100000)
        × (f'.debt_fee_e6 ≡ 50000))
      (accumulate_account_interest ⦃p = exact⦄ depositor later_indexes fees (0, 0))
accumulate_account_interest_example =
    accumulate_account_interest_lem ⦃p = exact⦄ depositor later_indexes fees (0, 0)

-- 10000 of interest, and 1000 of it the fee.
abbrev accumulated : AccountReserveData
accumulated = record {
  deposit = 109000;
  debt = 0;
  applied_deposit_index_e18 = 1100000000000000000;
  applied_debt_index_e18 = 1200000000000000000;
}

accumulation :
    accumulate_account_interest ⦃p = exact⦄ depositor later_indexes fees (0, 0)
    ≡ ok (accumulated, record fees { earned_fee = 1000 }, (9000, 0))
unfolding accumulate_account_interest accumulate_deposit e0_mul_e18_div_e18_to_e0_rdown
    e0_mul_e6_to_e0_rup accumulate_debt
accumulation = refl

accumulate_account_interest_again_example :
    accumulate_account_interest ⦃p = exact⦄ accumulated later_indexes fees (0, 0)
    ≡ ok (accumulated, fees, (0, 0))
accumulate_account_interest_again_example =
    accumulate_account_interest_again ⦃p = exact⦄ depositor later_indexes fees fees (0, 0)
      accumulation

accumulate_deposit_rounding_example :
    Ensures
      (λ (new, delta, f').
        (new + (f'.earned_fee - 0)) * 1000000000000000000 ≤ 100000 * 1100000000000000000)
      (accumulate_deposit ⦃p = exact⦄ depositor 1100000000000000000 fees 0)
accumulate_deposit_rounding_example =
    accumulate_deposit_rounding ⦃p = exact⦄ exact-IsMulDiv depositor 1100000000000000000 fees 0
      (omega arith)

accumulate_debt_rounding_example :
    Ensures
      (λ (new, delta, f').
        20000 * 1200000000000000000 ≤ (new - (f'.earned_fee - 0)) * 1000000000000000000)
      (accumulate_debt ⦃p = exact⦄ borrower 1200000000000000000 fees 0)
accumulate_debt_rounding_example =
    accumulate_debt_rounding ⦃p = exact⦄ exact-IsMulDiv borrower 1200000000000000000 fees 0
      (omega arith) (omega arith)

accumulate_account_interest-OnlyOverflows_example :
    OnlyOverflows (accumulate_account_interest ⦃p = exact⦄ borrower later_indexes fees (0, 0))
accumulate_account_interest-OnlyOverflows_example =
    accumulate_account_interest-OnlyOverflows ⦃p = exact⦄ exact-IsMulDiv borrower later_indexes fees
      (0, 0) (omega arith) (omega arith) (omega arith)

borrower-Flagged : Flagged 1 borrower_config borrower
unfolding bit_at
borrower-Flagged = record { deposit_flag = λ ne. absurd (ne refl); debt_flag = λ ne. refl }

operations-Flagged_example :
    Ensures
      (λ (a', c', r'). Flagged 1 c' a')
      (increase_account_deposit borrower 1 borrower_config reserve 20000)
    × Ensures
        (λ (a', c', r'). Flagged 1 c' a')
        (decrease_account_deposit borrower 1 borrower_config reserve restrictions 20000)
    × Ensures
        (λ (a', c', r'). Flagged 1 c' a')
        (increase_account_debt borrower 1 borrower_config reserve 20000)
    × Ensures
        (λ (a', c', r'). Flagged 1 c' a')
        (decrease_account_debt borrower 1 borrower_config reserve 20000)
operations-Flagged_example =
    operations-Flagged borrower 1 borrower_config reserve 20000 restrictions borrower-Flagged

operations-SameElsewhere_example :
    Ensures
      (λ (a', c', r'). SameElsewhere 0 borrower_config c')
      (increase_account_deposit borrower 1 borrower_config reserve 20000)
    × Ensures
        (λ (a', c', r'). SameElsewhere 0 borrower_config c')
        (decrease_account_deposit borrower 1 borrower_config reserve restrictions 20000)
    × Ensures
        (λ (a', c', r'). SameElsewhere 0 borrower_config c')
        (increase_account_debt borrower 1 borrower_config reserve 20000)
    × Ensures
        (λ (a', c', r'). SameElsewhere 0 borrower_config c')
        (decrease_account_debt borrower 1 borrower_config reserve 20000)
operations-SameElsewhere_example =
    operations-SameElsewhere borrower 1 borrower_config reserve 20000 0 (λ e. grind (arith, e))
      (omega arith) restrictions
