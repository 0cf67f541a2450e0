-- ===== src/Library/Reserve/Rates.antt =====
-- The rates of a reserve (`recalculate_current_rates` of src/library/structs/reserve_data.rs).
use abacus_protocol.Base.{ℕ, ◌*◌, ◌≤◌, ◌≡◌, arith, Ensures}
use abacus_protocol.Library.MulDiv.{Pendzl, IsMulDiv, down_lem}
use abacus_protocol.Library.Math.{e18_mul_e18_div_e18_to_e18_rdown}
use abacus_protocol.Library.InterestRate.{InterestRateModel}
use abacus_protocol.Library.Reserve.{ReserveData, recalculate_current_rates}

module _ ⦃p : Pendzl⦄ (laws : IsMulDiv p) where
  -- After a successful recalculation of the rates, the interest that all deposits earn does not
  -- exceed the interest that all debts bring in, and nothing but the two rates has changed.
  pub recalculate_current_rates_lem :
      (r : ReserveData) (m : InterestRateModel)
      → Ensures
          (λ r'.
            (r'.current_deposit_rate_e18 * r'.total_deposit
              ≤ r'.current_debt_rate_e18 * r'.total_debt)
            × (r' ≡ record r {
              current_deposit_rate_e18 = r'.current_deposit_rate_e18;
              current_debt_rate_e18 = r'.current_debt_rate_e18;
            }))
          (recalculate_current_rates r m)
  unfolding recalculate_current_rates e18_mul_e18_div_e18_to_e18_rdown
  recalculate_current_rates_lem r m =
      grind (arith, λ (rate : ℕ). down_lem laws r.total_debt rate r.total_deposit)
