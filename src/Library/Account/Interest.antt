-- ===== src/Library/Account/Interest.antt =====
-- What `accumulate_account_interest` adds, and in whose favour it rounds.
use native.Mathlib.Nat.{mul-le-mul_left}
use abacus_protocol.Base.{ℕ, ◌+◌, ◌-◌, ◌*◌, ◌≤◌, ◌<◌, ◌≡◌, arith, Ensures, Ensures-intro, ok}
use abacus_protocol.Library.MulDiv.{
  Pendzl, IsMulDiv, down, up, down_lem, up_lem, up_bounds, OnlyOverflows, mul_div-OnlyOverflows,
}
use abacus_protocol.Library.Math.{
  e6, e0_mul_e18_div_e18_to_e0_rdown, e0_mul_e18_div_e18_to_e0_rup, e0_mul_e6_to_e0_rup,
}
use abacus_protocol.Library.InterestRate.Curve.{le_of_mul-lt}
use abacus_protocol.Library.Indexes.{ReserveFees, ReserveIndexes}
use abacus_protocol.Library.Restrictions.{AccountReserveData}
use abacus_protocol.Library.Account.{
  FeeReductions, fee_on, accumulate_deposit, accumulate_debt, accumulate_account_interest,
}

-- A balance and the earned fee after a delta of interest.
abbrev Accrues : ℕ → ReserveFees → ℕ × ℕ × ReserveFees → Type 0
Accrues balance f (new, delta, f') =
    (new ≡ balance + delta)
    × (f.earned_fee ≤ f'.earned_fee)
    × (f'.deposit_fee_e6 ≡ f.deposit_fee_e6)
    × (f'.debt_fee_e6 ≡ f.debt_fee_e6)

module _ ⦃p : Pendzl⦄ where
  accumulate_deposit-Accrues :
      (a : AccountReserveData) (i : ℕ) (f : ReserveFees) (red : ℕ)
      → Ensures (Accrues a.deposit f) (accumulate_deposit a i f red)
  unfolding accumulate_deposit
  accumulate_deposit-Accrues a i f red = ground arith

  accumulate_debt-Accrues :
      (a : AccountReserveData) (i : ℕ) (f : ReserveFees) (red : ℕ)
      → Ensures (Accrues a.debt f) (accumulate_debt a i f red)
  unfolding accumulate_debt
  accumulate_debt-Accrues a i f red = ground arith

  -- Of a successful accumulation, the interests that are returned are what deposit and debt grew
  -- by; the account is then at the indexes at least, the earned fee has not fallen, and the fee
  -- rates stay.
  pub accumulate_account_interest_lem :
      (a : AccountReserveData) (x : ReserveIndexes) (f : ReserveFees) (red : FeeReductions)
      → Ensures
          (λ (a', f', d).
            (a'.deposit ≡ a.deposit + d.0)
            × (a'.debt ≡ a.debt + d.1)
            × (x.deposit_index_e18 ≤ a'.applied_deposit_index_e18)
            × (x.debt_index_e18 ≤ a'.applied_debt_index_e18)
            × (f.earned_fee ≤ f'.earned_fee)
            × (f'.deposit_fee_e6 ≡ f.deposit_fee_e6)
            × (f'.debt_fee_e6 ≡ f.debt_fee_e6))
          (accumulate_account_interest a x f red)
  unfolding accumulate_account_interest
  accumulate_account_interest_lem a x f red = grind (
    arith,
    accumulate_deposit-Accrues a x.deposit_index_e18 f red.0,
    accumulate_debt-Accrues a x.debt_index_e18,
  )

  -- After a successful accumulation, a second one at the same indexes succeeds, changes nothing
  -- and gives no interest.
  pub accumulate_account_interest_again :
      (a : AccountReserveData) (x : ReserveIndexes) (f g : ReserveFees) (red : FeeReductions)
      {a' : AccountReserveData} {f' : ReserveFees} {d : ℕ × ℕ}
      → accumulate_account_interest a x f red ≡ ok (a', f', d)
      → accumulate_account_interest a' x g red ≡ ok (a', g, (0, 0))
  accumulate_account_interest_again a x f g red {a'} {f'} {d} h =
      let level = accumulate_account_interest_lem a x f red in
      unfold accumulate_account_interest in ground arith

module _ ⦃p : Pendzl⦄ (laws : IsMulDiv p) where
  -- A fee of at most 100% does not exceed the interest that it is taken from.
  scaled-le : (x part : ℕ) → part ≤ e6 → Ensures (λ q. q ≤ x) (e0_mul_e6_to_e0_rup x part)
  unfolding e0_mul_e6_to_e0_rup
  scaled-le x part le =
      let mono = mul-le-mul_left x le in
      Ensures-intro (p.mul_div x part e6 up)
        (λ q h. le_of_mul-lt e6 (omega (arith, up_bounds laws x part e6 h)))

  fee_on-le :
      (interest fee red : ℕ) → fee ≤ e6 → Ensures (λ q. q ≤ interest) (fee_on interest fee red)
  unfolding fee_on
  fee_on-le interest fee red le = grind (arith, scaled-le)

  scaled-OnlyOverflows : (x part : ℕ) → OnlyOverflows (e0_mul_e6_to_e0_rup x part)
  unfolding e0_mul_e6_to_e0_rup
  scaled-OnlyOverflows x part = mul_div-OnlyOverflows laws x part e6 up (omega arith)

  fee_on-OnlyOverflows : (interest fee red : ℕ) → red ≤ e6 → OnlyOverflows (fee_on interest fee red)
  unfolding fee_on
  fee_on-OnlyOverflows interest fee red le = grind (arith, scaled-OnlyOverflows)

  -- Where the deposit index has grown, the new deposit and the fee on it together, at the index
  -- applied before, do not exceed the deposit at the new index.
  pub accumulate_deposit_rounding :
      (a : AccountReserveData) (i : ℕ) (f : ReserveFees) (red : ℕ)
      → a.applied_deposit_index_e18 < i
      → Ensures
          (λ (new, delta, f').
            (new + (f'.earned_fee - f.earned_fee)) * a.applied_deposit_index_e18 ≤ a.deposit * i)
          (accumulate_deposit a i f red)
  unfolding accumulate_deposit e0_mul_e18_div_e18_to_e0_rdown
  accumulate_deposit_rounding a i f red lt =
      let mono =
        mul-le-mul_left a.deposit (let m : a.applied_deposit_index_e18 ≤ i = omega arith in m) in
      ground (arith, down_lem laws a.deposit i a.applied_deposit_index_e18)

  -- Where the debt index has grown from above 0, the new debt less the fee on it, at the index
  -- applied before, is not below the debt at the new index.
  pub accumulate_debt_rounding :
      (a : AccountReserveData) (i : ℕ) (f : ReserveFees) (red : ℕ)
      → 0 < a.applied_debt_index_e18
      → a.applied_debt_index_e18 < i
      → Ensures
          (λ (new, delta, f').
            a.debt * i ≤ (new - (f'.earned_fee - f.earned_fee)) * a.applied_debt_index_e18)
          (accumulate_debt a i f red)
  unfolding accumulate_debt e0_mul_e18_div_e18_to_e0_rup
  accumulate_debt_rounding a i f red pos lt =
      ground (arith, up_lem laws a.debt i a.applied_debt_index_e18)

  accumulate_deposit-OnlyOverflows :
      (a : AccountReserveData) (i : ℕ) (f : ReserveFees) (red : ℕ)
      → f.deposit_fee_e6 ≤ e6
      → red ≤ e6
      → OnlyOverflows (accumulate_deposit a i f red)
  unfolding accumulate_deposit e0_mul_e18_div_e18_to_e0_rdown
  accumulate_deposit-OnlyOverflows a i f red fee_fits red_fits =
      let d = a.deposit in
      let j = a.applied_deposit_index_e18 in
      grind (
        arith,
        fee_on-OnlyOverflows,
        fee_on-le,
        mul_div-OnlyOverflows laws d i j down,
        down_lem laws d i j,
        λ (q : ℕ). le_of_mul-lt j {a = d} {b = q},
        λ (le : j ≤ i). mul-le-mul_left d le,
      )

  accumulate_debt-OnlyOverflows :
      (a : AccountReserveData) (i : ℕ) (f : ReserveFees) (red : ℕ)
      → red ≤ e6
      → OnlyOverflows (accumulate_debt a i f red)
  unfolding accumulate_debt e0_mul_e18_div_e18_to_e0_rup
  accumulate_debt-OnlyOverflows a i f red red_fits =
      let d = a.debt in
      let j = a.applied_debt_index_e18 in
      grind (
        arith,
        fee_on-OnlyOverflows,
        mul_div-OnlyOverflows laws d i j up,
        up_lem laws d i j,
        λ (q : ℕ). le_of_mul-lt j {a = d} {b = q},
        λ (le : j ≤ i). mul-le-mul_left d le,
      )

  -- With a deposit fee and fee reductions of at most 100%, the accumulation ends in a result or
  -- in the overflow error.
  pub accumulate_account_interest-OnlyOverflows :
      (a : AccountReserveData) (x : ReserveIndexes) (f : ReserveFees) (red : FeeReductions)
      → f.deposit_fee_e6 ≤ e6
      → red.0 ≤ e6
      → red.1 ≤ e6
      → OnlyOverflows (accumulate_account_interest a x f red)
  unfolding accumulate_account_interest
  accumulate_account_interest-OnlyOverflows a x f red fee_fits fits fits' = grind (
    arith,
    accumulate_deposit-OnlyOverflows a x.deposit_index_e18 f red.0,
    λ (g : ReserveFees). accumulate_debt-OnlyOverflows a x.debt_index_e18 g red.1,
  )
