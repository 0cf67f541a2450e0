-- ===== src/Library/Math.antt =====
-- src/library/math/constants.rs and src/library/math/operations.rs: fixed-point products and quotients.
use abacus_protocol.Base.{
  ℕ, ◌^◌, Result, ok, unwrap, unwrap_result, ok_or, ◌>>=◌, ◌==◌, if◌then◌else◌, checked_add,
  checked_mul, checked_div, try_from, u64_mod, u128_mod, u256_mod,
}
use abacus_protocol.Errors.{MathError, overflow}
use abacus_protocol.Library.MulDiv.{Pendzl, down, up}

-- `E6_U32` and `E6_U128`
abbrev pub e6 : ℕ
e6 = 10 ^ 6

abbrev pub e8 : ℕ
e8 = 10 ^ 8

abbrev pub e10 : ℕ
e10 = 10 ^ 10

abbrev pub e18 : ℕ
e18 = 10 ^ 18

-- A product of two u64 in u128.
unfoldable pub e18_mul_e0_to_e18 : {E : Type 0} → ℕ → ℕ → Result E ℕ
e18_mul_e0_to_e18 a b = unwrap (checked_mul u128_mod a b)

module _ ⦃p : Pendzl⦄ where
  unfoldable pub e18_mul_e18_to_e18_rdown : ℕ → ℕ → Result MathError ℕ
  e18_mul_e18_to_e18_rdown a b =
      if a == e18 then ok b else if b == e18 then ok a else p.mul_div a b e18 down

  unfoldable pub e18_mul_e18_to_e18_rup : ℕ → ℕ → Result MathError ℕ
  e18_mul_e18_to_e18_rup a b =
      if a == e18 then ok b else if b == e18 then ok a else p.mul_div a b e18 up

  unfoldable pub e18_mul_e18_div_e18_to_e18_rdown : ℕ → ℕ → ℕ → Result MathError ℕ
  e18_mul_e18_div_e18_to_e18_rdown a b c = do
    v ← p.mul_div a b c down
    ok_or (try_from u64_mod v) overflow

  unfoldable pub e0_mul_e18_div_e18_to_e0_rdown : ℕ → ℕ → ℕ → Result MathError ℕ
  e0_mul_e18_div_e18_to_e0_rdown a b c = p.mul_div a b c down

  unfoldable pub e0_mul_e18_div_e18_to_e0_rup : ℕ → ℕ → ℕ → Result MathError ℕ
  e0_mul_e18_div_e18_to_e0_rup a b c = p.mul_div a b c up

  unfoldable pub e0_mul_e6_to_e0_rup : ℕ → ℕ → Result MathError ℕ
  e0_mul_e6_to_e0_rup a b = p.mul_div a b e6 up

  unfoldable pub e8_mul_e6_to_e6_rdown : ℕ → ℕ → Result MathError ℕ
  e8_mul_e6_to_e6_rdown a b = p.mul_div a b e8 down

  -- The value of an amount in e8, at a price in e18.
  unfoldable pub calculate_asset_amount_value_e8 : {E : Type 0} → ℕ → ℕ → ℕ → Result E ℕ
  calculate_asset_amount_value_e8 amount price_e18 decimal_multiplier = do
    denominator ← unwrap (checked_mul u128_mod decimal_multiplier e10)
    unwrap_result (p.mul_div amount price_e18 denominator down)

-- The collateral that a repayment buys: the products are taken in `U256`, and their overflow or a
-- zero divisor is a panic.
unfoldable pub calculate_amount_to_take :
    (amount_to_repay repay_price_e18 take_price_e18 repay_decimals take_decimals : ℕ)
    (penalty_to_repay_e6 penalty_to_take_e6 : ℕ)
    → Result MathError ℕ
calculate_amount_to_take a b x y c l m = do
  ab ← unwrap (checked_mul u256_mod a b)
  abc ← unwrap (checked_mul u256_mod ab c)
  lm ← unwrap (checked_add u256_mod l m)
  share ← unwrap (checked_add u256_mod lm e6)
  numerator ← unwrap (checked_mul u256_mod abc share)
  xy ← unwrap (checked_mul u256_mod x y)
  denominator ← unwrap (checked_mul u256_mod xy e6)
  quotient ← unwrap (checked_div numerator denominator)
  ok_or (try_from u128_mod quotient) overflow
