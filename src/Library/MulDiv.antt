-- ===== src/Library/MulDiv.antt =====
-- `pendzl::math::operations::mul_div`, which the repository takes from the pendzl crate. It is a
-- parameter of the model; what the crate documents of it is `IsMulDiv`.
use native.Mathlib.Nat.{div-mul-le_self, lt-div-mul-add, div-lt_iff_lt-mul}
use abacus_protocol.Base.{
  ℕ, zero, suc, ◌+◌, ◌-◌, ◌*◌, ◌/◌, ◌≤◌, ◌<◌, ◌≡◌, refl, arith, Result, ok, err, panic, ltb, ◌==◌,
  if◌then◌else◌, u128_mod, Ensures, Ensures-intro,
}
use abacus_protocol.Errors.{MathError, overflow, div_by_zero}

pub data Rounding : Type 0 where
  down up : Rounding

pub record Pendzl : Type 0 where
  pub mul_div : ℕ → ℕ → ℕ → Rounding → Result MathError ℕ

-- a * b / c in u128, computed without loss in between, and rounded as asked.
pub record IsMulDiv (p : Pendzl) : Type 0 where
  pub by_zero : (a b : ℕ) (r : Rounding) → p.mul_div a b 0 r ≡ err div_by_zero
  pub rounds_down :
      (a b c : ℕ)
      → 0 < c
      → p.mul_div a b c down ≡ (if ltb (a * b / c) u128_mod then ok (a * b / c) else err overflow)
  pub rounds_up :
      (a b c : ℕ)
      → 0 < c
      → p.mul_div a b c up ≡ (
          if ltb ((a * b + (c - 1)) / c) u128_mod then ok ((a * b + (c - 1)) / c) else err overflow)

-- A concrete function that satisfies them.
abbrev pub exact_mul_div : ℕ → ℕ → ℕ → Rounding → Result MathError ℕ
exact_mul_div a b c down =
    if c == 0
    then err div_by_zero
    else if ltb (a * b / c) u128_mod
    then ok (a * b / c)
    else err overflow
exact_mul_div a b c up =
    if c == 0
    then err div_by_zero
    else if ltb ((a * b + (c - 1)) / c) u128_mod
    then ok ((a * b + (c - 1)) / c)
    else err overflow

abbrev pub exact : Pendzl
exact = record { mul_div = exact_mul_div }

by_zero_exact : (a b : ℕ) (r : Rounding) → exact_mul_div a b 0 r ≡ err div_by_zero
by_zero_exact a b down = refl
by_zero_exact a b up = refl

pub exact-IsMulDiv : IsMulDiv exact
exact-IsMulDiv = record {
  by_zero = by_zero_exact;
  rounds_down = λ a b c h. ground arith;
  rounds_up = λ a b c h. ground arith;
}

-- What a result says of the product.
module _ {p : Pendzl} (laws : IsMulDiv p) where
  pub down_bounds :
      (a b c : ℕ) {q : ℕ}
      → p.mul_div a b c down ≡ ok q
      → (0 < c) × (q * c ≤ a * b) × (a * b < q * c + c) × (q < u128_mod)
  down_bounds a b zero h = absurd (cc (laws.by_zero a b down))
  down_bounds a b (suc c) {q} h =
      let law = laws.rounds_down a b (suc c) (omega arith) in
      let e : (q ≡ a * b / suc c) × (q < u128_mod) = ground arith in
      rw e.0 (
        omega arith,
        div-mul-le_self (a * b) (suc c),
        lt-div-mul-add (omega arith),
        rw e.0 at (e.1),
      )

  pub up_bounds :
      (a b c : ℕ) {q : ℕ}
      → p.mul_div a b c up ≡ ok q
      → (0 < c) × (a * b ≤ q * c) × (q * c < a * b + c) × (q < u128_mod)
  up_bounds a b zero h = absurd (cc (laws.by_zero a b up))
  up_bounds a b (suc c) {q} h =
      let law = laws.rounds_up a b (suc c) (omega arith) in
      let e : (q ≡ (a * b + (suc c - 1)) / suc c) × (q < u128_mod) = ground arith in
      let lower = div-mul-le_self (a * b + (suc c - 1)) (suc c) in
      let upper : a * b + (suc c - 1) < (a * b + (suc c - 1)) / suc c * suc c + suc c =
        lt-div-mul-add (omega arith) in
      let bound = rw e.0 at (e.1) in rw e.0 (omega arith, omega arith, omega arith, bound)

  pub down_lem :
      (a b c : ℕ)
      → Ensures
          (λ q. (0 < c) × (q * c ≤ a * b) × (a * b < q * c + c) × (q < u128_mod))
          (p.mul_div a b c down)
  down_lem a b c = Ensures-intro (p.mul_div a b c down) (λ q h. down_bounds a b c h)

  pub up_lem :
      (a b c : ℕ)
      → Ensures
          (λ q. (0 < c) × (a * b ≤ q * c) × (q * c < a * b + c) × (q < u128_mod))
          (p.mul_div a b c up)
  up_lem a b c = Ensures-intro (p.mul_div a b c up) (λ q h. up_bounds a b c h)

  -- A quotient that some number of u128 bounds is computed, and is below that number.
  pub up_total :
      (a b c k : ℕ)
      → 0 < c
      → a * b ≤ k * c
      → k < u128_mod
      → (q : ℕ) × (p.mul_div a b c up ≡ ok q) × (q ≤ k)
  up_total a b c k pos le fits =
      let q = (a * b + (c - 1)) / c in
      let lt : q < k + 1 = (div-lt_iff_lt-mul pos).1 (omega arith) in
      (q, ground (arith, laws.rounds_up a b c pos), omega arith)

  pub down_total :
      (a b c k : ℕ)
      → 0 < c
      → a * b < k * c + c
      → k < u128_mod
      → (q : ℕ) × (p.mul_div a b c down ≡ ok q) × (q ≤ k)
  down_total a b c k pos le fits =
      let q = a * b / c in
      let lt : q < k + 1 = (div-lt_iff_lt-mul pos).1 (omega arith) in
      (q, ground (arith, laws.rounds_down a b c pos), omega arith)

-- A result that is no panic, and no error but an overflow.
abbrev pub OnlyOverflows {ℓ} : {A : Type ℓ} → Result MathError A → Type 0
OnlyOverflows (ok a) = Unit
OnlyOverflows (err overflow) = Unit
OnlyOverflows (err e) = ⊥
OnlyOverflows panic = ⊥

pub mul_div-OnlyOverflows :
    {p : Pendzl}
    → IsMulDiv p
    → (a b c : ℕ) (r : Rounding) → 0 < c
    → OnlyOverflows (p.mul_div a b c r)
mul_div-OnlyOverflows laws a b c down h = ground (arith, laws.rounds_down a b c h)
mul_div-OnlyOverflows laws a b c up h = ground (arith, laws.rounds_up a b c h)
