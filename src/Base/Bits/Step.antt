-- ===== src/Base/Bits/Step.antt =====
-- The native `bit_or` and `bit_and`, each by one equation for the lowest digit.
use Prim.Native.Nat.{ℕ, zero, suc, ◌+◌, ◌-◌, ◌*◌, ◌/◌, ◌%◌, ◌≤◌, min, max, bit_and, bit_or}
use Prim.Native.Nat.{digits, bitwise, bit_and-bitwise, bit_or-bitwise}
use mathlib.Core.Path.{◌≡◌, refl, ◌∙◌}
use native.Mathlib.Nat.{le_refl}
use native.Mathlib.Omega.{arith}

-- `digits` recurs on fuel: one more round changes nothing once there is enough.
module _ (z : ℕ → ℕ) (f : ℕ → ℕ → ℕ) where
  digits-suc : (n a b : ℕ) → a ≤ n → digits z f (suc n) a b ≡ digits z f n a b
  digits-suc zero zero b p = refl
  digits-suc zero (suc a) b p = absurd (omega arith)
  digits-suc (suc n) zero b p = refl
  digits-suc (suc n) (suc a) b p = rw (digits-suc n (suc a / 2) (b / 2) (omega arith))

  -- `k` more rounds.
  abbrev pad : ℕ → ℕ → ℕ
  pad zero n = n
  pad (suc k) n = suc (pad k n)

  pad-eq-add : (k n : ℕ) → pad k n ≡ k + n
  pad-eq-add zero n = omega arith
  pad-eq-add (suc k) n = omega (arith, pad-eq-add k n)

  digits-pad : (k n a b : ℕ) → a ≤ n → digits z f (pad k n) a b ≡ digits z f n a b
  digits-pad zero n a b p = refl
  digits-pad (suc k) n a b p =
      digits-suc (pad k n) a b (omega (arith, pad-eq-add k n)) ∙ digits-pad k n a b p

  bitwise_step :
      (a b : ℕ)
      → bitwise z f (suc a) b ≡ f (suc a % 2) (b % 2) + 2 * bitwise z f (suc a / 2) (b / 2)
  bitwise_step a b =
      let half = suc a / 2 in
      let enough : pad (a - half) half ≡ a = omega (arith, pad-eq-add (a - half) half) in
      let same : digits z f a half (b / 2) ≡ digits z f half half (b / 2) =
        rw enough at (digits-pad (a - half) half half (b / 2) (le_refl _)) in
      omega (arith, same)

pub bit_or_step : (a b : ℕ) → bit_or a b ≡ max (a % 2) (b % 2) + 2 * bit_or (a / 2) (b / 2)
bit_or_step zero b = simp bit_or-bitwise (omega arith)
bit_or_step (suc a) b = simp bit_or-bitwise (bitwise_step (λ y. y) max a b)

pub bit_and_step : (a b : ℕ) → bit_and a b ≡ min (a % 2) (b % 2) + 2 * bit_and (a / 2) (b / 2)
bit_and_step zero b = simp bit_and-bitwise (omega arith)
bit_and_step (suc a) b = simp bit_and-bitwise (bitwise_step (λ y. 0) min a b)
