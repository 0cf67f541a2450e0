-- ===== src/Base/Bits.antt =====
-- The bitmaps of `AccountConfig`: `|= 1 << i`, `&= !(1 << i)` and `(x >> i) & 1`.
mod Step
use Step.{bit_or_step, bit_and_step}
use Prim.Native.Nat.{
  ℕ, zero, suc, ◌+◌, ◌-◌, ◌*◌, ◌/◌, ◌%◌, ◌^◌, ◌≤◌, ◌<◌, min, max, bit_and, bit_or,
}
use mathlib.Core.Path.{◌≡◌, refl, ap, ◌∙◌, sym}
use mathlib.Core.Logic.{◌≢◌}
use native.Mathlib.Nat.{pow-suc, one-le-pow, div-div-eq-div-mul, two-pow-succ}
use native.Mathlib.Omega.{arith}

-- `x | (1 << i)`
unfoldable pub set_bit : ℕ → ℕ → ℕ
set_bit x i = bit_or x (2 ^ i)

-- `x & !(1 << i)` at a width of `w` bits.
unfoldable pub clear_bit_at : ℕ → ℕ → ℕ → ℕ
clear_bit_at w x i = bit_and x (2 ^ w - 1 - 2 ^ i)

unfoldable pub clear_bit : ℕ → ℕ → ℕ
unfolding clear_bit_at
clear_bit x i = clear_bit_at 128 x i

-- `(x >> i) & 1`
unfoldable pub bit_at : ℕ → ℕ → ℕ
bit_at x i = bit_and (x / 2 ^ i) 1

bit_or-zero_below : (n a : ℕ) → a ≤ n → bit_or a 0 ≡ a
bit_or-zero_below n zero h = omega (arith, bit_or_step 0 0)
bit_or-zero_below zero (suc a) h = absurd (omega arith)
bit_or-zero_below (suc n) (suc a) h =
    omega (arith, bit_or_step (suc a) 0, bit_or-zero_below n (suc a / 2) (omega arith))

bit_and-zero_below : (n a : ℕ) → a ≤ n → bit_and a 0 ≡ 0
bit_and-zero_below n zero h = omega (arith, bit_and_step 0 0)
bit_and-zero_below zero (suc a) h = absurd (omega arith)
bit_and-zero_below (suc n) (suc a) h =
    omega (arith, bit_and_step (suc a) 0, bit_and-zero_below n (suc a / 2) (omega arith))

bit_at-zero : (x : ℕ) → bit_at x 0 ≡ x % 2
unfolding bit_at
bit_at-zero x = omega (arith, bit_and_step (x / 1) 1, bit_and-zero_below (x / 1 / 2) (x / 1 / 2))

bit_at-suc : (x i : ℕ) → bit_at x (suc i) ≡ bit_at (x / 2) i
unfolding bit_at
bit_at-suc x i =
    ap (λ (t : ℕ). bit_and t 1)
      (ap (λ (t : ℕ). x / t) (omega (arith, two-pow-succ i)) ∙ sym (div-div-eq-div-mul x 2 (2 ^ i)))

-- A bit is 0 or 1.
pub bit_at-lt : (x i : ℕ) → bit_at x i < 2
bit_at-lt x zero = omega (arith, bit_at-zero x)
bit_at-lt x (suc i) = omega (arith, bit_at-suc x i, bit_at-lt (x / 2) i)

set_bit_halves :
    (x i : ℕ) → (set_bit x (suc i) / 2 ≡ set_bit (x / 2) i) × (set_bit x (suc i) % 2 ≡ x % 2)
unfolding set_bit
set_bit_halves x i =
    let e : 2 ^ suc i ≡ 2 * 2 ^ i = omega (arith, two-pow-succ i) in
    let h : 2 ^ suc i / 2 ≡ 2 ^ i = omega arith in
    let m : 2 ^ suc i % 2 ≡ 0 = omega arith in let step = bit_or_step x (2 ^ suc i) in ground arith

set_bit_first : (x : ℕ) → (set_bit x 0 / 2 ≡ x / 2) × (set_bit x 0 % 2 ≡ 1)
unfolding set_bit
set_bit_first x = omega (arith, bit_or_step x 1, bit_or-zero_below (x / 2) (x / 2))

-- `set_bit` sets its bit, and no other.
pub bit_at-set_bit_self : (x i : ℕ) → bit_at (set_bit x i) i ≡ 1
bit_at-set_bit_self x zero = omega (arith, bit_at-zero (set_bit x 0), set_bit_first x)
bit_at-set_bit_self x (suc i) =
    bit_at-suc (set_bit x (suc i)) i
    ∙ ap (λ (t : ℕ). bit_at t i) (set_bit_halves x i).0
    ∙ bit_at-set_bit_self (x / 2) i

pub bit_at-set_bit_ne : (x i j : ℕ) → i ≢ j → bit_at (set_bit x i) j ≡ bit_at x j
bit_at-set_bit_ne x zero zero ne = absurd (ne refl)
bit_at-set_bit_ne x zero (suc j) ne =
    bit_at-suc (set_bit x 0) j
    ∙ ap (λ (t : ℕ). bit_at t j) (set_bit_first x).0
    ∙ sym (bit_at-suc x j)
bit_at-set_bit_ne x (suc i) zero ne =
    omega (arith, bit_at-zero (set_bit x (suc i)), bit_at-zero x, set_bit_halves x i)
bit_at-set_bit_ne x (suc i) (suc j) ne =
    bit_at-suc (set_bit x (suc i)) j
    ∙ ap (λ (t : ℕ). bit_at t j) (set_bit_halves x i).0
    ∙ bit_at-set_bit_ne (x / 2) i j (λ e. ne (ap suc e))
    ∙ sym (bit_at-suc x j)

pow-lt : (i w : ℕ) → i < w → 2 ^ i + 1 ≤ 2 ^ w
pow-lt i zero h = absurd (omega arith)
pow-lt zero (suc w) h = omega (arith, two-pow-succ w, one-le-pow w 2)
pow-lt (suc i) (suc w) h = omega (arith, two-pow-succ i, two-pow-succ w, pow-lt i w)

clear_bit_at_halves :
    (w x i : ℕ)
    → i < w
    → (clear_bit_at (suc w) x (suc i) / 2 ≡ clear_bit_at w (x / 2) i)
      × (clear_bit_at (suc w) x (suc i) % 2 ≡ x % 2)
unfolding clear_bit_at
clear_bit_at_halves w x i lt =
    let mask = 2 ^ suc w - 1 - 2 ^ suc i in
    let h : mask / 2 ≡ 2 ^ w - 1 - 2 ^ i =
      omega (arith, two-pow-succ w, two-pow-succ i, pow-lt i w lt) in
    let m : mask % 2 ≡ 1 = omega (arith, two-pow-succ w, two-pow-succ i, pow-lt i w lt) in
    let step = bit_and_step x mask in ground arith

clear_bit_at_first :
    (w x : ℕ)
    → (clear_bit_at (suc w) x 0 / 2 ≡ bit_and (x / 2) (2 ^ w - 1))
      × (clear_bit_at (suc w) x 0 % 2 ≡ 0)
unfolding clear_bit_at
clear_bit_at_first w x =
    let mask = 2 ^ suc w - 1 - 2 ^ 0 in
    let h : mask / 2 ≡ 2 ^ w - 1 = omega (arith, two-pow-succ w, one-le-pow w 2) in
    let m : mask % 2 ≡ 0 = omega (arith, two-pow-succ w, one-le-pow w 2) in
    let step = bit_and_step x mask in ground arith

-- A mask of `w` ones keeps the bits below `w`.
ones_halves :
    (w x : ℕ)
    → (bit_and x (2 ^ suc w - 1) / 2 ≡ bit_and (x / 2) (2 ^ w - 1))
      × (bit_and x (2 ^ suc w - 1) % 2 ≡ x % 2)
ones_halves w x =
    let mask = 2 ^ suc w - 1 in
    let h : mask / 2 ≡ 2 ^ w - 1 = omega (arith, two-pow-succ w, one-le-pow w 2) in
    let m : mask % 2 ≡ 1 = omega (arith, two-pow-succ w, one-le-pow w 2) in
    let step = bit_and_step x mask in ground arith

bit_at-ones : (w x j : ℕ) → j < w → bit_at (bit_and x (2 ^ w - 1)) j ≡ bit_at x j
bit_at-ones zero x j h = absurd (omega arith)
bit_at-ones (suc w) x zero h =
    omega (arith, bit_at-zero (bit_and x (2 ^ suc w - 1)), bit_at-zero x, ones_halves w x)
bit_at-ones (suc w) x (suc j) h =
    bit_at-suc (bit_and x (2 ^ suc w - 1)) j
    ∙ ap (λ (t : ℕ). bit_at t j) (ones_halves w x).0
    ∙ bit_at-ones w (x / 2) j (omega arith)
    ∙ sym (bit_at-suc x j)

bit_at-clear_self_at : (w x i : ℕ) → i < w → bit_at (clear_bit_at w x i) i ≡ 0
bit_at-clear_self_at zero x i h = absurd (omega arith)
bit_at-clear_self_at (suc w) x zero h =
    omega (arith, bit_at-zero (clear_bit_at (suc w) x 0), clear_bit_at_first w x)
bit_at-clear_self_at (suc w) x (suc i) h =
    bit_at-suc (clear_bit_at (suc w) x (suc i)) i
    ∙ ap (λ (t : ℕ). bit_at t i) (clear_bit_at_halves w x i (omega arith)).0
    ∙ bit_at-clear_self_at w (x / 2) i (omega arith)

bit_at-clear_ne_at :
    (w x i j : ℕ) → i < w → j < w → i ≢ j → bit_at (clear_bit_at w x i) j ≡ bit_at x j
bit_at-clear_ne_at zero x i j h k ne = absurd (omega arith)
bit_at-clear_ne_at (suc w) x zero zero h k ne = absurd (ne refl)
bit_at-clear_ne_at (suc w) x zero (suc j) h k ne =
    bit_at-suc (clear_bit_at (suc w) x 0) j
    ∙ ap (λ (t : ℕ). bit_at t j) (clear_bit_at_first w x).0
    ∙ bit_at-ones w (x / 2) j (omega arith)
    ∙ sym (bit_at-suc x j)
bit_at-clear_ne_at (suc w) x (suc i) zero h k ne = omega (
  arith,
  bit_at-zero (clear_bit_at (suc w) x (suc i)),
  bit_at-zero x,
  clear_bit_at_halves w x i (omega arith),
)
bit_at-clear_ne_at (suc w) x (suc i) (suc j) h k ne =
    bit_at-suc (clear_bit_at (suc w) x (suc i)) j
    ∙ ap (λ (t : ℕ). bit_at t j) (clear_bit_at_halves w x i (omega arith)).0
    ∙ bit_at-clear_ne_at w (x / 2) i j (omega arith) (omega arith) (λ e. ne (ap suc e))
    ∙ sym (bit_at-suc x j)

-- `clear_bit` clears its bit, and no other.
pub bit_at-clear_bit_self : (x i : ℕ) → i < 128 → bit_at (clear_bit x i) i ≡ 0
unfolding clear_bit
bit_at-clear_bit_self x i h = bit_at-clear_self_at 128 x i h

pub bit_at-clear_bit_ne :
    (x i j : ℕ) → i < 128 → j < 128 → i ≢ j → bit_at (clear_bit x i) j ≡ bit_at x j
unfolding clear_bit
bit_at-clear_bit_ne x i j h k ne = bit_at-clear_ne_at 128 x i j h k ne
