-- ===== src/Pool/Power/Loop.antt =====
-- The loop of `calculate_lending_power_e6` against the sum it stands for.
use Prim.Native.Nat.{bit_and, bit_or}
use native.Mathlib.Nat.{one-le-pow, two-pow-succ}
use abacus_protocol.Base.{
  sym, ℕ, zero, suc, ◌+◌, ◌^◌, ◌/◌, ◌*◌, ◌≤◌, ◌<◌, ◌≡◌, refl, List, none, some, arith, inl, inr,
  true, false, if◌then◌else◌, ◌==◌, Bool-cases, Result, Result-cases, ok, unwrap, ◌>>=◌, get_elem?,
}
use abacus_protocol.Base.Bits.{bit_at}
use abacus_protocol.Errors.{LendingPoolError}
use abacus_protocol.Library.MulDiv.{Pendzl}
use abacus_protocol.Library.Account.{FeeReductions}
use abacus_protocol.Pool.Storage.{AccountDatas, LendingPoolStorage, MarketRule}
use abacus_protocol.Pool.Power.{add_asset, power_step, power_from}

module _ ⦃p : Pendzl⦄ (s : LendingPoolStorage) (datas : AccountDatas) (reductions : FeeReductions)
    (prices : List ℕ) (rule : MarketRule) (collaterals debts : ℕ) where
  -- The totals with those of an asset, if the account uses it and holds data of it.
  unfoldable plain_step : ℕ → ℕ × ℕ → Result LendingPoolError (ℕ × ℕ)
  plain_step id totals = if bit_at (bit_or collaterals debts) id == 0 then ok totals else (do
    entry ← unwrap (get_elem? datas id)
    elim entry [
      | none ↦ ok totals
      | some a ↦ add_asset s datas reductions prices rule collaterals debts id a totals
    ])

  -- The sum over a number of assets from one on: each of them is looked at.
  unfoldable pub power_of_all : ℕ → ℕ → ℕ × ℕ → Result LendingPoolError (ℕ × ℕ)
  unfolding plain_step
  power_of_all zero id totals = ok totals
  power_of_all (suc n) id totals = do
    totals' ← plain_step id totals
    power_of_all n (id + 1) totals'

  none_left : (x id : ℕ) → x / 2 ^ id ≡ 0 → (bit_at x id ≡ 0) × (x / 2 ^ (id + 1) ≡ 0)
  unfolding bit_at
  none_left x id h =
      let positive : 1 ≤ 2 ^ id = one-le-pow id 2 (omega arith) in
      let here : bit_and (x / 2 ^ id) 1 ≡ 0 = rw h refl in
      let below : x < 2 ^ id = grind arith in
      let doubled : 2 ^ suc id ≡ 2 * 2 ^ id = omega (arith, two-pow-succ id) in (here, grind arith)

  power_of_none :
      (n id : ℕ) (totals : ℕ × ℕ)
      → bit_or collaterals debts / 2 ^ id ≡ 0
      → power_of_all n id totals ≡ ok totals
  unfolding power_of_all plain_step
  power_of_none zero id totals h = refl
  power_of_none (suc n) id totals h =
      let (here, later) = none_left (bit_or collaterals debts) id h in
      rw here (power_of_none n (id + 1) totals later)

  power_step_lem :
      (id : ℕ) (totals : ℕ × ℕ)
      → id < 128
      → power_step s datas reductions prices rule collaterals debts id totals ≡ (
          if bit_or collaterals debts / 2 ^ id == 0
          then ok (true, totals)
          else (plain_step id totals >>= λ t. ok (false, t)))
  unfolding power_step plain_step
  power_step_lem id totals h = elim (Bool-cases (bit_or collaterals debts / 2 ^ id == 0)) [
    | inl e ↦ ground arith
    | inr e ↦ elim (Bool-cases (bit_at (bit_or collaterals debts) id == 0)) [
      | inl unused ↦ ground arith
      | inr used ↦ elim (Result-cases {E = LendingPoolError} (unwrap (get_elem? datas id))) [
        | inl (none, q) ↦ ground arith
        | inl (some a, q) ↦ ground arith
        | inr (inl (f, q)) ↦ ground arith
        | inr (inr q) ↦ ground arith
      ]
    ]
  ]

  -- While the ids stay within 128, leaving the loop when no bit is left gives the same as looking
  -- at every asset.
  pub power_from-power_of_all :
      (n id : ℕ) (totals : ℕ × ℕ)
      → id + n ≤ 128
      → power_from s datas reductions prices rule collaterals debts n id totals
        ≡ power_of_all n id totals
  unfolding power_from power_of_all
  power_from-power_of_all zero id totals h = refl
  power_from-power_of_all (suc n) id totals h =
      let step = power_step_lem id totals (omega arith) in
      elim (Bool-cases (bit_or collaterals debts / 2 ^ id == 0)) [
        | inl e ↦ rw (step, e) (sym (power_of_none (suc n) id totals (ground arith)))
        | inr e ↦ elim (Result-cases (plain_step id totals)) [
          | inl (t, q) ↦ rw (step, e, q) (power_from-power_of_all n (id + 1) t (omega arith))
          | inr (inl (f, q)) ↦ rw (step, e, q) refl
          | inr (inr q) ↦ rw (step, e, q) refl
        ]
      ]
