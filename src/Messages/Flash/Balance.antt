-- ===== src/Messages/Flash/Balance.antt =====
-- What a flash loan pays out and takes back, and what its fees are.
use mathlib.Core.Path.{subst}
use native.Mathlib.Nat.{mul-le-mul_right}
use abacus_protocol.Base.{
  ℕ, ◌+◌, ◌*◌, ◌≡◌, ◌≤◌, ◌<◌, ◌^◌, List, [], ◌∷◌, some, ok, arith, Ensures, ◌==◌, length,
  Result-cases, inl, inr, if◌then◌else◌,
}
use abacus_protocol.Library.MulDiv.{Pendzl, IsMulDiv, up, up_bounds}
use abacus_protocol.Library.Math.{e6}
use abacus_protocol.Pool.Storage.{AccountId, LendingPoolStorage, Oracles}
use abacus_protocol.Messages.Session.{Env, Call, Session, Tokens}
use abacus_protocol.Messages.Payments.{paid_to, taken_from, transfer_out-paid, transfer_in-taken}
use abacus_protocol.Messages.Flash.{
  Receivers, flash_fee, flash_fee_part_e6, lend, collect, open_flash_loan, flash_loan,
}

-- The sum of the amounts that stand at the places of an asset.
abbrev pub sum_of : AccountId → List AccountId → List ℕ → ℕ
sum_of asset [] amounts = 0
sum_of asset (a ∷ assets) [] = 0
sum_of asset (a ∷ assets) (n ∷ amounts) =
    (if a == asset then n else 0) + sum_of asset assets amounts

-- A fee for each amount: that part of it in millionths of millionths, rounded up twice.
abbrev pub AreFees : ℕ → ℕ → List ℕ → List ℕ → Type 0
AreFees fee part [] [] = Unit
AreFees fee part (n ∷ amounts) (f ∷ fees) =
    (n * fee * part ≤ f * 10 ^ 12)
    × (f * 10 ^ 12 < n * fee * part + 2 * 10 ^ 12)
    × AreFees fee part amounts fees
AreFees fee part amounts fees = ⊥

module _ ⦃t : Tokens⦄ (asset receiver : AccountId) where
  lend-paid :
      ⦃p : Pendzl⦄ (s : LendingPoolStorage) (fee part : ℕ) (assets : List AccountId)
      (amounts : List ℕ) (calls : List Call)
      → Ensures
          (λ (fees, calls').
            paid_to asset receiver calls'
            ≡ paid_to asset receiver calls + sum_of asset assets amounts)
          (lend s receiver fee part assets amounts calls)
  unfolding lend
  lend-paid s fee part [] amounts calls = omega arith
  lend-paid s fee part (a ∷ assets) [] calls = tt
  lend-paid s fee part (a ∷ assets) (n ∷ amounts) calls = grind (
    arith,
    transfer_out-paid asset receiver s a n calls,
    λ (calls' : List Call). lend-paid s fee part assets amounts calls',
  )

  collect-taken :
      (env : Env) (assets : List AccountId) (amounts fees : List ℕ) (g : Session)
      → Ensures
          (λ g'.
            taken_from asset receiver g'.calls
            ≡ taken_from asset receiver g.calls
              + (sum_of asset assets amounts + sum_of asset assets fees))
          (collect env receiver assets amounts fees g)
  unfolding collect
  collect-taken env [] amounts fees g = omega arith
  collect-taken env (a ∷ assets) [] fees g = tt
  collect-taken env (a ∷ assets) (n ∷ amounts) [] g = tt
  collect-taken env (a ∷ assets) (n ∷ amounts) (f ∷ fees) g = grind (
    arith,
    transfer_in-taken asset receiver env g.storage a (n + f) g.calls,
    λ (g' : Session). collect-taken env assets amounts fees g',
  )

fee_bounds :
    (x pre part f : ℕ)
    → part ≤ e6
    → x ≤ pre * e6
    → pre * e6 < x + e6
    → pre * part ≤ f * e6
    → f * e6 < pre * part + e6
    → (x * part ≤ f * 10 ^ 12) × (f * 10 ^ 12 < x * part + 2 * 10 ^ 12)
fee_bounds x pre part f small low high low' high' =
    let lower = mul-le-mul_right part low in
    let upper = mul-le-mul_right part (let m : pre * e6 ≤ x + e6 = omega arith in m) in
    (omega arith, omega arith)

flash_fee_part-le :
    ⦃o : Oracles⦄ (s : LendingPoolStorage) (caller : AccountId) → flash_fee_part_e6 s caller ≤ e6
unfolding flash_fee_part_e6
flash_fee_part-le s caller = omega arith

module _ ⦃p : Pendzl⦄ (laws : IsMulDiv p) where
  flash_fee_lem :
      (fee part n : ℕ)
      → part ≤ e6
      → Ensures
          (λ f. (n * fee * part ≤ f * 10 ^ 12) × (f * 10 ^ 12 < n * fee * part + 2 * 10 ^ 12))
          (flash_fee fee part n)
  unfolding flash_fee
  flash_fee_lem fee part n small = elim (Result-cases (p.mul_div n fee e6 up)) [
    | inl (pre, e) ↦ rw e (elim (Result-cases (p.mul_div pre part e6 up)) [
      | inl (f, q) ↦
          let (pos, low, high, fits) = up_bounds laws n fee e6 e in
          let (pos', low', high', fits') = up_bounds laws pre part e6 q in
          rw q (fee_bounds (n * fee) pre part f small low high low' high')
      | inr (inl (f, q)) ↦ rw q tt
      | inr (inr q) ↦ rw q tt
    ])
    | inr (inl (f, e)) ↦ rw e tt
    | inr (inr e) ↦ rw e tt
  ]

  lend-AreFees :
      ⦃t : Tokens⦄ (s : LendingPoolStorage) (receiver : AccountId) (fee part : ℕ)
      (assets : List AccountId) (amounts : List ℕ) (calls : List Call)
      → part ≤ e6
      → length assets ≡ length amounts
      → Ensures
          (λ (fees, calls'). AreFees fee part amounts fees)
          (lend s receiver fee part assets amounts calls)
  unfolding lend
  lend-AreFees s receiver fee part [] [] calls small same = tt
  lend-AreFees s receiver fee part [] (n ∷ amounts) calls small same = cc
  lend-AreFees s receiver fee part (a ∷ assets) [] calls small same = tt
  lend-AreFees s receiver fee part (a ∷ assets) (n ∷ amounts) calls small same = grind (
    arith,
    flash_fee_lem fee part n small,
    λ (calls' : List Call).
        lend-AreFees s receiver fee part assets amounts calls' small (omega arith),
  )

module _ ⦃p : Pendzl⦄ ⦃o : Oracles⦄ ⦃t : Tokens⦄ (laws : IsMulDiv p) (env : Env) (g : Session)
    (receiver asset : AccountId) (assets : List AccountId) (amounts : List ℕ) (fee : ℕ)
    (set_to : g.storage.flash_loan_fee_e6 ≡ some fee) where
  open_flash_loan_lem :
      Ensures
        (λ (lent, fees).
          AreFees fee (flash_fee_part_e6 g.storage env.caller) amounts fees
          × (paid_to asset receiver lent.calls
              ≡ paid_to asset receiver g.calls + sum_of asset assets amounts))
        (open_flash_loan env g receiver assets amounts)
  unfolding open_flash_loan
  open_flash_loan_lem =
      let part = flash_fee_part_e6 g.storage env.caller in
      grind (
        arith,
        set_to,
        lend-AreFees laws g.storage receiver fee part assets amounts g.calls
            (flash_fee_part-le g.storage env.caller),
        lend-paid asset receiver g.storage fee part assets amounts g.calls,
      )

  -- An accepted flash loan, where the pool charges a fee and the receiver leaves a session:
  -- before the receiver is called it is paid the amounts of each asset, after it each amount and
  -- its fee are taken back, and a fee is the caller's part of the fee rate, less than two units
  -- too much and never too little.
  pub flash_loan_lem :
      ⦃c : Receivers⦄ (lent left final : Session) (fees : List ℕ)
      → open_flash_loan env g receiver assets amounts ≡ ok (lent, fees)
      → c.execute_operation receiver lent assets amounts fees ≡ ok left
      → flash_loan env g receiver assets amounts ≡ ok final
      → AreFees fee (flash_fee_part_e6 g.storage env.caller) amounts fees
        × (paid_to asset receiver lent.calls
            ≡ paid_to asset receiver g.calls + sum_of asset assets amounts)
        × (taken_from asset receiver final.calls
            ≡ taken_from asset receiver left.calls
              + (sum_of asset assets amounts + sum_of asset assets fees))
  unfolding flash_loan
  flash_loan_lem ⦃c = c⦄ lent left final fees opened executed accepted =
      let (are, paid) = subst (Ensures _) opened open_flash_loan_lem in
      let collected : collect env receiver assets amounts fees left ≡ ok final =
        grind (arith, opened, executed, accepted) in
      (
        are,
        paid,
        subst (Ensures _) collected (collect-taken asset receiver env assets amounts fees left),
      )
