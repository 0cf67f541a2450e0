-- ===== src/Library/Account/Flags.antt =====
-- The bitmaps of an account: a deposit or a debt above 0 has its bit set, so that the check of the
-- collateralization visits it.
use abacus_protocol.Base.{ℕ, ◌<◌, ◌≡◌, ◌≢◌, arith, Ensures}
use abacus_protocol.Base.Bits.{bit_at, bit_at-set_bit_self, bit_at-set_bit_ne, bit_at-clear_bit_ne}
use abacus_protocol.Library.Reserve.{ReserveData}
use abacus_protocol.Library.Restrictions.{AccountReserveData, ReserveRestrictions}
use abacus_protocol.Library.Account.{
  AccountConfig, increase_account_deposit, decrease_account_deposit, increase_account_debt,
  decrease_account_debt,
}

-- The bits of one asset cover the account's deposit and debt in it.
pub record Flagged (id : ℕ) (c : AccountConfig) (a : AccountReserveData) : Type 0 where
  pub deposit_flag : a.deposit ≢ 0 → bit_at c.deposits id ≡ 1
  pub debt_flag : a.debt ≢ 0 → bit_at c.borrows id ≡ 1

-- The bits of another asset are as before; collaterals are at most turned off.
abbrev pub SameElsewhere : ℕ → AccountConfig → AccountConfig → Type 0
SameElsewhere j c c' =
    (bit_at c'.deposits j ≡ bit_at c.deposits j)
    × (bit_at c'.borrows j ≡ bit_at c.borrows j)
    × (bit_at c'.collaterals j ≡ bit_at c.collaterals j)
    × (c'.market_rule_id ≡ c.market_rule_id)

module _ (a : AccountReserveData) (id : ℕ) (c : AccountConfig) (r : ReserveData) (amount : ℕ) where
  -- Each operation keeps the flags of its asset over the account's new data.
  pub increase_account_deposit-Flagged :
      Flagged id c a
      → Ensures (λ (a', c', r'). Flagged id c' a') (increase_account_deposit a id c r amount)
  unfolding increase_account_deposit
  increase_account_deposit-Flagged f = ground (arith, bit_at-set_bit_self c.deposits id)

  pub decrease_account_deposit-Flagged :
      (s : ReserveRestrictions)
      → Flagged id c a
      → Ensures (λ (a', c', r'). Flagged id c' a') (decrease_account_deposit a id c r s amount)
  unfolding decrease_account_deposit
  decrease_account_deposit-Flagged s f = ground arith

  pub increase_account_debt-Flagged :
      Flagged id c a
      → Ensures (λ (a', c', r'). Flagged id c' a') (increase_account_debt a id c r amount)
  unfolding increase_account_debt
  increase_account_debt-Flagged f = ground (arith, bit_at-set_bit_self c.borrows id)

  pub decrease_account_debt-Flagged :
      Flagged id c a
      → Ensures (λ (a', c', r'). Flagged id c' a') (decrease_account_debt a id c r amount)
  unfolding decrease_account_debt
  decrease_account_debt-Flagged f = ground arith

  -- If the bits of an asset cover the account's deposit and debt in it, they still do after each
  -- of the four account operations, where it succeeds.
  pub operations-Flagged :
      (s : ReserveRestrictions)
      → Flagged id c a
      → Ensures (λ (a', c', r'). Flagged id c' a') (increase_account_deposit a id c r amount)
        × Ensures (λ (a', c', r'). Flagged id c' a') (decrease_account_deposit a id c r s amount)
        × Ensures (λ (a', c', r'). Flagged id c' a') (increase_account_debt a id c r amount)
        × Ensures (λ (a', c', r'). Flagged id c' a') (decrease_account_debt a id c r amount)
  operations-Flagged s f = (
    increase_account_deposit-Flagged f,
    decrease_account_deposit-Flagged s f,
    increase_account_debt-Flagged f,
    decrease_account_debt-Flagged f,
  )

  module _ (j : ℕ) (ne : id ≢ j) (small : j < 128) where
    pub increase_account_deposit-SameElsewhere :
        Ensures (λ (a', c', r'). SameElsewhere j c c') (increase_account_deposit a id c r amount)
    unfolding increase_account_deposit
    increase_account_deposit-SameElsewhere = ground (arith, bit_at-set_bit_ne c.deposits id j)

    pub decrease_account_deposit-SameElsewhere :
        (s : ReserveRestrictions)
        → Ensures
            (λ (a', c', r'). SameElsewhere j c c')
            (decrease_account_deposit a id c r s amount)
    unfolding decrease_account_deposit
    decrease_account_deposit-SameElsewhere s =
        ground (arith, bit_at-clear_bit_ne c.deposits id j, bit_at-clear_bit_ne c.collaterals id j)

    pub increase_account_debt-SameElsewhere :
        Ensures (λ (a', c', r'). SameElsewhere j c c') (increase_account_debt a id c r amount)
    unfolding increase_account_debt
    increase_account_debt-SameElsewhere = ground (arith, bit_at-set_bit_ne c.borrows id j)

    pub decrease_account_debt-SameElsewhere :
        Ensures (λ (a', c', r'). SameElsewhere j c c') (decrease_account_debt a id c r amount)
    unfolding decrease_account_debt
    decrease_account_debt-SameElsewhere = ground (arith, bit_at-clear_bit_ne c.borrows id j)

    -- None of the four account operations, where it succeeds, changes a bit of another asset
    -- below 128 or the market rule.
    pub operations-SameElsewhere :
        (s : ReserveRestrictions)
        → Ensures (λ (a', c', r'). SameElsewhere j c c') (increase_account_deposit a id c r amount)
          × Ensures
              (λ (a', c', r'). SameElsewhere j c c')
              (decrease_account_deposit a id c r s amount)
          × Ensures (λ (a', c', r'). SameElsewhere j c c') (increase_account_debt a id c r amount)
          × Ensures (λ (a', c', r'). SameElsewhere j c c') (decrease_account_debt a id c r amount)
    operations-SameElsewhere s = (
      increase_account_deposit-SameElsewhere,
      decrease_account_deposit-SameElsewhere s,
      increase_account_debt-SameElsewhere,
      decrease_account_debt-SameElsewhere,
    )
