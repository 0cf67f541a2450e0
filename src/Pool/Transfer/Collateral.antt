-- ===== src/Pool/Transfer/Collateral.antt =====
-- What `account_for_set_as_collateral` does to the bitmap of collaterals.
use abacus_protocol.Base.{
  ℕ, ◌≤◌, ◌≡◌, Bool, true, false, some, none, arith, Ensures, if◌then◌else◌, ==-refl,
}
use abacus_protocol.Base.Bits.{bit_at, bit_at-set_bit_self, bit_at-clear_bit_self}
use abacus_protocol.Library.Restrictions.{ensure_collateral_exceeds_minimum}
use abacus_protocol.Pool.Storage.{
  AccountId, LendingPoolStorage, asset_id, get_account_config, get_account_reserve_data,
  get_market_rule, get_reserve_restrictions,
}
use abacus_protocol.Pool.Transfer.{account_for_set_as_collateral}

-- The least deposit that may serve as a collateral, 0 where none is set.
abbrev pub minimal_collateral_in : LendingPoolStorage → ℕ → ℕ
minimal_collateral_in s id = elim (s.reserve_restrictions id) [
  | none ↦ 0
  | some r ↦ r.minimal_collateral
]

-- For a registered asset, an accepted choice of collateral leaves the bit of the asset as asked;
-- where it is turned on the deposit is not below the minimal collateral; nothing but stored
-- configurations changes.
pub account_for_set_as_collateral_lem :
    (s : LendingPoolStorage) (account asset : AccountId) (id : ℕ) (to_set : Bool)
    → s.asset_to_id asset ≡ some id
    → Ensures
        (λ s'.
          (bit_at (get_account_config s' account).collaterals id ≡ (if to_set then 1 else 0))
          × ((if to_set then minimal_collateral_in s id else 0)
              ≤ (get_account_reserve_data s id account).0.deposit)
          × (s' ≡ record s { account_configs = s'.account_configs }))
        (account_for_set_as_collateral s account asset to_set)
unfolding account_for_set_as_collateral asset_id get_account_config get_market_rule
    get_reserve_restrictions ensure_collateral_exceeds_minimum
account_for_set_as_collateral_lem s account asset id true known =
    grind
      (arith, ==-refl account, bit_at-set_bit_self (get_account_config s account).collaterals id)
account_for_set_as_collateral_lem s account asset id false known =
    grind
      (arith, ==-refl account, bit_at-clear_bit_self (get_account_config s account).collaterals id)
