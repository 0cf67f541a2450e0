-- ===== src/Messages/Roles.antt =====
-- The roles of src/contract_modules/lending_pool/constants.rs, which pendzl's access control keeps.
use abacus_protocol.Base.{Bool, not, Result, refuse_if}
use abacus_protocol.Errors.{LendingPoolError, access_control_error, missing_role}
use abacus_protocol.Pool.Storage.{AccountId}

pub data Role : Type 0 where
  asset_listing_admin parameters_admin stablecoin_rate_admin emergency_admin treasury : Role

-- What the access control answers during one message.
pub record AccessControl : Type 0 where
  pub has_role : Role → AccountId → Bool

module _ ⦃a : AccessControl⦄ where
  -- `_ensure_has_role`
  unfoldable pub ensure_has_role : Role → AccountId → Result LendingPoolError (Unit {0})
  ensure_has_role role account =
      refuse_if (not (a.has_role role account)) (access_control_error missing_role)
