-- ===== src/Contract/Access.antt =====
-- Who may send the messages of the management.
use abacus_protocol.Base.{false, ◌≡◌, refl, err}
use abacus_protocol.Errors.{access_control_error, missing_role}
use abacus_protocol.Library.MulDiv.{Pendzl}
use abacus_protocol.Messages.Roles.{
  Role, asset_listing_admin, parameters_admin, stablecoin_rate_admin, emergency_admin, treasury,
  ensure_has_role,
}
use abacus_protocol.Messages.Manage.{
  set_price_feed_provider, set_fee_reduction_provider, set_flash_loan_fee_e6, set_reserve_is_active,
  set_reserve_is_frozen, set_reserve_restrictions, set_interest_rate_model, set_reserve_fees,
  set_stablecoin_debt_rate_e18, add_market_rule, modify_asset_rule, take_protocol_income,
}
use abacus_protocol.Messages.Manage.Register.{register_asset}
use abacus_protocol.Contract.Message.{LendingPool, ManageMessage, Surroundings}
use abacus_protocol.Contract.Dispatch.{manage, execute_manage}

-- The role that a message is for.
abbrev pub role_for : ManageMessage → Role
role_for (ManageMessage.register_asset asset l) = asset_listing_admin
role_for (ManageMessage.set_reserve_is_active asset active) = emergency_admin
role_for (ManageMessage.set_reserve_is_frozen asset freeze) = emergency_admin
role_for (ManageMessage.set_stablecoin_debt_rate_e18 asset rate) = stablecoin_rate_admin
role_for (ManageMessage.take_protocol_income assets to) = treasury
role_for m = parameters_admin

-- A message of the management whose caller does not have the role for it ends in the error for a
-- missing role, whatever the state and the arguments. The role is ASSET_LISTING_ADMIN for a
-- registration, EMERGENCY_ADMIN for activity and freezing, STABLECOIN_RATE_ADMIN for the
-- stablecoin debt rate, TREASURY for the income, and PARAMETERS_ADMIN for all others, market
-- rules among them.
pub execute_manage-missing_role :
    ⦃p : Pendzl⦄ (w : Surroundings) (c : LendingPool) (m : ManageMessage)
    → w.access_control.has_role (role_for m) w.env.caller ≡ false
    → execute_manage w c m ≡ err (access_control_error missing_role)
unfolding execute_manage manage set_price_feed_provider set_fee_reduction_provider
    set_flash_loan_fee_e6 set_reserve_is_active set_reserve_is_frozen set_reserve_restrictions
    set_interest_rate_model set_reserve_fees set_stablecoin_debt_rate_e18 add_market_rule
    modify_asset_rule take_protocol_income register_asset ensure_has_role
execute_manage-missing_role w c (ManageMessage.set_price_feed_provider provider) h = rw h refl
execute_manage-missing_role w c (ManageMessage.set_fee_reduction_provider provider) h = rw h refl
execute_manage-missing_role w c (ManageMessage.set_flash_loan_fee_e6 fee) h = rw h refl
execute_manage-missing_role w c (ManageMessage.register_asset asset l) h = rw h refl
execute_manage-missing_role w c (ManageMessage.set_reserve_is_active asset active) h = rw h refl
execute_manage-missing_role w c (ManageMessage.set_reserve_is_frozen asset freeze) h = rw h refl
execute_manage-missing_role w c (ManageMessage.set_reserve_restrictions asset restrictions) h =
    rw h refl
execute_manage-missing_role w c (ManageMessage.set_interest_rate_model asset params) h = rw h refl
execute_manage-missing_role w c (ManageMessage.set_reserve_fees asset fees) h = rw h refl
execute_manage-missing_role w c (ManageMessage.set_stablecoin_debt_rate_e18 asset rate) h =
    rw h refl
execute_manage-missing_role w c (ManageMessage.add_market_rule rule) h = rw h refl
execute_manage-missing_role w c (ManageMessage.modify_asset_rule rule_id asset rules) h = rw h refl
execute_manage-missing_role w c (ManageMessage.take_protocol_income assets to) h = rw h refl
