-- ===== src/Contract/Handlers.antt =====
-- Each message, as the contract hands it on, keeps the registry of the assets.
use abacus_protocol.Base.{ℕ, Option, none, some, Result, ok, err, panic, Ensures}
use abacus_protocol.Errors.{LendingPoolError}
use abacus_protocol.Library.MulDiv.{Pendzl}
use abacus_protocol.Messages.Session.{Session}
use abacus_protocol.Messages.Accounts.{withdraw, repay}
use abacus_protocol.Messages.Liquidate.{liquidate}
use abacus_protocol.Messages.TokenInterface.{transfer_deposit_from_to, transfer_debt_from_to}
use abacus_protocol.Messages.Maintain.{adjust_rate_at_target_of}
use abacus_protocol.Messages.Manage.{take_protocol_income}
use abacus_protocol.Messages.Registry.{
  Registered, deposit-Registered, withdraw-Registered, borrow-Registered, repay-Registered,
  choose_market_rule-Registered, set_as_collateral-Registered, multi_op-Registered,
  liquidate-Registered, accumulate_interest-Registered, adjust_rate_at_target-Registered,
  transfer_deposit_from_to-Registered, transfer_debt_from_to-Registered, adjusted,
}
use abacus_protocol.Messages.Manage.Registry.{
  set_price_feed_provider-Registered, set_fee_reduction_provider-Registered,
  set_flash_loan_fee_e6-Registered, register_asset-Registered, set_reserve_is_active-Registered,
  set_reserve_is_frozen-Registered, set_reserve_restrictions-Registered,
  set_interest_rate_model-Registered, set_reserve_fees-Registered,
  set_stablecoin_debt_rate_e18-Registered, add_market_rule-Registered, modify_asset_rule-Registered,
  take_protocol_income-Registered,
}
use abacus_protocol.Contract.Message.{UserMessage, ManageMessage, Surroundings}
use abacus_protocol.Contract.Dispatch.{session_of, within_gas, handle, manage}

session_of-Registered {ℓ} :
    {A : Type ℓ} (r : Result LendingPoolError (Session × A))
    → Ensures (λ (g, value). Registered g) r
    → Ensures Registered (session_of r)
session_of-Registered (ok (g, value)) h = h
session_of-Registered (err e) h = tt
session_of-Registered panic h = tt

within_gas-Registered :
    (g : Session) (r : Result LendingPoolError (Option (Session × ℕ)))
    → Ensures (λ x. Registered (adjusted g x)) r
    → Ensures Registered (within_gas r)
within_gas-Registered g (ok none) h = tt
within_gas-Registered g (ok (some (g', rate))) h = h
within_gas-Registered g (err e) h = tt
within_gas-Registered g panic h = tt

module _ ⦃p : Pendzl⦄ (w : Surroundings) (g : Session) (registered : Registered g) where
  pub handle-Registered : (m : UserMessage) → Ensures Registered (handle w g m)
  unfolding handle
  handle-Registered (UserMessage.choose_market_rule rule_id) =
      choose_market_rule-Registered w.env g registered ⦃o = w.oracles⦄ rule_id
  handle-Registered (UserMessage.set_as_collateral asset to_set) =
      set_as_collateral-Registered w.env g registered ⦃o = w.oracles⦄ asset to_set
  handle-Registered (UserMessage.deposit asset account amount) =
      deposit-Registered w.env g registered ⦃o = w.oracles⦄ ⦃t = w.tokens⦄ asset account amount
  handle-Registered (UserMessage.withdraw asset account amount) =
      session_of-Registered (withdraw ⦃o = w.oracles⦄ ⦃t = w.tokens⦄ w.env g asset account amount)
        (withdraw-Registered w.env g registered ⦃o = w.oracles⦄ ⦃t = w.tokens⦄ asset account amount)
  handle-Registered (UserMessage.borrow asset account amount) =
      borrow-Registered w.env g registered ⦃o = w.oracles⦄ ⦃t = w.tokens⦄ asset account amount
  handle-Registered (UserMessage.repay asset account amount) =
      session_of-Registered (repay ⦃o = w.oracles⦄ ⦃t = w.tokens⦄ w.env g asset account amount)
        (repay-Registered w.env g registered ⦃o = w.oracles⦄ ⦃t = w.tokens⦄ asset account amount)
  handle-Registered (UserMessage.multi_op actions account) =
      multi_op-Registered w.env g registered ⦃o = w.oracles⦄ ⦃t = w.tokens⦄ actions account
  handle-Registered (UserMessage.liquidate account to_repay to_take amount minimum_e18) =
      session_of-Registered
        (liquidate ⦃o = w.oracles⦄ ⦃t = w.tokens⦄ w.env g account to_repay to_take amount
          minimum_e18)
        (liquidate-Registered w.env g registered ⦃o = w.oracles⦄ ⦃t = w.tokens⦄ account to_repay
          to_take amount minimum_e18)
  handle-Registered (UserMessage.accumulate_interest asset) =
      accumulate_interest-Registered w.env g registered asset
  handle-Registered (UserMessage.adjust_rate_at_target asset guessed_index) =
      within_gas-Registered g (adjust_rate_at_target_of w.env g w.gas asset guessed_index)
        (adjust_rate_at_target-Registered w.env g registered w.gas asset guessed_index)
  handle-Registered (UserMessage.transfer_deposit_from_to asset from to amount) =
      session_of-Registered
        (transfer_deposit_from_to ⦃o = w.oracles⦄ ⦃t = w.tokens⦄ w.env g asset from to amount)
        (transfer_deposit_from_to-Registered w.env g registered ⦃o = w.oracles⦄ ⦃t = w.tokens⦄ asset
          from amount to)
  handle-Registered (UserMessage.transfer_debt_from_to asset from to amount) =
      session_of-Registered
        (transfer_debt_from_to ⦃o = w.oracles⦄ ⦃t = w.tokens⦄ w.env g asset from to amount)
        (transfer_debt_from_to-Registered w.env g registered ⦃o = w.oracles⦄ ⦃t = w.tokens⦄ asset
          from amount to)

  pub manage-Registered : (m : ManageMessage) → Ensures Registered (manage w g m)
  unfolding manage
  manage-Registered (ManageMessage.set_price_feed_provider provider) =
      set_price_feed_provider-Registered ⦃a = w.access_control⦄ w.env g registered provider
  manage-Registered (ManageMessage.set_fee_reduction_provider provider) =
      set_fee_reduction_provider-Registered ⦃a = w.access_control⦄ w.env g registered provider
  manage-Registered (ManageMessage.set_flash_loan_fee_e6 fee) =
      set_flash_loan_fee_e6-Registered ⦃a = w.access_control⦄ w.env g registered fee
  manage-Registered (ManageMessage.register_asset asset l) =
      register_asset-Registered ⦃a = w.access_control⦄ w.env g registered ⦃i = w.instantiation⦄
        asset l
  manage-Registered (ManageMessage.set_reserve_is_active asset active) =
      set_reserve_is_active-Registered ⦃a = w.access_control⦄ w.env g registered asset active
  manage-Registered (ManageMessage.set_reserve_is_frozen asset freeze) =
      set_reserve_is_frozen-Registered ⦃a = w.access_control⦄ w.env g registered asset freeze
  manage-Registered (ManageMessage.set_reserve_restrictions asset restrictions) =
      set_reserve_restrictions-Registered ⦃a = w.access_control⦄ w.env g registered asset
        restrictions
  manage-Registered (ManageMessage.set_interest_rate_model asset params) =
      set_interest_rate_model-Registered ⦃a = w.access_control⦄ w.env g registered asset params
  manage-Registered (ManageMessage.set_reserve_fees asset fees) =
      set_reserve_fees-Registered ⦃a = w.access_control⦄ w.env g registered asset fees
  manage-Registered (ManageMessage.set_stablecoin_debt_rate_e18 asset rate) =
      set_stablecoin_debt_rate_e18-Registered ⦃a = w.access_control⦄ w.env g registered asset rate
  manage-Registered (ManageMessage.add_market_rule rule) =
      add_market_rule-Registered ⦃a = w.access_control⦄ w.env g registered rule
  manage-Registered (ManageMessage.modify_asset_rule rule_id asset rules) =
      modify_asset_rule-Registered ⦃a = w.access_control⦄ w.env g registered rule_id asset rules
  manage-Registered (ManageMessage.take_protocol_income assets to) =
      session_of-Registered
        (take_protocol_income ⦃a = w.access_control⦄ ⦃t = w.tokens⦄ w.env g assets to)
        (take_protocol_income-Registered ⦃a = w.access_control⦄ w.env g registered ⦃t = w.tokens⦄
          assets to)
