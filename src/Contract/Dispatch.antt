-- ===== src/Contract/Dispatch.antt =====
-- How the contract hands its messages on to their handlers.
use abacus_protocol.Base.{ℕ, Option, none, some, Result, ok, panic, ◌>>=◌}
use abacus_protocol.Errors.{LendingPoolError}
use abacus_protocol.Library.MulDiv.{Pendzl}
use abacus_protocol.Pool.Storage.{AccountId}
use abacus_protocol.Messages.Session.{Session}
use abacus_protocol.Messages.Accounts.{
  deposit, withdraw, borrow, repay, choose_market_rule, set_as_collateral,
}
use abacus_protocol.Messages.MultiOp.{multi_op}
use abacus_protocol.Messages.Liquidate.{liquidate}
use abacus_protocol.Messages.TokenInterface.{transfer_deposit_from_to, transfer_debt_from_to}
use abacus_protocol.Messages.Maintain.{accumulate_interest, adjust_rate_at_target_of}
use abacus_protocol.Messages.Manage.{
  set_price_feed_provider, set_fee_reduction_provider, set_flash_loan_fee_e6, set_reserve_is_active,
  set_reserve_is_frozen, set_reserve_restrictions, set_interest_rate_model, set_reserve_fees,
  set_stablecoin_debt_rate_e18, add_market_rule, modify_asset_rule, take_protocol_income,
}
use abacus_protocol.Messages.Manage.Register.{register_asset}
use abacus_protocol.Contract.Registrar.{AccountRegistrar, ensure_registered}
use abacus_protocol.Contract.Message.{LendingPool, UserMessage, ManageMessage, Surroundings}

-- The session of a handler that returns a value with it.
abbrev pub session_of {ℓ} :
    {A : Type ℓ} → Result LendingPoolError (Session × A) → Result LendingPoolError Session
session_of r = do (g, value) ← r; ok g

abbrev pub within_gas :
    Result LendingPoolError (Option (Session × ℕ)) → Result LendingPoolError Session
within_gas r = do done ← r; elim done [ none ↦ panic | some (g, value) ↦ ok g ]

module _ ⦃p : Pendzl⦄ (w : Surroundings) (g : Session) where
  -- The handler of a message, without the registration of the caller.
  unfoldable pub handle : UserMessage → Result LendingPoolError Session
  handle (UserMessage.choose_market_rule rule_id) =
      choose_market_rule ⦃o = w.oracles⦄ w.env g rule_id
  handle (UserMessage.set_as_collateral asset to_set) =
      set_as_collateral ⦃o = w.oracles⦄ w.env g asset to_set
  handle (UserMessage.deposit asset account amount) =
      deposit ⦃o = w.oracles⦄ ⦃t = w.tokens⦄ w.env g asset account amount
  handle (UserMessage.withdraw asset account amount) =
      session_of (withdraw ⦃o = w.oracles⦄ ⦃t = w.tokens⦄ w.env g asset account amount)
  handle (UserMessage.borrow asset account amount) =
      borrow ⦃o = w.oracles⦄ ⦃t = w.tokens⦄ w.env g asset account amount
  handle (UserMessage.repay asset account amount) =
      session_of (repay ⦃o = w.oracles⦄ ⦃t = w.tokens⦄ w.env g asset account amount)
  handle (UserMessage.multi_op actions account) =
      multi_op ⦃o = w.oracles⦄ ⦃t = w.tokens⦄ w.env g actions account
  handle (UserMessage.liquidate account asset_to_repay asset_to_take amount minimum_e18) =
      session_of {A = ℕ × ℕ} (
        liquidate ⦃o = w.oracles⦄ ⦃t = w.tokens⦄ w.env g account asset_to_repay asset_to_take amount
          minimum_e18)
  handle (UserMessage.accumulate_interest asset) = accumulate_interest w.env g asset
  handle (UserMessage.adjust_rate_at_target asset guessed_index) =
      within_gas (adjust_rate_at_target_of w.env g w.gas asset guessed_index)
  handle (UserMessage.transfer_deposit_from_to asset from to amount) =
      session_of
        (transfer_deposit_from_to ⦃o = w.oracles⦄ ⦃t = w.tokens⦄ w.env g asset from to amount)
  handle (UserMessage.transfer_debt_from_to asset from to amount) =
      session_of (transfer_debt_from_to ⦃o = w.oracles⦄ ⦃t = w.tokens⦄ w.env g asset from to amount)

  unfoldable pub manage : ManageMessage → Result LendingPoolError Session
  manage (ManageMessage.set_price_feed_provider provider) =
      set_price_feed_provider ⦃a = w.access_control⦄ w.env g provider
  manage (ManageMessage.set_fee_reduction_provider provider) =
      set_fee_reduction_provider ⦃a = w.access_control⦄ w.env g provider
  manage (ManageMessage.set_flash_loan_fee_e6 fee) =
      set_flash_loan_fee_e6 ⦃a = w.access_control⦄ w.env g fee
  manage (ManageMessage.register_asset asset l) =
      register_asset ⦃a = w.access_control⦄ ⦃i = w.instantiation⦄ w.env g asset l
  manage (ManageMessage.set_reserve_is_active asset active) =
      set_reserve_is_active ⦃a = w.access_control⦄ w.env g asset active
  manage (ManageMessage.set_reserve_is_frozen asset freeze) =
      set_reserve_is_frozen ⦃a = w.access_control⦄ w.env g asset freeze
  manage (ManageMessage.set_reserve_restrictions asset restrictions) =
      set_reserve_restrictions ⦃a = w.access_control⦄ w.env g asset restrictions
  manage (ManageMessage.set_interest_rate_model asset params) =
      set_interest_rate_model ⦃a = w.access_control⦄ w.env g asset params
  manage (ManageMessage.set_reserve_fees asset fees) =
      set_reserve_fees ⦃a = w.access_control⦄ w.env g asset fees
  manage (ManageMessage.set_stablecoin_debt_rate_e18 asset rate) =
      set_stablecoin_debt_rate_e18 ⦃a = w.access_control⦄ w.env g asset rate
  manage (ManageMessage.add_market_rule rule) = add_market_rule ⦃a = w.access_control⦄ w.env g rule
  manage (ManageMessage.modify_asset_rule rule_id asset rules) =
      modify_asset_rule ⦃a = w.access_control⦄ w.env g rule_id asset rules
  manage (ManageMessage.take_protocol_income assets to) =
      session_of (take_protocol_income ⦃a = w.access_control⦄ ⦃t = w.tokens⦄ w.env g assets to)

-- `set_as_collateral` registers its caller first.
abbrev pub register_for :
    UserMessage → AccountId → AccountRegistrar → Result LendingPoolError AccountRegistrar
register_for (UserMessage.set_as_collateral asset to_set) caller r = ensure_registered r caller
register_for m caller r = ok r

unfoldable pub execute :
    ⦃p : Pendzl⦄ → Surroundings → LendingPool → UserMessage → Result LendingPoolError LendingPool
unfolding handle
execute w c m = do
  registrar ← register_for m w.env.caller c.registrar
  g ← handle w c.session m
  ok (record { session = g; registrar = registrar })

unfoldable pub execute_manage :
    ⦃p : Pendzl⦄ → Surroundings → LendingPool → ManageMessage → Result LendingPoolError LendingPool
unfolding manage
execute_manage w c m = do g ← manage w c.session m; ok (record c { session = g })
