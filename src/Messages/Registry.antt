-- ===== src/Messages/Registry.antt =====
-- Every message keeps the registry of the assets.
use mathlib.Core.Path.{subst}
use abacus_protocol.Base.{
  Ensures-map, sym, ℕ, Bool, List, [], ◌∷◌, Option, none, some, arith, Ensures, ◌≡◌, refl, Result,
}
use abacus_protocol.Errors.{LendingPoolError}
use abacus_protocol.Library.MulDiv.{Pendzl}
use abacus_protocol.Pool.Storage.{AccountId, Oracles}
use abacus_protocol.Pool.Lending.{Operation, Action}
use abacus_protocol.Pool.Lending.Registry.{account_for_account_actions-Registry}
use abacus_protocol.Pool.Management.Laws.{Registry}
use abacus_protocol.Pool.Management.Registry.{account_for_market_rule_change-Registry}
use abacus_protocol.Pool.Transfer.Registry.{
  Preserves, Preserves-Ensures, account_for_set_as_collateral-Registry,
  account_for_accumulate_interest-Preserves, account_for_deposit_transfer_from_to-Preserves,
  account_for_debt_transfer_from_to-Preserves,
}
use abacus_protocol.Pool.Liquidation.Registry.{account_for_liquidate-Preserves}
use abacus_protocol.Pool.Liquidation.{account_for_liquidate}
use abacus_protocol.Pool.Transfer.{
  account_for_accumulate_interest, account_for_deposit_transfer_from_to,
  account_for_debt_transfer_from_to,
}
use abacus_protocol.Pool.Utilization.{adjust_rate_of_asset}
use abacus_protocol.Messages.Session.{Env, Session, Tokens}
use abacus_protocol.Messages.Accounts.{
  account_for_one, deposit, withdraw, borrow, repay, choose_market_rule, set_as_collateral,
}
use abacus_protocol.Messages.MultiOp.{settle_operation, settle_operations, multi_op}
use abacus_protocol.Messages.Liquidate.{liquidate}
use abacus_protocol.Messages.Flash.{open_flash_loan, collect}
use abacus_protocol.Messages.TokenInterface.{transfer_deposit_from_to, transfer_debt_from_to}
use abacus_protocol.Messages.Maintain.{accumulate_interest, adjust_rate_at_target_of}

-- The registry of a session's storage.
abbrev pub Registered : Session → Type 0
Registered g = Registry g.storage

-- What leaves the storage as it is keeps the registry.
pub same-Registered {ℓ} :
    {A : Type ℓ} (g : Session) (r : Result LendingPoolError A) (session : A → Session)
    → Registered g
    → Ensures (λ a. (session a).storage ≡ g.storage) r
    → Ensures (λ a. Registered (session a)) r
same-Registered g r session registered = Ensures-map r (λ a e. subst Registry (sym e) registered)

-- The session after an adjustment, which is the one before where the fuel ran out.
abbrev pub adjusted : Session → Option (Session × ℕ) → Session
adjusted g none = g
adjusted g (some (g', rate)) = g'

settle_operation-storage :
    ⦃t : Tokens⦄ (env : Env) (account : AccountId) (first : ℕ) (g : Session) (a : Action)
    (interests : ℕ × ℕ)
    → Ensures (λ g'. g'.storage ≡ g.storage) (settle_operation env account first g a interests)
unfolding settle_operation
settle_operation-storage env account first g a interests = ground arith

settle_operations-storage :
    ⦃t : Tokens⦄ (env : Env) (account : AccountId) (first : ℕ) (g : Session) (actions : List Action)
    (results : List (ℕ × ℕ))
    → Ensures (λ g'. g'.storage ≡ g.storage) (settle_operations env account first g actions results)
unfolding settle_operations
settle_operations-storage env account first g actions [] = refl
settle_operations-storage env account first g [] (x ∷ results) = tt
settle_operations-storage env account first g (a ∷ actions) (x ∷ results) = grind (
  arith,
  settle_operation-storage env account first g a x,
  λ (g' : Session). settle_operations-storage env account first g' actions results,
)

settle_operations-Registered :
    ⦃t : Tokens⦄ (env : Env) (account : AccountId) (first : ℕ) (g : Session) (actions : List Action)
    (results : List (ℕ × ℕ))
    → Registered g
    → Ensures Registered (settle_operations env account first g actions results)
settle_operations-Registered env account first g actions results registered =
    same-Registered g (settle_operations env account first g actions results) (λ g'. g') registered
      (settle_operations-storage env account first g actions results)

collect-storage :
    ⦃t : Tokens⦄ (env : Env) (receiver : AccountId) (assets : List AccountId)
    (amounts fees : List ℕ) (g : Session)
    → Ensures (λ g'. g'.storage ≡ g.storage) (collect env receiver assets amounts fees g)
unfolding collect
collect-storage env receiver [] amounts fees g = refl
collect-storage env receiver (a ∷ assets) [] fees g = tt
collect-storage env receiver (a ∷ assets) (n ∷ amounts) [] g = tt
collect-storage env receiver (a ∷ assets) (n ∷ amounts) (fee ∷ fees) g =
    grind (arith, λ (g' : Session). collect-storage env receiver assets amounts fees g')

pub collect-Registered :
    ⦃t : Tokens⦄ (env : Env) (receiver : AccountId) (assets : List AccountId)
    (amounts fees : List ℕ) (g : Session)
    → Registered g
    → Ensures Registered (collect env receiver assets amounts fees g)
collect-Registered env receiver assets amounts fees g registered =
    same-Registered g (collect env receiver assets amounts fees g) (λ g'. g') registered
      (collect-storage env receiver assets amounts fees g)

module _ ⦃p : Pendzl⦄ (env : Env) (g : Session) (registered : Registered g) where
  module _ ⦃o : Oracles⦄ where
    one-Registered :
        (op : Operation) (asset account : AccountId) (amount : ℕ)
        → Ensures
            (λ (s, interests, paid). Registry s)
            (account_for_one env g op asset account amount)
    unfolding account_for_one
    one-Registered op asset account amount = grind (
      arith,
      account_for_account_actions-Registry g.storage account
          (record { op = op; asset = asset; amount = amount } ∷ []) env.block_timestamp registered,
    )

    pub choose_market_rule-Registered :
        (rule_id : ℕ) → Ensures Registered (choose_market_rule env g rule_id)
    unfolding choose_market_rule
    choose_market_rule-Registered rule_id =
        grind
          (arith, account_for_market_rule_change-Registry g.storage registered env.caller rule_id)

    pub set_as_collateral-Registered :
        (asset : AccountId) (to_set : Bool)
        → Ensures Registered (set_as_collateral env g asset to_set)
    unfolding set_as_collateral
    set_as_collateral-Registered asset to_set =
        grind (
          arith,
          account_for_set_as_collateral-Registry g.storage env.caller asset to_set registered,
        )

    module _ ⦃t : Tokens⦄ (asset account : AccountId) (amount : ℕ) where
      pub deposit-Registered : Ensures Registered (deposit env g asset account amount)
      unfolding deposit
      deposit-Registered = grind (arith, one-Registered Operation.deposit asset account amount)

      pub withdraw-Registered :
          Ensures (λ (g', paid). Registered g') (withdraw env g asset account amount)
      unfolding withdraw
      withdraw-Registered = grind (arith, one-Registered Operation.withdraw asset account amount)

      pub borrow-Registered : Ensures Registered (borrow env g asset account amount)
      unfolding borrow
      borrow-Registered = grind (arith, one-Registered Operation.borrow asset account amount)

      pub repay-Registered :
          Ensures (λ (g', paid). Registered g') (repay env g asset account amount)
      unfolding repay
      repay-Registered = grind (arith, one-Registered Operation.repay asset account amount)

      pub transfer_deposit_from_to-Registered :
          (to : AccountId)
          → Ensures
              (λ (g', interests). Registered g')
              (transfer_deposit_from_to env g asset account to amount)
      unfolding transfer_deposit_from_to
      transfer_deposit_from_to-Registered to = grind (
        arith,
        Preserves-Ensures g.storage
            (account_for_deposit_transfer_from_to g.storage asset account to amount
              env.block_timestamp)
            (λ r. r.0) registered
            (account_for_deposit_transfer_from_to-Preserves g.storage asset account to amount
              env.block_timestamp),
      )

      pub transfer_debt_from_to-Registered :
          (to : AccountId)
          → Ensures
              (λ (g', interests). Registered g')
              (transfer_debt_from_to env g asset account to amount)
      unfolding transfer_debt_from_to
      transfer_debt_from_to-Registered to = grind (
        arith,
        Preserves-Ensures g.storage
            (account_for_debt_transfer_from_to g.storage asset account to amount
              env.block_timestamp)
            (λ r. r.0) registered
            (account_for_debt_transfer_from_to-Preserves g.storage asset account to amount
              env.block_timestamp),
      )

    module _ ⦃t : Tokens⦄ where
      pub multi_op-Registered :
          (actions : List Action) (account : AccountId)
          → Ensures Registered (multi_op env g actions account)
      unfolding multi_op
      multi_op-Registered actions account = grind (
        arith,
        account_for_account_actions-Registry g.storage account actions env.block_timestamp
            registered,
        λ (first : ℕ) (g' : Session) (bs : List Action) (results : List (ℕ × ℕ)).
            settle_operations-Registered env account first g' bs results,
      )

      pub liquidate-Registered :
          (liquidated asset_to_repay asset_to_take : AccountId) (amount minimum_e18 : ℕ)
          → Ensures
              (λ (g', amounts). Registered g')
              (liquidate env g liquidated asset_to_repay asset_to_take amount minimum_e18)
      unfolding liquidate
      liquidate-Registered liquidated asset_to_repay asset_to_take amount minimum_e18 = grind (
        arith,
        Preserves-Ensures g.storage
            (account_for_liquidate g.storage env.caller liquidated asset_to_repay asset_to_take
              amount env.block_timestamp)
            (λ r. r.storage) registered
            (account_for_liquidate-Preserves g.storage env.caller liquidated asset_to_repay
              asset_to_take amount env.block_timestamp),
      )

      pub open_flash_loan-Registered :
          (receiver : AccountId) (assets : List AccountId) (amounts : List ℕ)
          → Ensures (λ (g', fees). Registered g') (open_flash_loan env g receiver assets amounts)
      unfolding open_flash_loan
      open_flash_loan-Registered receiver assets amounts =
          same-Registered g (open_flash_loan env g receiver assets amounts) (λ r. r.0) registered
            (grind arith)

  pub accumulate_interest-Registered :
      (asset : AccountId) → Ensures Registered (accumulate_interest env g asset)
  unfolding accumulate_interest
  accumulate_interest-Registered asset = grind (
    arith,
    Preserves-Ensures g.storage
        (account_for_accumulate_interest g.storage asset env.block_timestamp) (λ s. s) registered
        (account_for_accumulate_interest-Preserves g.storage asset env.block_timestamp),
  )

  adjust_rate_at_target-Preserves :
      (fuel : ℕ) (asset : AccountId) (guessed_index : ℕ)
      → Ensures
          (λ r. Preserves g.storage (adjusted g r).storage)
          (adjust_rate_at_target_of env g fuel asset guessed_index)
  unfolding adjust_rate_at_target_of adjust_rate_of_asset
  adjust_rate_at_target-Preserves fuel asset guessed_index = ground arith

  pub adjust_rate_at_target-Registered :
      (fuel : ℕ) (asset : AccountId) (guessed_index : ℕ)
      → Ensures
          (λ r. Registered (adjusted g r))
          (adjust_rate_at_target_of env g fuel asset guessed_index)
  adjust_rate_at_target-Registered fuel asset guessed_index =
      Preserves-Ensures g.storage (adjust_rate_at_target_of env g fuel asset guessed_index)
        (λ r. (adjusted g r).storage) registered
        (adjust_rate_at_target-Preserves fuel asset guessed_index)
