-- ===== src/AbacusToken/VToken.antt =====
-- src/contracts/core/v_token/lib.rs: the transfers of the v token, which need the allowance of the
-- account that takes the debt.
use abacus_protocol.Base.{ℕ, Result, ok, map_err, unwrap_result, ◌>>=◌, ◌>>◌, refuse_if, ltb}
use abacus_protocol.Errors.{LendingPoolError, Psp22Error, insufficient_allowance}
use abacus_protocol.Library.MulDiv.{Pendzl}
use abacus_protocol.Pool.Storage.{AccountId, Oracles}
use abacus_protocol.Messages.Session.{Env, Session, Tokens}
use abacus_protocol.Messages.TokenInterface.{transfer_debt_from_to, account_debt_of, total_debt_of}
use abacus_protocol.AbacusToken.State.{
  AbacusToken, allowance, decrease_allowance_from_to, emit_update, psp22_of,
}
use abacus_protocol.AbacusToken.AToken.{pool_env}

module _ ⦃p : Pendzl⦄ ⦃o : Oracles⦄ where
  unfoldable pub debt_balance_of :
      Env → AbacusToken → Session → AccountId → Result LendingPoolError ℕ
  debt_balance_of env t g owner =
      unwrap_result (account_debt_of g.storage t.underlying_asset owner env.block_timestamp)

module _ ⦃p : Pendzl⦄ where
  unfoldable pub total_debt_supply : Env → AbacusToken → Session → Result LendingPoolError ℕ
  total_debt_supply env t g =
      unwrap_result (total_debt_of g.storage t.underlying_asset env.block_timestamp)

module _ ⦃p : Pendzl⦄ ⦃o : Oracles⦄ ⦃c : Tokens⦄ where
  -- `_update`
  unfoldable pub update_debt :
      Env
      → AbacusToken
      → Session
      → AccountId
      → AccountId
      → ℕ
      → Result Psp22Error (AbacusToken × Session)
  update_debt env t g from to amount = do
    (g', interests) ←
        map_err psp22_of
          (transfer_debt_from_to (pool_env env t) g t.underlying_asset from to amount)
    ok (emit_update t from to interests amount, g')

  unfoldable pub transfer_debt :
      Env → AbacusToken → Session → AccountId → ℕ → Result Psp22Error (AbacusToken × Session)
  unfolding update_debt allowance decrease_allowance_from_to
  transfer_debt env t g to amount = do
    refuse_if (ltb (allowance t to env.caller) amount) insufficient_allowance
    t' ← decrease_allowance_from_to t to env.caller amount
    update_debt env t' g env.caller to amount

  -- The allowance that is looked at is that of `from`, the one that is decreased that of `to`.
  unfoldable pub transfer_debt_from :
      Env
      → AbacusToken
      → Session
      → AccountId
      → AccountId
      → ℕ
      → Result Psp22Error (AbacusToken × Session)
  unfolding update_debt allowance decrease_allowance_from_to
  transfer_debt_from env t g from to amount = do
    refuse_if (ltb (allowance t from env.caller) amount) insufficient_allowance
    t' ← decrease_allowance_from_to t to env.caller amount
    update_debt env t' g from to amount
