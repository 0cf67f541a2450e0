-- ===== src/AbacusToken/AToken.antt =====
-- src/contracts/core/a_token/lib.rs: the transfers of the a token, each with the message that it
-- sends to the lending pool.
use abacus_protocol.Base.{ℕ, Result, ok, map_err, unwrap_result, ◌>>=◌, ◌>>◌, refuse_if, ltb}
use abacus_protocol.Errors.{LendingPoolError, Psp22Error, insufficient_allowance}
use abacus_protocol.Library.MulDiv.{Pendzl}
use abacus_protocol.Pool.Storage.{AccountId, Oracles}
use abacus_protocol.Messages.Session.{Env, Session, Tokens}
use abacus_protocol.Messages.TokenInterface.{
  transfer_deposit_from_to, account_deposit_of, total_deposit_of,
}
use abacus_protocol.AbacusToken.State.{
  AbacusToken, allowance, decrease_allowance_from_to, emit_update, psp22_of,
}

-- The environment of the pool while the token calls it.
abbrev pub pool_env : Env → AbacusToken → Env
pool_env env t = record {
  caller = env.account_id;
  account_id = t.lending_pool;
  block_timestamp = env.block_timestamp;
}

module _ ⦃p : Pendzl⦄ ⦃o : Oracles⦄ where
  unfoldable pub balance_of : Env → AbacusToken → Session → AccountId → Result LendingPoolError ℕ
  balance_of env t g owner =
      unwrap_result (account_deposit_of g.storage t.underlying_asset owner env.block_timestamp)

module _ ⦃p : Pendzl⦄ where
  unfoldable pub total_supply : Env → AbacusToken → Session → Result LendingPoolError ℕ
  total_supply env t g =
      unwrap_result (total_deposit_of g.storage t.underlying_asset env.block_timestamp)

module _ ⦃p : Pendzl⦄ ⦃o : Oracles⦄ ⦃c : Tokens⦄ where
  -- `_update`: the token and the session of the pool. The environment is the token's.
  unfoldable pub update_deposit :
      Env
      → AbacusToken
      → Session
      → AccountId
      → AccountId
      → ℕ
      → Result Psp22Error (AbacusToken × Session)
  update_deposit env t g from to amount = do
    (g', interests) ←
        map_err psp22_of
          (transfer_deposit_from_to (pool_env env t) g t.underlying_asset from to amount)
    ok (emit_update t from to interests amount, g')

  unfoldable pub transfer :
      Env → AbacusToken → Session → AccountId → ℕ → Result Psp22Error (AbacusToken × Session)
  unfolding update_deposit
  transfer env t g to amount = update_deposit env t g env.caller to amount

  unfoldable pub transfer_from :
      Env
      → AbacusToken
      → Session
      → AccountId
      → AccountId
      → ℕ
      → Result Psp22Error (AbacusToken × Session)
  unfolding update_deposit allowance decrease_allowance_from_to
  transfer_from env t g from to amount = do
    refuse_if (ltb (allowance t from env.caller) amount) insufficient_allowance
    t' ← decrease_allowance_from_to t from env.caller amount
    update_deposit env t' g from to amount
