-- ===== src/Messages/Maintain.antt =====
-- src/contract_modules/lending_pool/implementation/maintain.rs.
use abacus_protocol.Base.{ℕ, [], ◌∷◌, ◌++◌, Option, none, some, Result, ok, ◌>>=◌}
use abacus_protocol.Errors.{LendingPoolError}
use abacus_protocol.Library.MulDiv.{Pendzl}
use abacus_protocol.Pool.Storage.{AccountId}
use abacus_protocol.Pool.Transfer.{account_for_accumulate_interest}
use abacus_protocol.Pool.Utilization.{adjust_rate_of_asset}
use abacus_protocol.Messages.Session.{Env, Event, Session}

module _ ⦃p : Pendzl⦄ where
  unfoldable pub accumulate_interest : Env → Session → AccountId → Result LendingPoolError Session
  accumulate_interest env g asset = do
    s ← account_for_accumulate_interest g.storage asset env.block_timestamp
    ok (record g { storage = s; events = g.events ++ Event.interests_accumulated asset ∷ [] })

  -- `ok none` where the search for the period outlasts the fuel.
  unfoldable pub adjust_rate_at_target_of :
      Env → Session → ℕ → AccountId → ℕ → Result LendingPoolError (Option (Session × ℕ))
  adjust_rate_at_target_of env g fuel asset guessed_index = do
    adjusted ← adjust_rate_of_asset g.storage fuel asset guessed_index env.block_timestamp
    elim adjusted [ none ↦ ok none | some (s, rate) ↦ ok (some (record g { storage = s }, rate)) ]
