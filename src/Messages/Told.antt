-- ===== src/Messages/Told.antt =====
-- What an abacus token has been told of an account's tokens, from the calls that the pool has made.
use abacus_protocol.Base.{
  ℕ, ◌+◌, ◌-◌, ◌≡◌, Bool, false, List, [], ◌∷◌, ◌++◌, Option, none, some, arith, Ensures, ◌==◌,
  if◌then◌else◌, u128_mod, ◌≢◌, ◌⊎◌,
}
use abacus_protocol.Pool.Storage.{AccountId, LendingPoolStorage, asset_id}
use abacus_protocol.Messages.Session.{Env, Call, TransferEventData, Tokens, invoke}
use abacus_protocol.Messages.Internal.{
  is_negative, magnitude, emit_abacus_token_transfer_event,
  emit_abacus_token_transfer_event_and_decrease_allowance, transfer_in, transfer_out,
}

abbrev pub is_account : AccountId → Option AccountId → Bool
is_account account none = false
is_account account (some a) = a == account

-- What events give to an account, and what they take from it.
abbrev pub gained_in : AccountId → List TransferEventData → ℕ
gained_in account [] = 0
gained_in account (e ∷ events) =
    (if is_account account e.to then e.amount else 0) + gained_in account events

abbrev pub lost_in : AccountId → List TransferEventData → ℕ
lost_in account [] = 0
lost_in account (e ∷ events) =
    (if is_account account e.from then e.amount else 0) + lost_in account events

-- The events that a call tells a token of.
abbrev pub events_for : AccountId → Call → List TransferEventData
events_for token (Call.emit_transfer_events t events) = if t == token then events else []
events_for token (Call.emit_transfer_event_and_decrease_allowance t event owner spender by) =
    if t == token then event ∷ [] else []
events_for token call = []

abbrev pub gained : AccountId → AccountId → List Call → ℕ
gained token account [] = 0
gained token account (call ∷ calls) =
    gained_in account (events_for token call) + gained token account calls

abbrev pub lost : AccountId → AccountId → List Call → ℕ
lost token account [] = 0
lost token account (call ∷ calls) =
    lost_in account (events_for token call) + lost token account calls

gained-append :
    (token account : AccountId) (calls : List Call) (call : Call)
    → gained token account (calls ++ call ∷ [])
      ≡ gained token account calls + gained_in account (events_for token call)
gained-append token account [] call = omega arith
gained-append token account (c ∷ calls) call = omega (arith, gained-append token account calls call)

lost-append :
    (token account : AccountId) (calls : List Call) (call : Call)
    → lost token account (calls ++ call ∷ [])
      ≡ lost token account calls + lost_in account (events_for token call)
lost-append token account [] call = omega arith
lost-append token account (c ∷ calls) call = omega (arith, lost-append token account calls call)

-- What is gained and lost has grown by so much.
abbrev pub Told : AccountId → AccountId → List Call → ℕ → ℕ → List Call → Type 0
Told token account calls up down calls' =
    (gained token account calls' ≡ gained token account calls + up)
    × (lost token account calls' ≡ lost token account calls + down)

-- The two parts of a signed amount.
abbrev pub positive : ℕ → ℕ
positive n = if is_negative n then 0 else n

abbrev pub negative : ℕ → ℕ
negative n = if is_negative n then u128_mod - n else 0

module _ ⦃t : Tokens⦄ (token account : AccountId) (calls : List Call) where
  pub invoke-Told :
      (call : Call)
      → Ensures
          (λ calls'.
            Told token account calls
              (gained_in account (events_for token call))
              (lost_in account (events_for token call))
              calls')
          (invoke calls call)
  unfolding invoke
  invoke-Told call =
      grind (arith, gained-append token account calls call, lost-append token account calls call)

  pub transfer_in-Told :
      (env : Env) (s : LendingPoolStorage) (asset from : AccountId) (amount : ℕ)
      → Ensures (Told token account calls 0 0) (transfer_in env s asset from amount calls)
  unfolding transfer_in asset_id
  transfer_in-Told env s asset from amount = grind (
    arith,
    invoke-Told (Call.transfer_from asset from env.account_id amount),
    invoke-Told (Call.burn asset from amount),
  )

  pub transfer_out-Told :
      (s : LendingPoolStorage) (asset to : AccountId) (amount : ℕ)
      → Ensures (Told token account calls 0 0) (transfer_out s asset to amount calls)
  unfolding transfer_out asset_id
  transfer_out-Told s asset to amount =
      grind (
        arith,
        invoke-Told (Call.transfer asset to amount),
        invoke-Told (Call.mint asset to amount),
      )

  -- The event of a signed amount, on this token and on another.
  pub emit-Told :
      (amount : ℕ)
      → Ensures
          (Told token account calls (positive amount) (negative amount))
          (emit_abacus_token_transfer_event token account amount calls)
  unfolding emit_abacus_token_transfer_event magnitude
  emit-Told amount = grind (
    arith,
    λ (events : List TransferEventData). invoke-Told (Call.emit_transfer_events token events),
  )

  pub emit-Told_other :
      (other : AccountId) (amount : ℕ)
      → other ≢ token
      → Ensures
          (Told token account calls 0 0)
          (emit_abacus_token_transfer_event other account amount calls)
  unfolding emit_abacus_token_transfer_event magnitude
  emit-Told_other other amount ne = grind (
    arith,
    λ (events : List TransferEventData). invoke-Told (Call.emit_transfer_events other events),
  )

  pub emit_decrease-Told :
      (amount : ℕ) (spender : AccountId) (by : ℕ)
      → (is_negative amount ≡ false) ⊎ (spender ≡ account)
      → Ensures (Told token account calls (positive amount) (negative amount)) (
          emit_abacus_token_transfer_event_and_decrease_allowance token account amount spender by
            calls)
  unfolding emit_abacus_token_transfer_event_and_decrease_allowance
  emit_decrease-Told amount spender by plain = grind (
    arith,
    plain,
    emit-Told amount,
    λ (event : TransferEventData).
        invoke-Told
          (Call.emit_transfer_event_and_decrease_allowance token event account spender by),
  )

  pub emit_decrease-Told_other :
      (other : AccountId) (amount : ℕ) (spender : AccountId) (by : ℕ)
      → other ≢ token
      → Ensures (Told token account calls 0 0) (
          emit_abacus_token_transfer_event_and_decrease_allowance other account amount spender by
            calls)
  unfolding emit_abacus_token_transfer_event_and_decrease_allowance
  emit_decrease-Told_other other amount spender by ne = grind (
    arith,
    emit-Told_other other amount ne,
    λ (event : TransferEventData).
        invoke-Told
          (Call.emit_transfer_event_and_decrease_allowance other event account spender by),
  )
