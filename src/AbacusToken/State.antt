-- ===== src/AbacusToken/State.antt =====
-- src/contract_modules/abacus_token/implementation: the storage of an abacus token and the messages
-- that the lending pool sends to it; and what the a token and the v token do alike
-- (src/contracts/core/a_token/lib.rs).
use abacus_protocol.Base.{
  ℕ, not, List, [], ◌∷◌, ◌++◌, Option, none, some, Result, ok, panic, ok_or, ◌>>=◌, ◌>>◌, refuse_if,
  ◌==◌, ltb, ◌&&◌, if◌then◌else◌, unwrap_or, checked_add, checked_sub, u128_mod,
}
use abacus_protocol.Errors.{
  LendingPoolError, MathError, Psp22Error, insufficient_allowance, insufficient_balance,
}
use abacus_protocol.Errors
use abacus_protocol.Pool.Storage.{AccountId}
use abacus_protocol.Messages.Session.{TransferEventData}

pub data TokenEvent : Type 0 where
  transfer : Option AccountId → Option AccountId → ℕ → TokenEvent
  approval : AccountId → AccountId → ℕ → TokenEvent

-- `AbacusTokenStorage`, and the events emitted.
pub record AbacusToken : Type 0 where
  pub lending_pool : AccountId
  pub underlying_asset : AccountId
  pub allowances : AccountId → AccountId → Option ℕ
  pub events : List TokenEvent

-- The constructor `new`; a token's name, symbol and decimals are not kept here.
abbrev pub new_token : AccountId → AccountId → AbacusToken
new_token pool asset = record {
  lending_pool = pool;
  underlying_asset = asset;
  allowances = λ owner spender. none;
  events = [];
}

abbrev pub emit : AbacusToken → TokenEvent → AbacusToken
emit t event = record t { events = t.events ++ event ∷ [] }

-- `From<LendingPoolError> for PSP22Error`
abbrev pub psp22_of : LendingPoolError → Psp22Error
psp22_of (Errors.LendingPoolError.math_error MathError.underflow) = insufficient_balance
psp22_of e = Psp22Error.custom

-- `_allowance`
unfoldable pub allowance : AbacusToken → AccountId → AccountId → ℕ
allowance t owner spender = unwrap_or (t.allowances owner spender) 0

abbrev pub insert_allowance : AbacusToken → AccountId → AccountId → ℕ → AbacusToken
insert_allowance t owner spender amount =
    emit
      (record t {
        allowances = λ o s. if o == owner && s == spender then some amount else t.allowances o s;
      })
      (TokenEvent.approval owner spender amount)

-- `_approve`
unfoldable pub approve : AbacusToken → AccountId → AccountId → ℕ → Result Psp22Error AbacusToken
approve t owner spender amount = ok (insert_allowance t owner spender amount)

unfoldable pub decrease_allowance_from_to :
    AbacusToken → AccountId → AccountId → ℕ → Result Psp22Error AbacusToken
unfolding allowance
decrease_allowance_from_to t owner spender amount = do
  left ← ok_or (checked_sub (allowance t owner spender) amount) insufficient_allowance
  ok (insert_allowance t owner spender left)

unfoldable pub increase_allowance_from_to :
    AbacusToken → AccountId → AccountId → ℕ → Result Psp22Error AbacusToken
unfolding allowance
increase_allowance_from_to t owner spender amount = do
  raised ← ok_or (checked_add u128_mod (allowance t owner spender) amount) Psp22Error.custom
  ok (insert_allowance t owner spender raised)

-- `_mint_to` and `_burn_from` are not supported.
unfoldable pub mint_to : AbacusToken → AccountId → ℕ → Result Psp22Error AbacusToken
mint_to t to amount = panic

unfoldable pub burn_from : AbacusToken → AccountId → ℕ → Result Psp22Error AbacusToken
burn_from t from amount = panic

-- `if event.amount != 0 { emit_event(..) }`
abbrev pub emit_transfer_event : AbacusToken → TransferEventData → AbacusToken
emit_transfer_event t e =
    if e.amount == 0 then t else emit t (TokenEvent.transfer e.from e.to e.amount)

abbrev pub emit_each : AbacusToken → List TransferEventData → AbacusToken
emit_each t [] = t
emit_each t (e ∷ events) = emit_each (emit_transfer_event t e) events

-- The first argument after the token is the caller.
unfoldable pub emit_transfer_events :
    AbacusToken → AccountId → List TransferEventData → Result Psp22Error AbacusToken
emit_transfer_events t caller events = do
  refuse_if (not (t.lending_pool == caller)) Psp22Error.custom
  ok (emit_each t events)

unfoldable pub emit_transfer_event_and_decrease_allowance :
    AbacusToken
    → AccountId
    → TransferEventData
    → AccountId
    → AccountId
    → ℕ
    → Result Psp22Error AbacusToken
unfolding allowance
emit_transfer_event_and_decrease_allowance t caller event owner spender by = do
  refuse_if (not (t.lending_pool == caller)) Psp22Error.custom
  let t' = emit_transfer_event t event
  refuse_if (ltb (allowance t' owner spender) by) insufficient_allowance
  decrease_allowance_from_to t' owner spender by

unfoldable pub get_lending_pool : AbacusToken → AccountId
get_lending_pool t = t.lending_pool

-- The events of a transfer, with those of the interests that both accounts have accumulated.
abbrev pub emit_interest : AbacusToken → AccountId → ℕ → AbacusToken
emit_interest t account interest =
    if interest == 0 then t else emit t (TokenEvent.transfer none (some account) interest)

abbrev pub emit_update : AbacusToken → AccountId → AccountId → ℕ × ℕ → ℕ → AbacusToken
emit_update t from to (from_interest, to_interest) amount =
    emit (emit_interest (emit_interest t from from_interest) to to_interest)
      (TokenEvent.transfer (some from) (some to) amount)
