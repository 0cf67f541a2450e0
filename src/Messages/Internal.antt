-- ===== src/Messages/Internal.antt =====
-- src/contract_modules/lending_pool/implementation/internal.rs. An `i128` is the natural number
-- with its bits, so that `as` between `i128` and `u128` is the identity and a number from 2^127 on is
-- negative.
use abacus_protocol.Base.{
  ℕ, ◌-◌, ◌^◌, Bool, List, [], ◌∷◌, none, some, Result, ok, panic, ok_or, ◌>>=◌, refuse_if, leb,
  ◌==◌, if◌then◌else◌, contains, insert, wrapping_sub, u128_mod, ◌||◌,
}
use abacus_protocol.Errors.{
  LendingPoolError, Psp22Error, amount_not_greater_than_zero, asset_not_registered, from_psp22,
}
use abacus_protocol.Library.Indexes.{take_earned_fee}
use abacus_protocol.Pool.Storage.{AccountId, LendingPoolStorage, asset_id}
use abacus_protocol.Messages.Session.{Env, Call, TransferEventData, Tokens, invoke}

unfoldable pub check_amount_not_zero : ℕ → Result LendingPoolError (Unit {0})
check_amount_not_zero amount = refuse_if (amount == 0) amount_not_greater_than_zero

abbrev pub is_negative : ℕ → Bool
is_negative n = leb (2 ^ 127) n

-- `(a as i128).overflowing_sub(b as i128).0`
abbrev pub signed_difference : ℕ → ℕ → ℕ
signed_difference a b = wrapping_sub u128_mod a b

-- `u128::try_from(n.neg()).unwrap()` for a number that is not above 0: the least `i128` has no
-- positive counterpart.
unfoldable pub magnitude : ℕ → Result Psp22Error ℕ
magnitude n = if n == 2 ^ 127 then panic else if n == 0 then ok 0 else ok (u128_mod - n)

-- The events of tokens that an account receives, and of tokens that it gives up.
abbrev pub to_account : AccountId → ℕ → TransferEventData
to_account account amount = record { from = none; to = some account; amount = amount }

abbrev pub from_account : AccountId → ℕ → TransferEventData
from_account account amount = record { from = some account; to = none; amount = amount }

pub record TransferEventDataSimplified : Type 0 where
  pub account : AccountId
  pub amount : ℕ

-- The event for a signed amount.
unfoldable pub transfer_event_data :
    TransferEventDataSimplified → Result Psp22Error TransferEventData
transfer_event_data e =
    if is_negative e.amount || e.amount == 0
    then (do given ← magnitude e.amount; ok (from_account e.account given))
    else ok (to_account e.account e.amount)

unfoldable pub transfer_events_data :
    List TransferEventDataSimplified → Result Psp22Error (List TransferEventData)
transfer_events_data [] = ok []
transfer_events_data (e ∷ rest) = do
  event ← transfer_event_data e
  events ← transfer_events_data rest
  ok (event ∷ events)

module _ ⦃t : Tokens⦄ where
  unfoldable pub emit_abacus_token_transfer_event :
      AccountId → AccountId → ℕ → List Call → Result Psp22Error (List Call)
  emit_abacus_token_transfer_event token account amount calls =
      if amount == 0
      then ok calls
      else if is_negative amount
      then (do
        given ← magnitude amount
        invoke calls (Call.emit_transfer_events token (from_account account given ∷ [])))
      else invoke calls (Call.emit_transfer_events token (to_account account amount ∷ []))

  unfoldable pub emit_abacus_token_transfer_events :
      AccountId → List TransferEventDataSimplified → List Call → Result Psp22Error (List Call)
  emit_abacus_token_transfer_events token entries calls = do
    events ← transfer_events_data entries
    invoke calls (Call.emit_transfer_events token events)

  -- For another spender the event of a negative amount has `amount as u128`, the bits themselves.
  unfoldable pub emit_abacus_token_transfer_event_and_decrease_allowance :
      AccountId → AccountId → ℕ → AccountId → ℕ → List Call → Result Psp22Error (List Call)
  emit_abacus_token_transfer_event_and_decrease_allowance token account amount spender by calls =
      if spender == account
      then emit_abacus_token_transfer_event token account amount calls
      else (let event =
            if is_negative amount || amount == 0
            then from_account account amount
            else to_account account amount in
          invoke calls
            (Call.emit_transfer_event_and_decrease_allowance token event account spender by))

  -- An asset with an interest rate model is moved; the protocol's own stablecoin is burned.
  unfoldable pub transfer_in :
      Env
      → LendingPoolStorage
      → AccountId
      → AccountId
      → ℕ
      → List Call
      → Result LendingPoolError (List Call)
  unfolding asset_id
  transfer_in env s asset from amount calls = do
    id ← asset_id s asset
    from_psp22 (
        invoke calls (
          if contains id s.interest_rate_model
          then Call.transfer_from asset from env.account_id amount
          else Call.burn asset from amount))

  unfoldable pub transfer_out :
      LendingPoolStorage
      → AccountId
      → AccountId
      → ℕ
      → List Call
      → Result LendingPoolError (List Call)
  unfolding asset_id
  transfer_out s asset to amount calls = do
    id ← asset_id s asset
    from_psp22 (
        invoke calls (
          if contains id s.interest_rate_model
          then Call.transfer asset to amount
          else Call.mint asset to amount))

unfoldable pub view_protocol_income :
    LendingPoolStorage → List AccountId → Result LendingPoolError (List (AccountId × ℕ))
unfolding asset_id take_earned_fee
view_protocol_income s [] = ok []
view_protocol_income s (asset ∷ rest) = do
  id ← asset_id s asset
  x ← ok_or (s.reserve_indexes_and_fees id) asset_not_registered
  incomes ← view_protocol_income s rest
  ok ((asset, (take_earned_fee x.fees).1) ∷ incomes)

-- The storage with the earned fees of the assets set back to 0, and the incomes.
unfoldable pub take_protocol_income_of :
    LendingPoolStorage
    → List AccountId
    → Result LendingPoolError (LendingPoolStorage × List (AccountId × ℕ))
unfolding asset_id take_earned_fee
take_protocol_income_of s [] = ok (s, [])
take_protocol_income_of s (asset ∷ rest) = do
  id ← asset_id s asset
  x ← ok_or (s.reserve_indexes_and_fees id) asset_not_registered
  let (fees, income) = take_earned_fee x.fees
  (s', incomes) ←
      take_protocol_income_of
        (record s {
          reserve_indexes_and_fees =
              insert id (record x { fees = fees }) s.reserve_indexes_and_fees;
        })
        rest
  ok (s', (asset, income) ∷ incomes)
