-- ===== src/Messages/MultiOp.antt =====
-- src/contract_modules/lending_pool/implementation/multi_op.rs.
use abacus_protocol.Base.{ℕ, List, [], ◌∷◌, ◌++◌, Result, ok, panic, unwrap, ◌>>=◌}
use abacus_protocol.Errors.{LendingPoolError}
use abacus_protocol.Library.MulDiv.{Pendzl}
use abacus_protocol.Pool.Storage.{AccountId, Oracles}
use abacus_protocol.Pool.Lending.{Operation, Action, account_for_account_actions}
use abacus_protocol.Messages.Session.{Env, Event, Session, Tokens}
use abacus_protocol.Messages.Internal.{transfer_in, transfer_out}
use abacus_protocol.Messages.Accounts.{mirror_deposit, mirror_withdraw, mirror_borrow, mirror_repay}

-- The operation's transfer of the asset and what its tokens are told. `first` is the amount of the
-- first action, which the source takes in place of the action's own for a withdrawal and for a
-- repayment.
unfoldable pub settle_operation :
    ⦃t : Tokens⦄ → Env → AccountId → ℕ → Session → Action → ℕ × ℕ → Result LendingPoolError Session
settle_operation env on_behalf_of first g action interests = do
  let record { op = op; asset = asset; amount = amount } = action
  let s = g.storage
  tokens ← unwrap (s.reserve_abacus_tokens asset)
  (elim op [
    | Operation.deposit ↦ do
      calls ← transfer_in env s asset env.caller amount g.calls
      calls' ← mirror_deposit tokens on_behalf_of interests amount calls
      ok (record g {
        calls = calls';
        events = g.events ++ Event.deposit asset env.caller on_behalf_of amount ∷ [];
      })
    | Operation.withdraw ↦ do
      calls ← transfer_out s asset env.caller amount g.calls
      calls' ← mirror_withdraw env tokens on_behalf_of interests first calls
      ok (record g {
        calls = calls';
        events = g.events ++ Event.withdraw asset env.caller on_behalf_of amount ∷ [];
      })
    | Operation.borrow ↦ do
      calls ← transfer_out s asset env.caller amount g.calls
      calls' ← mirror_borrow env tokens on_behalf_of interests amount calls
      ok (record g {
        calls = calls';
        events = g.events ++ Event.borrow asset env.caller on_behalf_of amount ∷ [];
      })
    | Operation.repay ↦ do
      calls ← transfer_in env s asset env.caller amount g.calls
      calls' ← mirror_repay tokens on_behalf_of interests first calls
      ok (record g {
        calls = calls';
        events = g.events ++ Event.repay asset env.caller on_behalf_of amount ∷ [];
      })
  ])

-- The actions with their amounts as they are after the accounting.
abbrev pub with_amounts : List Action → List ℕ → List Action
with_amounts (a ∷ actions) (n ∷ amounts) = record a { amount = n } ∷ with_amounts actions amounts
with_amounts actions amounts = []

-- The loop over the results; an action that is missing is an index out of range.
unfoldable pub settle_operations :
    ⦃t : Tokens⦄
    → Env
    → AccountId
    → ℕ
    → Session
    → List Action
    → List (ℕ × ℕ)
    → Result LendingPoolError Session
unfolding settle_operation
settle_operations env on_behalf_of first g actions [] = ok g
settle_operations env on_behalf_of first g [] (interests ∷ rest) = panic
settle_operations env on_behalf_of first g (a ∷ actions) (interests ∷ rest) = do
  g' ← settle_operation env on_behalf_of first g a interests
  settle_operations env on_behalf_of first g' actions rest

-- The amount of `actions[0]`, which is read in the loop only.
abbrev pub first_amount : List ℕ → ℕ
first_amount [] = 0
first_amount (n ∷ amounts) = n

unfoldable pub multi_op :
    ⦃p : Pendzl⦄ ⦃o : Oracles⦄ ⦃t : Tokens⦄
    → Env
    → Session
    → List Action
    → AccountId
    → Result LendingPoolError Session
multi_op env g actions on_behalf_of = do
  (s, results, amounts) ←
      account_for_account_actions g.storage on_behalf_of actions env.block_timestamp
  settle_operations env on_behalf_of (first_amount amounts) (record g { storage = s })
      (with_amounts actions amounts) results
