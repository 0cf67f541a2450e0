-- ===== src/Messages/Payments.antt =====
-- What the pool pays to an account and takes from it, from the calls of tokens that it has made.
use abacus_protocol.Base.{ℕ, ◌+◌, ◌≡◌, List, [], ◌∷◌, ◌++◌, arith, Ensures, ◌==◌, if◌then◌else◌}
use abacus_protocol.Pool.Storage.{AccountId, LendingPoolStorage}
use abacus_protocol.Messages.Session.{Env, Call, Tokens, invoke}
use abacus_protocol.Messages.Internal.{transfer_in, transfer_out}

-- The amount of an asset that a call moves to an account, and from it.
abbrev pub paid_by : AccountId → AccountId → Call → ℕ
paid_by asset account (Call.transfer a to n) =
    if a == asset then if to == account then n else 0 else 0
paid_by asset account (Call.mint a to n) = if a == asset then if to == account then n else 0 else 0
paid_by asset account call = 0

abbrev pub taken_by : AccountId → AccountId → Call → ℕ
taken_by asset account (Call.transfer_from a from to n) =
    if a == asset then if from == account then n else 0 else 0
taken_by asset account (Call.burn a from n) =
    if a == asset then if from == account then n else 0 else 0
taken_by asset account call = 0

abbrev pub paid_to : AccountId → AccountId → List Call → ℕ
paid_to asset account [] = 0
paid_to asset account (call ∷ calls) = paid_by asset account call + paid_to asset account calls

abbrev pub taken_from : AccountId → AccountId → List Call → ℕ
taken_from asset account [] = 0
taken_from asset account (call ∷ calls) =
    taken_by asset account call + taken_from asset account calls

paid_to-append :
    (asset account : AccountId) (calls : List Call) (call : Call)
    → paid_to asset account (calls ++ call ∷ [])
      ≡ paid_to asset account calls + paid_by asset account call
paid_to-append asset account [] call = omega arith
paid_to-append asset account (c ∷ calls) call =
    omega (arith, paid_to-append asset account calls call)

pub taken_from-append :
    (asset account : AccountId) (calls : List Call) (call : Call)
    → taken_from asset account (calls ++ call ∷ [])
      ≡ taken_from asset account calls + taken_by asset account call
taken_from-append asset account [] call = omega arith
taken_from-append asset account (c ∷ calls) call =
    omega (arith, taken_from-append asset account calls call)

module _ ⦃t : Tokens⦄ (asset receiver : AccountId) where
  pub transfer_out-paid :
      (s : LendingPoolStorage) (a : AccountId) (n : ℕ) (calls : List Call)
      → Ensures
          (λ calls'.
            paid_to asset receiver calls'
            ≡ paid_to asset receiver calls + (if a == asset then n else 0))
          (transfer_out s a receiver n calls)
  unfolding transfer_out invoke
  transfer_out-paid s a n calls =
      grind (arith, λ (call : Call). paid_to-append asset receiver calls call)

  pub transfer_in-taken :
      (env : Env) (s : LendingPoolStorage) (a : AccountId) (n : ℕ) (calls : List Call)
      → Ensures
          (λ calls'.
            taken_from asset receiver calls'
            ≡ taken_from asset receiver calls + (if a == asset then n else 0))
          (transfer_in env s a receiver n calls)
  unfolding transfer_in invoke
  transfer_in-taken env s a n calls =
      grind (arith, λ (call : Call). taken_from-append asset receiver calls call)
