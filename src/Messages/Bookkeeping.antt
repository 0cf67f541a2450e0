-- ===== src/Messages/Bookkeeping.antt =====
-- The messages of the four operations: the tokens are told what the books of the pool say.
use mathlib.Core.Path.{subst}
use abacus_protocol.Base.{
  ℕ, ◌≡◌, ◌<◌, ◌≢◌, List, some, arith, Ensures, ◌^◌, ok, Result, ◌>>=◌, is_ok, is_ok-value,
  Result-cases, inl, inr, true, sym,
}
use abacus_protocol.Errors.{LendingPoolError}
use abacus_protocol.Library.MulDiv.{Pendzl}
use abacus_protocol.Pool.Storage.{
  AccountId, LendingPoolStorage, ReserveAbacusTokens, Oracles, get_account_datas,
}
use abacus_protocol.Pool.Lending.{Operation}
use abacus_protocol.Pool.Lending.Conservation.{deposit_of, debt_of}
use abacus_protocol.Pool.Lending.Booking.{Booked, account_for_account_actions-Booked}
use abacus_protocol.Messages.Session.{Env, Call, Session, Tokens}
use abacus_protocol.Messages.Internal.{transfer_in, transfer_out}
use abacus_protocol.Messages.Told.{transfer_in-Told, transfer_out-Told}
use abacus_protocol.Messages.Mirror.{
  Mirrored, Both, transfer-Both, mirror_deposit-Mirrored, mirror_withdraw-Mirrored,
  mirror_borrow-Mirrored, mirror_repay-Mirrored,
}
use abacus_protocol.Messages.Accounts.{
  mirror_deposit, mirror_withdraw, mirror_borrow, mirror_repay, account_for_one, deposit, withdraw,
  borrow, repay,
}

-- The balances of an account in the asset of an id.
abbrev pub deposit_in : LendingPoolStorage → AccountId → ℕ → ℕ
deposit_in s account id = deposit_of (get_account_datas s account) id

abbrev pub debt_in : LendingPoolStorage → AccountId → ℕ → ℕ
debt_in s account id = debt_of (get_account_datas s account) id

-- The message of an operation.
abbrev pub operate :
    ⦃p : Pendzl⦄ ⦃o : Oracles⦄ ⦃t : Tokens⦄
    → Operation
    → Env
    → Session
    → AccountId
    → AccountId
    → ℕ
    → Result LendingPoolError Session
operate Operation.deposit env g asset account amount = deposit env g asset account amount
operate Operation.withdraw env g asset account amount = do
  (g', paid) ← withdraw env g asset account amount
  ok g'
operate Operation.borrow env g asset account amount = borrow env g asset account amount
operate Operation.repay env g asset account amount = do
  (g', paid) ← repay env g asset account amount
  ok g'

-- A withdrawal is sent by the account itself.
abbrev pub IsOwn : Operation → Env → AccountId → Type 0
IsOwn Operation.withdraw env account = env.caller ≡ account
IsOwn op env account = Unit

module _ ⦃p : Pendzl⦄ ⦃o : Oracles⦄ where
  one-Booked :
      (env : Env) (g : Session) (op : Operation) (asset account : AccountId) (amount id : ℕ)
      → g.storage.asset_to_id asset ≡ some id
      → Ensures
          (λ (s, x, n).
            Booked op amount
              (deposit_in g.storage account id)
              (debt_in g.storage account id)
              x
              n
              (deposit_in s account id)
              (debt_in s account id)
            × (s.reserve_abacus_tokens ≡ g.storage.reserve_abacus_tokens))
          (account_for_one env g op asset account amount)
  unfolding account_for_one
  one-Booked env g op asset account amount id known = grind (
    arith,
    account_for_account_actions-Booked g.storage account asset op amount env.block_timestamp id
        known,
  )

-- The balances of an account in an asset are small enough to be the size of an `i128`.
abbrev pub Small : LendingPoolStorage → AccountId → ℕ → Type 0
Small s account id = (deposit_in s account id < 2 ^ 127) × (debt_in s account id < 2 ^ 127)

-- What both tokens of an asset have been told of an account has moved as its balances have.
abbrev pub Mirrors : ReserveAbacusTokens → AccountId → ℕ → Session → Session → Type 0
Mirrors tokens account id g g' =
    Mirrored tokens.a_token_address account g.calls g'.calls (deposit_in g.storage account id)
      (deposit_in g'.storage account id)
    × Mirrored tokens.v_token_address account g.calls g'.calls (debt_in g.storage account id)
        (debt_in g'.storage account id)

module _ ⦃p : Pendzl⦄ ⦃o : Oracles⦄ ⦃t : Tokens⦄ (env : Env) (g : Session)
    (asset account : AccountId) (amount id : ℕ) (tokens : ReserveAbacusTokens)
    (known : g.storage.asset_to_id asset ≡ some id)
    (listed : g.storage.reserve_abacus_tokens asset ≡ some tokens)
    (apart : tokens.a_token_address ≢ tokens.v_token_address) (small : Small g.storage account id)
    (g' : Session) (small' : Small g'.storage account id) where
  -- What both tokens are told of an account whose balances become those of a storage.
  abbrev Tells : LendingPoolStorage → List Call → List Call → Type 0
  Tells s calls calls' =
      Both tokens account (deposit_in g.storage account id) (deposit_in s account id)
        (debt_in g.storage account id) (debt_in s account id) calls calls'

  abbrev BookedIn : Operation → LendingPoolStorage → ℕ × ℕ → ℕ → Type 0
  BookedIn op s x n =
      Booked op amount (deposit_in g.storage account id) (debt_in g.storage account id) x n
        (deposit_in s account id) (debt_in s account id)

  -- An operation has an accounting and a rest, which is about the calls only.
  finished :
      (op : Operation) (rest : LendingPoolStorage → ℕ × ℕ → ℕ → Result LendingPoolError (List Call))
      → is_ok (account_for_one env g op asset account amount) ≡ true
      → ((s : LendingPoolStorage) (x : ℕ × ℕ) (n : ℕ)
          → account_for_one env g op asset account amount ≡ ok (s, x, n)
          → s.reserve_abacus_tokens asset ≡ some tokens
          → (g'.storage ≡ s) × (rest s x n ≡ ok g'.calls))
      → ((s : LendingPoolStorage) (x : ℕ × ℕ) (n : ℕ)
          → BookedIn op s x n
          → Small s account id
          → Ensures (Tells s g.calls) (rest s x n))
      → Mirrors tokens account id g g'
  finished op rest done parts tells =
      let ((s, x, n), e) = is_ok-value (account_for_one env g op asset account amount) done in
      let (booked, same) =
        subst (Ensures _) e (one-Booked env g op asset account amount id known) in
      let (kept, told) = parts s x n e (rw same listed) in
      let still_small : Small s account id = subst (λ s'. Small s' account id) kept small' in
      subst (λ s'. Tells s' g.calls g'.calls) (sym kept)
        (subst (Ensures (Tells s g.calls)) told (tells s x n booked still_small))

  deposit-Mirrors : deposit env g asset account amount ≡ ok g' → Mirrors tokens account id g g'
  unfolding deposit
  deposit-Mirrors accepted =
      finished Operation.deposit
        (λ s x n.
          transfer_in env s asset env.caller n g.calls >>= mirror_deposit tokens account x amount)
        (grind (arith, accepted)) (λ s x n e held. grind (arith, e, held, accepted))
        (λ s x n (asked, hd, hb) (sd, sb).
          transfer-Both tokens account g.calls (deposit_in g.storage account id)
            (deposit_in s account id) (debt_in g.storage account id) (debt_in s account id)
            (transfer_in env s asset env.caller n g.calls) (mirror_deposit tokens account x amount)
            (transfer_in-Told tokens.a_token_address account g.calls env s asset env.caller n)
            (transfer_in-Told tokens.v_token_address account g.calls env s asset env.caller n)
            (λ calls.
              mirror_deposit-Mirrored tokens account calls apart (deposit_in g.storage account id)
                (deposit_in s account id) (debt_in g.storage account id) (debt_in s account id) x.0
                x.1 amount (ground arith) (ground arith) sd sb))

  withdraw-Mirrors :
      (paid : ℕ)
      → env.caller ≡ account
      → withdraw env g asset account amount ≡ ok (g', paid)
      → Mirrors tokens account id g g'
  unfolding withdraw
  withdraw-Mirrors paid own accepted =
      finished Operation.withdraw
        (λ s x n.
          transfer_out s asset env.caller n g.calls >>= mirror_withdraw env tokens account x n)
        (grind (arith, accepted)) (λ s x n e held. grind (arith, e, held, accepted))
        (λ s x n (asked, hd, hb) (sd, sb).
          transfer-Both tokens account g.calls (deposit_in g.storage account id)
            (deposit_in s account id) (debt_in g.storage account id) (debt_in s account id)
            (transfer_out s asset env.caller n g.calls) (mirror_withdraw env tokens account x n)
            (transfer_out-Told tokens.a_token_address account g.calls s asset env.caller n)
            (transfer_out-Told tokens.v_token_address account g.calls s asset env.caller n)
            (λ calls.
              mirror_withdraw-Mirrored tokens account calls apart (deposit_in g.storage account id)
                (deposit_in s account id) (debt_in g.storage account id) (debt_in s account id) x.0
                x.1 n env own (ground arith) (ground arith) small.0 sd sb))

  borrow-Mirrors : borrow env g asset account amount ≡ ok g' → Mirrors tokens account id g g'
  unfolding borrow
  borrow-Mirrors accepted =
      finished Operation.borrow
        (λ s x n.
          transfer_out s asset env.caller amount g.calls
          >>= mirror_borrow env tokens account x amount)
        (grind (arith, accepted)) (λ s x n e held. grind (arith, e, held, accepted))
        (λ s x n (asked, hd, hb) (sd, sb).
          transfer-Both tokens account g.calls (deposit_in g.storage account id)
            (deposit_in s account id) (debt_in g.storage account id) (debt_in s account id)
            (transfer_out s asset env.caller amount g.calls)
            (mirror_borrow env tokens account x amount)
            (transfer_out-Told tokens.a_token_address account g.calls s asset env.caller amount)
            (transfer_out-Told tokens.v_token_address account g.calls s asset env.caller amount)
            (λ calls.
              mirror_borrow-Mirrored tokens account calls apart (deposit_in g.storage account id)
                (deposit_in s account id) (debt_in g.storage account id) (debt_in s account id) x.0
                x.1 amount env (ground arith) (ground arith) sd sb))

  repay-Mirrors :
      (paid : ℕ) → repay env g asset account amount ≡ ok (g', paid) → Mirrors tokens account id g g'
  unfolding repay
  repay-Mirrors paid accepted =
      finished Operation.repay
        (λ s x n. transfer_in env s asset env.caller n g.calls >>= mirror_repay tokens account x n)
        (grind (arith, accepted)) (λ s x n e held. grind (arith, e, held, accepted))
        (λ s x n (asked, hd, hb) (sd, sb).
          transfer-Both tokens account g.calls (deposit_in g.storage account id)
            (deposit_in s account id) (debt_in g.storage account id) (debt_in s account id)
            (transfer_in env s asset env.caller n g.calls) (mirror_repay tokens account x n)
            (transfer_in-Told tokens.a_token_address account g.calls env s asset env.caller n)
            (transfer_in-Told tokens.v_token_address account g.calls env s asset env.caller n)
            (λ calls.
              mirror_repay-Mirrored tokens account calls apart (deposit_in g.storage account id)
                (deposit_in s account id) (debt_in g.storage account id) (debt_in s account id) x.0
                x.1 n (ground arith) (ground arith) sd small.1 sb))

  -- An accepted message of one of the four operations, on an asset with two distinct tokens, for
  -- an account whose balances are below 2^127 before and after, and sent by the account itself
  -- where it is a withdrawal: what each token has been told of the account moves by as much as
  -- its stored deposit and its stored debt.
  pub operate-Mirrors :
      (op : Operation)
      → IsOwn op env account
      → operate op env g asset account amount ≡ ok g'
      → Mirrors tokens account id g g'
  operate-Mirrors Operation.deposit own accepted = deposit-Mirrors accepted
  operate-Mirrors Operation.withdraw own accepted =
      elim (Result-cases (withdraw env g asset account amount)) [
        | inl ((g'', paid), e) ↦ withdraw-Mirrors paid own (grind (arith, e, accepted))
        | inr (inl (f, e)) ↦ absurd (grind (arith, e, accepted))
        | inr (inr e) ↦ absurd (grind (arith, e, accepted))
      ]
  operate-Mirrors Operation.borrow own accepted = borrow-Mirrors accepted
  operate-Mirrors Operation.repay own accepted =
      elim (Result-cases (repay env g asset account amount)) [
        | inl ((g'', paid), e) ↦ repay-Mirrors paid (grind (arith, e, accepted))
        | inr (inl (f, e)) ↦ absurd (grind (arith, e, accepted))
        | inr (inr e) ↦ absurd (grind (arith, e, accepted))
      ]
