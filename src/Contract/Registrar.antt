-- ===== src/Contract/Registrar.antt =====
-- src/contract_modules/account_registrar/implementation/storage/account_registrar.rs, and what the
-- contract shows of it.
use abacus_protocol.Base.{
  ℕ, ◌<◌, ◌≡◌, none, some, Option, Result, ok, unwrap, ◌>>=◌, Mapping, insert, contains,
  checked_add, u128_mod, if◌then◌else◌, is_some, true,
}
use abacus_protocol.Errors.{LendingPoolError}
use abacus_protocol.Pool.Storage.{AccountId}

pub record AccountRegistrar : Type 0 where
  pub counter_to_account : Mapping AccountId
  pub account_to_counter : Mapping ℕ
  pub next_counter : ℕ

abbrev pub new_registrar : AccountRegistrar
new_registrar = record {
  counter_to_account = λ n. none;
  account_to_counter = λ a. none;
  next_counter = 0;
}

unfoldable pub ensure_registered :
    AccountRegistrar → AccountId → Result LendingPoolError AccountRegistrar
ensure_registered r account =
    let registered = (do
      next ← unwrap (checked_add u128_mod r.next_counter 1)
      ok (record {
        counter_to_account = insert r.next_counter account r.counter_to_account;
        account_to_counter = insert account r.next_counter r.account_to_counter;
        next_counter = next;
      })) in
    if contains account r.account_to_counter then ok r else registered

unfoldable pub view_counter_to_account : AccountRegistrar → ℕ → Option AccountId
view_counter_to_account r counter = r.counter_to_account counter

unfoldable pub view_account_to_counter : AccountRegistrar → AccountId → Option ℕ
view_account_to_counter r account = r.account_to_counter account

unfoldable pub view_next_counter : AccountRegistrar → ℕ
view_next_counter r = r.next_counter

-- What is left of a registrar by a message in whose course other messages have run: the two maps are
-- kept by the host and are as the others left them, while `next_counter` is a field of the contract's
-- own cell, which is loaded when the message starts and written back when it ends.
unfoldable pub written_back : AccountRegistrar → AccountRegistrar → AccountRegistrar
written_back loaded left = record left { next_counter = loaded.next_counter }

-- A registered account has a counter that is in use, the account at a counter has that counter, and
-- the counters below the next one are in use.
abbrev pub Numbered : AccountRegistrar → Type 0
Numbered r =
    ((account counter : ℕ)
      → r.account_to_counter account ≡ some counter
      → is_some (r.counter_to_account counter) ≡ true)
    × ((counter account : ℕ)
        → r.counter_to_account counter ≡ some account
        → r.account_to_counter account ≡ some counter)
    × ((counter : ℕ) → counter < r.next_counter → is_some (r.counter_to_account counter) ≡ true)

-- No counter falls out of use.
abbrev pub KeepsCounters : AccountRegistrar → AccountRegistrar → Type 0
KeepsCounters r r' =
    (counter : ℕ)
    → is_some (r.counter_to_account counter) ≡ true
    → is_some (r'.counter_to_account counter) ≡ true
