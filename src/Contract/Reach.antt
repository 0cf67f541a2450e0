-- ===== src/Contract/Reach.antt =====
-- The states that the contract reaches from its construction, and what holds in each of them.
use mathlib.Core.Path.{subst}
use abacus_protocol.Base.{ℕ, List, ◌≡◌, ok, Ensures, arith}
use abacus_protocol.Library.MulDiv.{Pendzl}
use abacus_protocol.Pool.Storage.{AccountId}
use abacus_protocol.Messages.Session.{Session}
use abacus_protocol.Messages.Flash.{open_flash_loan, collect}
use abacus_protocol.Messages.Registry.{Registered, open_flash_loan-Registered, collect-Registered}
use abacus_protocol.Contract.Registrar.{
  AccountRegistrar, Numbered, KeepsCounters, ensure_registered, written_back,
}
use abacus_protocol.Contract.Message.{
  LendingPool, UserMessage, ManageMessage, Surroundings, new_pool,
}
use abacus_protocol.Contract.Dispatch.{register_for, execute, execute_manage}
use abacus_protocol.Contract.Handlers.{handle-Registered, manage-Registered}

-- From one state to another by accepted messages. A flash loan has three parts: what happens before
-- the receiver is called, what the receiver brings about by messages of its own, and what happens
-- after, when the registrar is written back as the first part loaded it.
pub data Reach ⦃p : Pendzl⦄ : LendingPool → LendingPool → Type 0 where
  done : {start : LendingPool} → Reach start start
  message :
      {start c c' : LendingPool} (w : Surroundings) (m : UserMessage)
      → Reach start c
      → execute w c m ≡ ok c'
      → Reach start c'
  management :
      {start c c' : LendingPool} (w : Surroundings) (m : ManageMessage)
      → Reach start c
      → execute_manage w c m ≡ ok c'
      → Reach start c'
  flash_loan :
      {start c c' : LendingPool} {lent final : Session} {fees : List ℕ} (w : Surroundings)
      (receiver : AccountId) (assets : List AccountId) (amounts : List ℕ)
      → Reach start c
      → open_flash_loan ⦃o = w.oracles⦄ ⦃t = w.tokens⦄ w.env c.session receiver assets amounts
        ≡ ok (lent, fees)
      → Reach (record c { session = lent }) c'
      → collect ⦃t = w.tokens⦄ w.env receiver assets amounts fees c'.session ≡ ok final
      → Reach start (record { session = final; registrar = written_back c.registrar c'.registrar })

-- The registry of the assets and the numbering of the accounts.
abbrev pub IsSound : LendingPool → Type 0
IsSound c = Registered c.session × Numbered c.registrar

ensure_registered-Numbered :
    (r : AccountRegistrar) (account : AccountId)
    → Numbered r
    → Ensures (λ r'. Numbered r' × KeepsCounters r r') (ensure_registered r account)
unfolding ensure_registered
ensure_registered-Numbered r account (counters, accounts, numbered) =
    ground (arith, counters, accounts, numbered)

register_for-Numbered :
    (m : UserMessage) (caller : AccountId) (r : AccountRegistrar)
    → Numbered r
    → Ensures (λ r'. Numbered r' × KeepsCounters r r') (register_for m caller r)
register_for-Numbered (UserMessage.set_as_collateral asset to_set) caller r h =
    ensure_registered-Numbered r caller h
register_for-Numbered m caller r h = (h, λ counter used. used)

-- A sound state in which no counter has fallen out of use.
abbrev Follows : LendingPool → LendingPool → Type 0
Follows c c' = IsSound c' × KeepsCounters c.registrar c'.registrar

module _ ⦃p : Pendzl⦄ (w : Surroundings) (c : LendingPool) (sound : IsSound c) where
  execute-Follows : (m : UserMessage) → Ensures (Follows c) (execute w c m)
  unfolding execute
  execute-Follows m = grind (
    arith,
    register_for-Numbered m w.env.caller c.registrar sound.1,
    handle-Registered w c.session sound.0 m,
  )

  execute_manage-Follows : (m : ManageMessage) → Ensures (Follows c) (execute_manage w c m)
  unfolding execute_manage
  execute_manage-Follows m = grind (arith, manage-Registered w c.session sound.0 m, sound.1)

Follows-trans : (a b c : LendingPool) → Follows a b → Follows b c → Follows a c
Follows-trans a b c (sound, kept) (sound', kept') = (sound', λ n used. kept' n (kept n used))

-- The registrar that a flash loan writes back.
written_back-Numbered :
    (loaded left : AccountRegistrar)
    → Numbered loaded
    → Numbered left
    → KeepsCounters loaded left
    → Numbered (written_back loaded left) × KeepsCounters loaded (written_back loaded left)
unfolding written_back
written_back-Numbered loaded left (counters, accounts, numbered) (counters', accounts', numbered')
      kept =
    ((counters', accounts', λ n below. kept n (numbered n below)), kept)

Reach-Follows :
    ⦃p : Pendzl⦄ {start c : LendingPool} → Reach start c → IsSound start → Follows start c
Reach-Follows done h = (h, λ n used. used)
Reach-Follows (message {start = s} {c = c} {c' = c'} w m before accepted) h =
    let sofar = Reach-Follows before h in
    Follows-trans s c c' sofar
      (subst (Ensures (Follows c)) accepted (execute-Follows w c (sofar.0) m))
Reach-Follows (management {start = s} {c = c} {c' = c'} w m before accepted) h =
    let sofar = Reach-Follows before h in
    Follows-trans s c c' sofar
      (subst (Ensures (Follows c)) accepted (execute_manage-Follows w c (sofar.0) m))
Reach-Follows
      (flash_loan {start = s} {c = c} {c' = c'} {lent = lent} {fees = fees} w receiver assets
        amounts before opened meanwhile collected)
      h =
    let (sound, kept) = Reach-Follows before h in
    let registered : Registered lent = subst (Ensures (λ (g', fees'). Registered g')) opened (
      open_flash_loan-Registered w.env c.session sound.0 ⦃o = w.oracles⦄ ⦃t = w.tokens⦄ receiver
        assets amounts) in
    let (after, kept') = Reach-Follows meanwhile (registered, sound.1) in
    let back = written_back-Numbered c.registrar c'.registrar sound.1 after.1 kept' in
    (
      (
        subst (Ensures Registered) collected (
            collect-Registered ⦃t = w.tokens⦄ w.env receiver assets amounts fees c'.session
              after.0),
        back.0,
      ),
      λ n used. back.1 n (kept n used),
    )

new_pool-IsSound : IsSound new_pool
new_pool-IsSound = ground arith

-- In each state that the contract reaches from its construction by accepted messages, flash loans
-- and what their receivers do in between among them: the two asset maps are inverse to each
-- other, the ids in use are those below the next one, each has a complete reserve, a registered
-- account has a counter that is in use, the account at a counter has that counter, and the
-- counters below the next one are in use.
pub reachable-IsSound : ⦃p : Pendzl⦄ (c : LendingPool) → Reach new_pool c → IsSound c
reachable-IsSound c reach = (Reach-Follows reach new_pool-IsSound).0
