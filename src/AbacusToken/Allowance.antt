-- ===== src/AbacusToken/Allowance.antt =====
-- What the allowances of an abacus token do.
use mathlib.Core.Path.{subst}
use abacus_protocol.Base.{
  ℕ, ◌+◌, ◌≡◌, ◌⊎◌, ◌≢◌, refl, arith, Ensures, ok, ==-refl, Ensures-map, Result-cases, Bool-cases,
  inl, inr, ltb, leb, true, ap, ◌∙◌, ◌-◌,
}
use abacus_protocol.Library.MulDiv.{Pendzl}
use abacus_protocol.Pool.Storage.{AccountId, Oracles}
use abacus_protocol.Pool.Power.{ensure_collateralized_by_account}
use abacus_protocol.Messages.Session.{Env, Session, Tokens}
use abacus_protocol.Messages.TokenInterface.{transfer_deposit_from_to}
use abacus_protocol.AbacusToken.State.{
  AbacusToken, allowance, insert_allowance, increase_allowance_from_to, decrease_allowance_from_to,
}
use abacus_protocol.AbacusToken.AToken.{update_deposit, transfer_from, pool_env}

increased :
    (t : AbacusToken) (owner spender : AccountId) (amount : ℕ)
    → Ensures
        (λ t'. t' ≡ insert_allowance t owner spender (allowance t owner spender + amount))
        (increase_allowance_from_to t owner spender amount)
unfolding increase_allowance_from_to
increased t owner spender amount = ground arith

decreased :
    (t : AbacusToken) (owner spender : AccountId) (a amount : ℕ)
    → decrease_allowance_from_to
        (insert_allowance t owner spender (a + amount))
        owner
        spender
        amount
      ≡ ok (insert_allowance (insert_allowance t owner spender (a + amount)) owner spender a)
unfolding decrease_allowance_from_to allowance
decreased t owner spender a amount =
    let back : a + amount - amount ≡ a = omega arith in
    rw (==-refl owner, ==-refl spender)
      (let enough : leb amount (a + amount) ≡ true = ground arith in rw (enough, back) refl)

restored :
    (t : AbacusToken) (owner spender : AccountId) (a o s : ℕ)
    → allowance
        (insert_allowance
          (insert_allowance t owner spender a)
          owner
          spender
          (allowance t owner spender))
        o
        s
      ≡ allowance t o s
unfolding allowance
restored t owner spender a o s = ground arith

-- An accepted increase of an allowance can be taken back by a decrease of the same amount, after
-- which each allowance is what it was.
pub increase-decrease :
    (t : AbacusToken) (owner spender : AccountId) (amount : ℕ)
    → Ensures
        (λ t'.
          (t'' : AbacusToken) × (decrease_allowance_from_to t' owner spender amount ≡ ok t'')
          × ((o s : AccountId) → allowance t'' o s ≡ allowance t o s))
        (increase_allowance_from_to t owner spender amount)
increase-decrease t owner spender amount =
    let a = allowance t owner spender in
    Ensures-map (increase_allowance_from_to t owner spender amount)
      (λ t' e. (
        insert_allowance (insert_allowance t owner spender (a + amount)) owner spender a,
        ap (λ t₁. decrease_allowance_from_to t₁ owner spender amount) e
            ∙ decreased t owner spender a amount,
        restored t owner spender (a + amount),
      ))
      (increased t owner spender amount)

decrease_allowance_from_to_lem :
    (t : AbacusToken) (owner spender : AccountId) (amount : ℕ)
    → Ensures
        (λ t'.
          (allowance t' owner spender + amount ≡ allowance t owner spender)
          × ((o s : AccountId) → (o ≢ owner) ⊎ (s ≢ spender) → allowance t' o s ≡ allowance t o s))
        (decrease_allowance_from_to t owner spender amount)
unfolding decrease_allowance_from_to allowance
decrease_allowance_from_to_lem t owner spender amount =
    grind (arith, ==-refl owner, ==-refl spender)

module _ ⦃p : Pendzl⦄ ⦃o : Oracles⦄ ⦃c : Tokens⦄ where
  transfer_deposit-IsCollateralized :
      (env : Env) (g : Session) (asset from to : AccountId) (amount : ℕ)
      → Ensures
          (λ (g', interests). ensure_collateralized_by_account g'.storage from ≡ ok tt)
          (transfer_deposit_from_to env g asset from to amount)
  unfolding transfer_deposit_from_to
  transfer_deposit-IsCollateralized env g asset from to amount = grind arith

  update_deposit-IsCollateralized :
      (env : Env) (t : AbacusToken) (g : Session) (from to : AccountId) (amount : ℕ)
      → Ensures
          (λ (t', g').
            (ensure_collateralized_by_account g'.storage from ≡ ok tt)
            × ((o s : AccountId) → allowance t' o s ≡ allowance t o s))
          (update_deposit env t g from to amount)
  unfolding update_deposit allowance
  update_deposit-IsCollateralized env t g from to amount = grind (
    arith,
    transfer_deposit-IsCollateralized (pool_env env t) g t.underlying_asset from to amount,
  )

  -- After an accepted transfer of aTokens on another account's behalf, that account passes the
  -- collateralization check in the storage that is left, its allowance for the caller has gone
  -- down by the amount, and all other allowances are as they were.
  pub transfer_from_lem :
      (env : Env) (t : AbacusToken) (g : Session) (from to : AccountId) (amount : ℕ)
      → Ensures
          (λ (t', g').
            (ensure_collateralized_by_account g'.storage from ≡ ok tt)
            × (allowance t' from env.caller + amount ≡ allowance t from env.caller)
            × ((o s : AccountId)
                → (o ≢ from) ⊎ (s ≢ env.caller)
                → allowance t' o s ≡ allowance t o s))
          (transfer_from env t g from to amount)
  unfolding transfer_from
  transfer_from_lem env t g from to amount =
      elim (Bool-cases (ltb (allowance t from env.caller) amount)) [
        | inl h ↦ rw h tt
        | inr h ↦ elim (Result-cases (decrease_allowance_from_to t from env.caller amount)) [
          | inl (t', e) ↦
              let (taken, others) =
                subst (Ensures _) e (decrease_allowance_from_to_lem t from env.caller amount) in
              rw (h, e)
                (Ensures-map (update_deposit env t' g from to amount)
                  (λ (t'', g') (checked, same).
                    (checked, rw (same from env.caller) taken, λ o s ne. same o s ∙ others o s ne))
                  (update_deposit-IsCollateralized env t' g from to amount))
          | inr (inl (f, e)) ↦ rw (h, e) tt
          | inr (inr e) ↦ rw (h, e) tt
        ]
      ]
