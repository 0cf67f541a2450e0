-- ===== src/Messages/Mirror.antt =====
-- After each of the four operations, what the two abacus tokens have been told of the account has
-- moved by as much as its balances in the pool.
use abacus_protocol.Base.{
  ℕ, ◌+◌, ◌≡◌, ◌<◌, ◌≢◌, inl, inr, sym, false, List, arith, Ensures, ◌^◌, ok, err, panic, Result,
  Ensures-map, ◌>>=◌,
}
use abacus_protocol.Errors.{LendingPoolError}
use abacus_protocol.Pool.Storage.{AccountId, ReserveAbacusTokens}
use abacus_protocol.Messages.Session.{Env, Call, Tokens}
use abacus_protocol.Messages.Internal.{is_negative, signed_difference}
use abacus_protocol.Messages.Told.{
  gained, lost, Told, positive, negative, emit-Told, emit-Told_other, emit_decrease-Told,
  emit_decrease-Told_other,
}
use abacus_protocol.Messages.Accounts.{mirror_deposit, mirror_withdraw, mirror_borrow, mirror_repay}

-- What a token has been told of an account moves as a balance does.
abbrev pub Mirrored : AccountId → AccountId → List Call → List Call → ℕ → ℕ → Type 0
Mirrored token account calls calls' before after =
    after + lost token account calls' + gained token account calls
    ≡ before + gained token account calls' + lost token account calls

-- The same of the two tokens of an asset, for a deposit and a debt.
abbrev pub Both : ReserveAbacusTokens → AccountId → ℕ → ℕ → ℕ → ℕ → List Call → List Call → Type 0
Both tokens account D D' B B' calls calls' =
    Mirrored tokens.a_token_address account calls calls' D D'
    × Mirrored tokens.v_token_address account calls calls' B B'

-- The two parts of a difference move a balance as the difference does.
signed_difference_lem :
    (before after interest amount : ℕ)
    → after + amount ≡ before + interest
    → before < 2 ^ 127
    → after < 2 ^ 127
    → after + negative (signed_difference interest amount)
      ≡ before + positive (signed_difference interest amount)
signed_difference_lem before after interest amount moved small small' = ground arith

module _ ⦃t : Tokens⦄ (tokens : ReserveAbacusTokens) (account : AccountId) (calls : List Call)
    (apart : tokens.a_token_address ≢ tokens.v_token_address) (D D' B B' di bi n : ℕ) where
  apart-sym : tokens.v_token_address ≢ tokens.a_token_address
  apart-sym e = apart (sym e)

  pub mirror_deposit-Mirrored :
      D' ≡ D + di + n
      → B' ≡ B + bi
      → D' < 2 ^ 127
      → B' < 2 ^ 127
      → Ensures
          (Both tokens account D D' B B' calls)
          (mirror_deposit tokens account (di, bi) n calls)
  unfolding mirror_deposit
  mirror_deposit-Mirrored hd hb sd sb = grind (
    arith,
    emit-Told tokens.a_token_address account calls (di + n),
    emit-Told_other tokens.v_token_address account calls tokens.a_token_address (di + n) apart,
    λ (calls' : List Call). emit-Told tokens.v_token_address account calls' bi,
    λ (calls' : List Call).
        emit-Told_other tokens.a_token_address account calls' tokens.v_token_address bi apart-sym,
  )

  pub mirror_withdraw-Mirrored :
      (env : Env)
      → env.caller ≡ account
      → D' + n ≡ D + di
      → B' ≡ B + bi
      → D < 2 ^ 127
      → D' < 2 ^ 127
      → B' < 2 ^ 127
      → Ensures
          (Both tokens account D D' B B' calls)
          (mirror_withdraw env tokens account (di, bi) n calls)
  unfolding mirror_withdraw
  mirror_withdraw-Mirrored env own hd hb sd sd' sb =
      let d = signed_difference di n in
      grind (
        arith,
        signed_difference_lem D D' di n hd sd sd',
        emit_decrease-Told tokens.a_token_address account calls d env.caller n (inr own),
        emit_decrease-Told_other tokens.v_token_address account calls tokens.a_token_address d
            env.caller n apart,
        λ (calls' : List Call). emit-Told tokens.v_token_address account calls' bi,
        λ (calls' : List Call).
            emit-Told_other tokens.a_token_address account calls' tokens.v_token_address bi
              apart-sym,
      )

  pub mirror_borrow-Mirrored :
      (env : Env)
      → D' ≡ D + di
      → B' ≡ B + bi + n
      → D' < 2 ^ 127
      → B' < 2 ^ 127
      → Ensures
          (Both tokens account D D' B B' calls)
          (mirror_borrow env tokens account (di, bi) n calls)
  unfolding mirror_borrow
  mirror_borrow-Mirrored env hd hb sd sb =
      let small : is_negative (bi + n) ≡ false = ground arith in
      grind (
        arith,
        emit-Told tokens.a_token_address account calls di,
        emit-Told_other tokens.v_token_address account calls tokens.a_token_address di apart,
        λ (calls' : List Call).
            emit_decrease-Told tokens.v_token_address account calls' (bi + n) env.caller n
              (inl small),
        λ (calls' : List Call).
            emit_decrease-Told_other tokens.a_token_address account calls' tokens.v_token_address
              (bi + n) env.caller n apart-sym,
      )

  pub mirror_repay-Mirrored :
      D' ≡ D + di
      → B' + n ≡ B + bi
      → D' < 2 ^ 127
      → B < 2 ^ 127
      → B' < 2 ^ 127
      → Ensures (Both tokens account D D' B B' calls) (mirror_repay tokens account (di, bi) n calls)
  unfolding mirror_repay
  mirror_repay-Mirrored hd hb sd sb sb' =
      let d = signed_difference bi n in
      grind (
        arith,
        signed_difference_lem B B' bi n hb sb sb',
        emit-Told tokens.a_token_address account calls di,
        emit-Told_other tokens.v_token_address account calls tokens.a_token_address di apart,
        λ (calls' : List Call). emit-Told tokens.v_token_address account calls' d,
        λ (calls' : List Call).
            emit-Told_other tokens.a_token_address account calls' tokens.v_token_address d
              apart-sym,
      )

-- Calls that tell a token nothing do not matter.
moved-Mirrored :
    (token account : AccountId) (calls calls₁ calls₂ : List Call) (before after : ℕ)
    → Told token account calls 0 0 calls₁
    → Mirrored token account calls₁ calls₂ before after
    → Mirrored token account calls calls₂ before after
moved-Mirrored token account calls calls₁ calls₂ before after told mirrored = ground arith

-- A transfer of the asset, and then what the tokens are told.
pub transfer-Both :
    (tokens : ReserveAbacusTokens) (account : AccountId) (calls : List Call) (D D' B B' : ℕ)
    (transfer : Result LendingPoolError (List Call))
    (mirror : List Call → Result LendingPoolError (List Call))
    → Ensures (Told tokens.a_token_address account calls 0 0) transfer
    → Ensures (Told tokens.v_token_address account calls 0 0) transfer
    → ((calls₁ : List Call) → Ensures (Both tokens account D D' B B' calls₁) (mirror calls₁))
    → Ensures (Both tokens account D D' B B' calls) (transfer >>= mirror)
transfer-Both tokens account calls D D' B B' (ok calls₁) mirror ta tv h =
    Ensures-map (mirror calls₁)
      (λ calls₂ (ma, mv). (
        moved-Mirrored tokens.a_token_address account calls calls₁ calls₂ D D' ta ma,
        moved-Mirrored tokens.v_token_address account calls calls₁ calls₂ B B' tv mv,
      ))
      (h calls₁)
transfer-Both tokens account calls D D' B B' (err e) mirror ta tv h = tt
transfer-Both tokens account calls D D' B B' panic mirror ta tv h = tt
