-- ===== src/AbacusToken.antt =====
-- The wrapped tokens: src/contract_modules/abacus_token and src/contracts/core/a_token, v_token.
pub mod State
pub mod AToken
pub mod VToken
pub mod Allowance
