-- ===== src/Contract.antt =====
-- src/contracts/core/lending_pool/lib.rs: the contract, which hands each message on to its handler,
-- and the states that it can reach.
pub mod Registrar
pub mod Message
pub mod Dispatch
pub mod Access
pub mod Handlers
pub mod Reach
