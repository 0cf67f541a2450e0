-- ===== src/Messages.antt =====
-- src/contract_modules/lending_pool/implementation: the messages of the lending pool around its
-- storage, each as a function of the session that it runs in.
pub mod Session
pub mod Internal
pub mod Accounts
pub mod MultiOp
pub mod Liquidate
pub mod Payments
pub mod Flash
pub mod TokenInterface
pub mod Roles
pub mod Manage
pub mod Maintain
pub mod View
pub mod Registry
pub mod Told
pub mod Mirror
pub mod Bookkeeping
