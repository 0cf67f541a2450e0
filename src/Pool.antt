-- ===== src/Pool.antt =====
-- src/contract_modules/lending_pool: the lending pool's storage and its accounting.
pub mod Storage
pub mod Snapshot
pub mod Reserve
pub mod Power
pub mod Lending
pub mod Transfer
pub mod Liquidation
pub mod Utilization
pub mod Management
