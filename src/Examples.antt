-- ===== src/Examples.antt =====
-- A pool with two assets and three accounts, and the theorems applied to it. Asset 100 has the id 0
-- and asset 200 the id 1; account 7 holds a deposit of asset 100 as its collateral, account 8 holds a
-- debt of asset 200 as well, and account 9 has nothing.
pub mod World
pub mod Library
pub mod Lending
pub mod Pool
pub mod Runs
pub mod Messages
pub mod Liquidate
pub mod Contract
