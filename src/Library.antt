-- ===== src/Library.antt =====
-- library/: the `abax_library` crate.
pub mod MulDiv
pub mod Math
pub mod InterestRate
pub mod Reserve
pub mod Indexes
pub mod Restrictions
pub mod Account
pub mod AssetRules
pub mod TimeWeighted
