-- ===== src/Vault.antt =====
-- backstop_vault: the contract (Model), what its operations find and write (Success), its totals
-- against the liquidity providers' entries (Totals), and the price of a share (Price).
pub mod Model
pub mod Success
pub mod Totals
pub mod Price
mod Examples
