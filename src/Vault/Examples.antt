-- ===== src/Vault/Examples.antt =====
-- The theorems of the vault at a concrete run (Core): a deposit, and its withdrawal.
mod Core
mod Claims
