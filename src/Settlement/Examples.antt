-- ===== src/Settlement/Examples.antt =====
-- The theorems of the settlement contract at a concrete run (Core): their examples, by subject.
mod Core
mod Closing
mod Claims
