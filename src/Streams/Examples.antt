-- ===== src/Streams/Examples.antt =====
-- The theorems of the streams at a concrete run (Core): a stream is created, drawn, and extended.
mod Core
mod Claims
