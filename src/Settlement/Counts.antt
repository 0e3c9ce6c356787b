-- ===== src/Settlement/Counts.antt =====
-- The contract's counters against what they count: the open intents, and the intents that each
-- solver holds. One lemma for each way in which an operation changes the two maps.
pub mod Lifecycle
pub mod Escrowed
pub mod Bonded
pub mod Moves
pub mod Pruned
pub mod Extended
