-- ===== src/Registry.antt =====
-- proof_registry/src/lib.rs: the registry and its operations (Model), the strings it stores (Hex),
-- what a received message does (Received), the invariants of its runs (Runs, Replays), the way of a
-- deposit from its payload to a proof (Delivery), and concrete runs (Examples).
pub mod Model
pub mod Hex
pub mod Decoded
pub mod Received
pub mod Runs
pub mod Replays
pub mod Delivery
mod Examples
