-- ===== src/Streams.antt =====
-- treasury_streams: the contract (Model), the vesting curve (Vesting), what the contract holds
-- against what it owes (Books), and the rest of the operations' behaviour (Calls).
pub mod Model
pub mod Vesting
pub mod Success
pub mod Ids
pub mod Books
pub mod Behaviour
mod Examples
