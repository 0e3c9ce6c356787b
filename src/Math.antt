-- ===== src/Math.antt =====
-- intent_settlement/src/math.rs: the pure helpers (Formulas), the payload bytes (Decode), their
-- bounds (Bounds), their agreement with the contract (Agreement), and the decoding of what was
-- encoded (Encode).
pub mod Formulas
pub mod Decode
pub mod Bounds
pub mod Agreement
pub mod Encode
mod Examples
