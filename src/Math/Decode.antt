-- ===== src/Math/Decode.antt =====
-- intent_settlement/src/math.rs: big-endian numbers in a slice of bytes, and the proof payload.
use vortex_contracts.Base.{
  ℕ, ◌+◌, ◌-◌, ◌*◌, not, Option, none, some, List, [], ◌∷◌, ltb, ◌==◌, if◌then◌else◌, length,
}
use vortex_contracts.Base.Checked.{i128_bound, u64_bound}
use vortex_contracts.Base.Int.{ℤ, pos, negsuc}
use vortex_contracts.Base.Lists.{take, drop}

-- The value of bytes after those that gave `acc`.
unfoldable pub be_value : ℕ → List ℕ → ℕ
be_value acc [] = acc
be_value acc (b ∷ bs) = be_value (acc * 256 + b) bs

-- `n` bytes from an offset, if the slice has them. A `usize` is taken to have 64 bits.
unfoldable pub slice : ℕ → List ℕ → ℕ → Option (List ℕ)
slice n bytes offset =
    if ltb (offset + n) u64_bound
    then (if ltb (length bytes) (offset + n) then none else some (take n (drop offset bytes)))
    else none

-- Two's complement on 128 bits.
abbrev pub from_bits : ℕ → ℤ
from_bits v = if ltb v i128_bound then pos v else negsuc (i128_bound + i128_bound - v - 1)

unfoldable pub decode_i128_be : List ℕ → ℕ → Option ℤ
unfolding slice be_value
decode_i128_be bytes offset = elim (slice 16 bytes offset) [
  | none ↦ none
  | some bs ↦ some (from_bits (be_value 0 bs))
]

unfoldable pub decode_u32_be : List ℕ → ℕ → Option ℕ
unfolding slice be_value
decode_u32_be bytes offset = elim (slice 4 bytes offset) [
  | none ↦ none
  | some bs ↦ some (be_value 0 bs)
]

unfoldable pub decode_u16_be : List ℕ → ℕ → Option ℕ
unfolding slice be_value
decode_u16_be bytes offset = elim (slice 2 bytes offset) [
  | none ↦ none
  | some bs ↦ some (be_value 0 bs)
]

unfoldable pub decode_payload_chain_id : List ℕ → Option ℕ
unfolding decode_u16_be
decode_payload_chain_id payload =
    if not (length payload == 102) then none else decode_u16_be payload 52

unfoldable pub decode_payload_src_amount : List ℕ → Option ℤ
unfolding decode_i128_be
decode_payload_src_amount payload =
    if not (length payload == 102) then none else decode_i128_be payload 86
