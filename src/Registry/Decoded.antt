-- ===== src/Registry/Decoded.antt =====
-- What proof_registry decodes from a payload of 102 bytes.
use vortex_contracts.Base.{
  ℕ, zero, suc, ◌+◌, ◌-◌, ◌≡◌, ◌≤◌, ◌<◌, refl, some, List, [], ◌∷◌, arith, length, get_elem?, ok,
}
use vortex_contracts.Base.Lists.{take, drop, length-drop}
use vortex_contracts.Math.Decode.{be_value, from_bits}
use vortex_contracts.Registry.Model.{
  ProofRecord, byte, chain_id_of, read_bytes, slice, intent_id_of, hex_digits, decode_record,
}
use vortex_contracts.Registry.Hex.{bytes_to_hex_string-total}

-- The fields of a payload, each by its place.
abbrev pub id_at : List ℕ → ℕ
id_at payload = be_value 0 (slice payload 0 32)

abbrev pub chain_at : List ℕ → ℕ
chain_at payload = be_value 0 (slice payload 52 54)

abbrev pub record_at : List ℕ → ℕ → ℕ → ProofRecord
record_at payload sequence now = record {
  intent_id = id_at payload;
  src_user = 48 ∷ 120 ∷ hex_digits (slice payload 32 52);
  src_chain_id = chain_at payload;
  src_token = 48 ∷ 120 ∷ hex_digits (slice payload 54 86);
  src_amount = from_bits (be_value 0 (slice payload 86 102));
  vaa_sequence = sequence;
  received_at = now;
}

drop_at :
    (i : ℕ) (xs : List ℕ)
    → i < length xs
    → (b : ℕ) × (get_elem? xs i ≡ some b) × (drop i xs ≡ b ∷ drop (suc i) xs)
drop_at i [] h = absurd (omega (arith, h))
drop_at zero (x ∷ xs) h = (x, refl, refl)
drop_at (suc i) (x ∷ xs) h = drop_at i xs (omega (arith, h))

read_bytes-slice :
    (n : ℕ) (payload : List ℕ) (i : ℕ)
    → i + n ≤ length payload
    → read_bytes n payload i ≡ ok (take n (drop i payload))
unfolding read_bytes byte
read_bytes-slice zero payload i h = refl
read_bytes-slice (suc n) payload i h =
    let (b, p, q) = drop_at i payload (omega (arith, h)) in
    let rest = read_bytes-slice n payload (suc i) (omega (arith, h)) in ground (arith, p, q, rest)

length-take : (n : ℕ) (xs : List ℕ) → n ≤ length xs → length (take n xs) ≡ n
length-take zero xs h = refl
length-take (suc n) [] h = absurd (omega (arith, h))
length-take (suc n) (x ∷ xs) h = omega (arith, length-take n xs (omega (arith, h)))

module _ (payload : List ℕ) (full : length payload ≡ 102) where
  length-slice : (from to : ℕ) → from ≤ to → to ≤ 102 → length (slice payload from to) ≡ to - from
  length-slice from to h k =
      length-take (to - from) (drop from payload)
        (omega (arith, length-drop from payload, full, h, k))

  pub intent_id_of-at : intent_id_of payload ≡ ok (id_at payload)
  unfolding intent_id_of
  intent_id_of-at = ground (arith, length-slice 0 32 (omega arith) (omega arith))

  pub chain_id_of-at : chain_id_of payload ≡ ok (chain_at payload)
  unfolding chain_id_of byte be_value
  chain_id_of-at =
      let (hi, p, q) = drop_at 52 payload (omega (arith, full)) in
      let (lo, r, t) = drop_at 53 payload (omega (arith, full)) in ground (arith, p, q, r, t)

  pub decode_record-at :
      (sequence now : ℕ)
      → decode_record payload (id_at payload) (chain_at payload) sequence now
        ≡ ok (record_at payload sequence now)
  unfolding decode_record
  decode_record-at sequence now = ground (
    arith,
    read_bytes-slice 16 payload 86 (omega (arith, full)),
    bytes_to_hex_string-total (slice payload 32 52)
        (omega (arith, length-slice 32 52 (omega arith) (omega arith))),
    bytes_to_hex_string-total (slice payload 54 86)
        (omega (arith, length-slice 54 86 (omega arith) (omega arith))),
  )
