-- ===== src/Math/Encode.antt =====
-- What the decoders of math.rs read is what an encoder wrote.
use vortex_contracts.Base.{
  ℕ, zero, suc, ◌+◌, ◌-◌, ◌*◌, ◌/◌, ◌%◌, ◌≡◌, ◌≤◌, ◌<◌, refl, subst, Option, some, List, [], ◌∷◌,
  ◌++◌, arith, length,
}
use mathlib.Core.List.{append_assoc, append-nil}
use vortex_contracts.Base.Checked.{i128_bound}
use vortex_contracts.Base.Int.{ℤ, pos, negsuc, pos_part, neg_part}
use vortex_contracts.Base.Lists.{drop_append, take_append, length-append}
use vortex_contracts.Math.Decode.{
  be_value, slice, from_bits, decode_u16_be, decode_i128_be, decode_payload_chain_id,
  decode_payload_src_amount,
}

-- The numbers that `n` bytes hold: 256 to the power of `n`.
unfoldable pub byte_bound : ℕ → ℕ
byte_bound zero = 1
byte_bound (suc n) = byte_bound n * 256

-- The big-endian bytes of a number.
unfoldable pub be_bytes : ℕ → ℕ → List ℕ
be_bytes zero v = []
be_bytes (suc n) v = be_bytes n (v / 256) ++ (v % 256) ∷ []

-- Two's complement on 128 bits.
unfoldable pub to_bits : ℤ → ℕ
to_bits (pos n) = n
to_bits (negsuc n) = i128_bound + i128_bound - 1 - n

be_value_snoc :
    (acc : ℕ) (xs : List ℕ) (b : ℕ) → be_value acc (xs ++ b ∷ []) ≡ be_value acc xs * 256 + b
unfolding be_value
be_value_snoc acc [] b = refl
be_value_snoc acc (x ∷ xs) b = be_value_snoc (acc * 256 + x) xs b

pub length-be_bytes : (n v : ℕ) → length (be_bytes n v) ≡ n
unfolding be_bytes
length-be_bytes zero v = refl
length-be_bytes (suc n) v =
    omega (arith, length-append (be_bytes n (v / 256)) (v % 256 ∷ []), length-be_bytes n (v / 256))

pub be_value-be_bytes : (n v : ℕ) → v < byte_bound n → be_value 0 (be_bytes n v) ≡ v
unfolding be_bytes byte_bound be_value
be_value-be_bytes zero v h = omega (arith, h)
be_value-be_bytes (suc n) v h = omega (
  arith,
  be_value_snoc 0 (be_bytes n (v / 256)) (v % 256),
  be_value-be_bytes n (v / 256) (omega (arith, h)),
)

pub from_bits-to_bits :
    (z : ℤ) → pos_part z < i128_bound → neg_part z ≤ i128_bound → from_bits (to_bits z) ≡ z
unfolding to_bits
from_bits-to_bits (pos n) h k = ground arith
from_bits-to_bits (negsuc n) h k = ground arith

-- The bytes that stand between a prefix and a suffix.
slice_middle :
    (xs ys zs : List ℕ)
    → length xs + length ys < 1_000
    → slice (length ys) (xs ++ (ys ++ zs)) (length xs) ≡ some ys
unfolding slice
slice_middle xs ys zs h = ground (
  arith,
  drop_append xs (ys ++ zs),
  take_append ys zs,
  length-append xs (ys ++ zs),
  length-append ys zs,
)

decode_u16_be-be_bytes :
    (xs zs : List ℕ) (c : ℕ)
    → length xs ≤ 900
    → c < 65_536
    → decode_u16_be (xs ++ (be_bytes 2 c ++ zs)) (length xs) ≡ some c
unfolding decode_u16_be byte_bound
decode_u16_be-be_bytes xs zs c h k =
    let two = length-be_bytes 2 c in
    let found = slice_middle xs (be_bytes 2 c) zs (omega (arith, h, two)) in
    ground (arith, found, two, be_value-be_bytes 2 c)

pub to_bits_bound :
    (z : ℤ) → pos_part z < i128_bound → neg_part z ≤ i128_bound → to_bits z < byte_bound 16
unfolding to_bits byte_bound
to_bits_bound (pos n) h k = ground arith
to_bits_bound (negsuc n) h k = ground arith

decode_i128_be-be_bytes :
    (xs zs : List ℕ) (z : ℤ)
    → length xs ≤ 900
    → pos_part z < i128_bound
    → neg_part z ≤ i128_bound
    → decode_i128_be (xs ++ (be_bytes 16 (to_bits z) ++ zs)) (length xs) ≡ some z
unfolding decode_i128_be
decode_i128_be-be_bytes xs zs z h k l =
    let all = length-be_bytes 16 (to_bits z) in
    let found = slice_middle xs (be_bytes 16 (to_bits z)) zs (omega (arith, h, all)) in
    ground (
      arith,
      found,
      all,
      be_value-be_bytes 16 (to_bits z) (to_bits_bound z k l),
      from_bits-to_bits z k l,
    )

-- A payload as the layout has it: what precedes the chain, the chain, the token, the amount.
unfoldable pub payload : List ℕ → ℕ → List ℕ → ℤ → List ℕ
payload before chain_id src_token amount =
    before ++ (be_bytes 2 chain_id ++ (src_token ++ be_bytes 16 (to_bits amount)))

pub length-payload :
    (before src_token : List ℕ) (chain_id : ℕ) (amount : ℤ)
    → length before ≡ 52
    → length src_token ≡ 32
    → length (payload before chain_id src_token amount) ≡ 102
unfolding payload
length-payload before src_token chain_id amount h k = omega (
  arith,
  length-append before (be_bytes 2 chain_id ++ (src_token ++ be_bytes 16 (to_bits amount))),
  length-append (be_bytes 2 chain_id) (src_token ++ be_bytes 16 (to_bits amount)),
  length-append src_token (be_bytes 16 (to_bits amount)),
  length-be_bytes 2 chain_id,
  length-be_bytes 16 (to_bits amount),
  h,
  k,
)

chain_id_found :
    (bytes : List ℕ) (v : Option ℕ)
    → length bytes ≡ 102
    → decode_u16_be bytes 52 ≡ v
    → decode_payload_chain_id bytes ≡ v
unfolding decode_payload_chain_id
chain_id_found bytes v h k = ground arith

src_amount_found :
    (bytes : List ℕ) (v : Option ℤ)
    → length bytes ≡ 102
    → decode_i128_be bytes 86 ≡ v
    → decode_payload_src_amount bytes ≡ v
unfolding decode_payload_src_amount
src_amount_found bytes v h k = ground arith

-- The payload as what precedes the amount, and the amount.
pub payload_split :
    (before src_token : List ℕ) (chain_id : ℕ) (amount : ℤ)
    → (before ++ (be_bytes 2 chain_id ++ src_token)) ++ (be_bytes 16 (to_bits amount) ++ [])
      ≡ payload before chain_id src_token amount
unfolding payload
payload_split before src_token chain_id amount =
    let bits = be_bytes 16 (to_bits amount) in
    cc (
      append-nil bits,
      append_assoc before (be_bytes 2 chain_id ++ src_token) bits,
      append_assoc (be_bytes 2 chain_id) src_token bits,
    )

pub length-before_amount :
    (before src_token : List ℕ) (chain_id : ℕ)
    → length before ≡ 52
    → length src_token ≡ 32
    → length (before ++ (be_bytes 2 chain_id ++ src_token)) ≡ 86
length-before_amount before src_token chain_id h k = omega (
  arith,
  length-append before (be_bytes 2 chain_id ++ src_token),
  length-append (be_bytes 2 chain_id) src_token,
  length-be_bytes 2 chain_id,
  h,
  k,
)

-- A payload laid out as 52 bytes, the two big-endian bytes of the chain, 32 bytes of the token
-- and the 16 bytes of the amount in two's complement decodes to that chain and that amount, for
-- every chain below 65536 and every amount in the range of an i128.
pub payload-decodes :
    (before src_token : List ℕ) (chain_id : ℕ) (amount : ℤ)
    → length before ≡ 52
    → length src_token ≡ 32
    → chain_id < 65_536
    → pos_part amount < i128_bound
    → neg_part amount ≤ i128_bound
    → (decode_payload_chain_id (payload before chain_id src_token amount) ≡ some chain_id)
      × (decode_payload_src_amount (payload before chain_id src_token amount) ≡ some amount)
unfolding payload
payload-decodes before src_token chain_id amount h k c p n =
    let bytes = payload before chain_id src_token amount in
    let all = length-payload before src_token chain_id amount h k in
    let front = before ++ (be_bytes 2 chain_id ++ src_token) in
    let long = length-before_amount before src_token chain_id h k in
    (
      chain_id_found bytes (some chain_id) all (
          subst (λ (o : ℕ). decode_u16_be bytes o ≡ some chain_id) h
            (decode_u16_be-be_bytes before (src_token ++ be_bytes 16 (to_bits amount)) chain_id
              (omega (arith, h)) c)),
      src_amount_found bytes (some amount) all (
          subst (λ (l : List ℕ). decode_i128_be l 86 ≡ some amount)
            (payload_split before src_token chain_id amount)
            (subst
              (λ (o : ℕ).
                decode_i128_be (front ++ (be_bytes 16 (to_bits amount) ++ [])) o ≡ some amount)
              long (decode_i128_be-be_bytes front [] amount (omega (arith, long)) p n))),
    )
