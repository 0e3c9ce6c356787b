-- ===== src/Registry/Hex.antt =====
-- The strings that proof_registry stores for addresses: `0x` and two digits for each byte.
use vortex_contracts.Base.{
  ℕ, ◌*◌, ◌/◌, ◌%◌, ◌≡◌, ◌≤◌, ◌<◌, refl, Bool, true, ◌&&◌, List, [], ◌∷◌, ltb, arith, length, ok,
}
use vortex_contracts.Registry.Model.{hex_digit, hex_digits, bytes_to_hex_string}

-- Every element is a byte.
unfoldable pub are_bytes : List ℕ → Bool
are_bytes [] = true
are_bytes (b ∷ bytes) = ltb b 256 && are_bytes bytes

hex_digit-injective : (a b : ℕ) → a < 16 → b < 16 → hex_digit a ≡ hex_digit b → a ≡ b
hex_digit-injective a b h k p = ground arith

byte-injective :
    (a b : ℕ)
    → a < 256
    → b < 256
    → hex_digit (a / 16) ≡ hex_digit (b / 16)
    → hex_digit (a % 16) ≡ hex_digit (b % 16)
    → a ≡ b
byte-injective a b h k p q =
    let hi = hex_digit-injective (a / 16) (b / 16) (omega (arith, h)) (omega (arith, k)) p in
    let lo = hex_digit-injective (a % 16) (b % 16) (omega arith) (omega arith) q in
    omega (arith, hi, lo)

hex_digits-injective :
    (xs ys : List ℕ)
    → are_bytes xs ≡ true
    → are_bytes ys ≡ true
    → hex_digits xs ≡ hex_digits ys
    → xs ≡ ys
unfolding are_bytes hex_digits
hex_digits-injective [] [] h k p = refl
hex_digits-injective [] (y ∷ ys) h k p = absurd (ground arith)
hex_digits-injective (x ∷ xs) [] h k p = absurd (ground arith)
hex_digits-injective (x ∷ xs) (y ∷ ys) h k p =
    ground (arith, byte-injective x y, hex_digits-injective xs ys)

pub length-hex_digits : (xs : List ℕ) → length (hex_digits xs) ≡ 2 * length xs
unfolding hex_digits
length-hex_digits [] = refl
length-hex_digits (x ∷ xs) = omega (arith, length-hex_digits xs)

pub bytes_to_hex_string-total :
    (xs : List ℕ) → length xs ≤ 32 → bytes_to_hex_string xs ≡ ok (48 ∷ 120 ∷ hex_digits xs)
unfolding bytes_to_hex_string
bytes_to_hex_string-total xs h = ground arith

pub bytes_to_hex_string-injective :
    (xs ys : List ℕ)
    → are_bytes xs ≡ true
    → are_bytes ys ≡ true
    → length xs ≤ 32
    → length ys ≤ 32
    → bytes_to_hex_string xs ≡ bytes_to_hex_string ys
    → xs ≡ ys
unfolding bytes_to_hex_string
bytes_to_hex_string-injective xs ys h k l m p = hex_digits-injective xs ys h k (ground arith)
