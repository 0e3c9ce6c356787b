-- ===== src/Settlement/Chains.antt =====
-- intent_settlement/src/lib.rs: the source chains that are known by name, the format of a token
-- address on each, and the check of a proof. A `String` is the list of its bytes.
use vortex_contracts.Base.{
  ℕ, Bool, true, false, not, ◌||◌, ◌&&◌, Option, none, some, List, [], ◌∷◌, ltb, leb, ◌==◌,
  if◌then◌else◌, length, ok, err, ◌>>=◌, ◌>>◌, or_err, fail_if,
}
use vortex_contracts.Settlement.Types.{IntentRecord, Error}
use vortex_contracts.Settlement.State.{Env, Storage, Call}

abbrev pub ethereum : List ℕ
ethereum = b'e' ∷ b't' ∷ b'h' ∷ b'e' ∷ b'r' ∷ b'e' ∷ b'u' ∷ b'm' ∷ []

abbrev pub base : List ℕ
base = b'b' ∷ b'a' ∷ b's' ∷ b'e' ∷ []

abbrev pub polygon : List ℕ
polygon = b'p' ∷ b'o' ∷ b'l' ∷ b'y' ∷ b'g' ∷ b'o' ∷ b'n' ∷ []

abbrev pub arbitrum : List ℕ
arbitrum = b'a' ∷ b'r' ∷ b'b' ∷ b'i' ∷ b't' ∷ b'r' ∷ b'u' ∷ b'm' ∷ []

abbrev pub optimism : List ℕ
optimism = b'o' ∷ b'p' ∷ b't' ∷ b'i' ∷ b'm' ∷ b'i' ∷ b's' ∷ b'm' ∷ []

abbrev pub solana : List ℕ
solana = b's' ∷ b'o' ∷ b'l' ∷ b'a' ∷ b'n' ∷ b'a' ∷ []

abbrev pub bsc : List ℕ
bsc = b'b' ∷ b's' ∷ b'c' ∷ []

abbrev pub avalanche : List ℕ
avalanche = b'a' ∷ b'v' ∷ b'a' ∷ b'l' ∷ b'a' ∷ b'n' ∷ b'c' ∷ b'h' ∷ b'e' ∷ []

unfoldable pub same : List ℕ → List ℕ → Bool
same [] [] = true
same (x ∷ xs) (y ∷ ys) = x == y && same xs ys
same _ _ = false

unfoldable pub is_evm : List ℕ → Bool
unfolding same
is_evm chain =
    same chain ethereum
    || same chain base
    || same chain polygon
    || same chain arbitrum
    || same chain optimism

abbrev pub between : ℕ → ℕ → ℕ → Bool
between lo hi c = leb lo c && leb c hi

unfoldable pub is_hex : ℕ → Bool
is_hex c = between b'0' b'9' c || between b'a' b'f' c || between b'A' b'F' c

unfoldable pub is_b58 : ℕ → Bool
is_b58 c =
    between b'1' b'9' c
    || between b'A' b'H' c
    || between b'J' b'N' c
    || between b'P' b'Z' c
    || between b'a' b'k' c
    || between b'm' b'z' c

unfoldable pub all : (ℕ → Bool) → List ℕ → Bool
all p [] = true
all p (c ∷ cs) = p c && all p cs

-- `token[0] == '0' && token[1] == 'x'`, and what follows.
unfoldable pub after_0x : List ℕ → Option (List ℕ)
after_0x (a ∷ b ∷ rest) = if a == b'0' && b == b'x' then some rest else none
after_0x _ = none

-- An EVM address is 0x and 40 hexadecimal digits; a Solana address is 32 to 44 base-58 digits;
-- on any other chain every token passes.
unfoldable pub valid_src_token : List ℕ → List ℕ → Bool
unfolding is_evm same is_hex is_b58 all after_0x
valid_src_token chain token =
    if is_evm chain
    then length token == 42
      && (elim (after_0x token) [ none ↦ false | some rest ↦ all is_hex rest ])
    else (if same chain solana
        then between 32 44 (length token)
          && (elim (after_0x token) [ none ↦ true | some _ ↦ false ])
          && all is_b58 token
        else true)

unfoldable pub validate_src_token : List ℕ → List ℕ → Call (Unit {0})
unfolding valid_src_token
validate_src_token chain token = fail_if (not (valid_src_token chain token)) Error.invalid_src_token

unfoldable pub wormhole_chain_id : List ℕ → Call ℕ
unfolding same
wormhole_chain_id chain =
    if same chain solana
    then ok 1
    else if same chain ethereum
    then ok 2
    else if same chain bsc
    then ok 4
    else if same chain polygon
    then ok 5
    else if same chain avalanche
    then ok 6
    else if same chain arbitrum
    then ok 23
    else if same chain optimism
    then ok 24
    else if same chain base
    then ok 30
    else err Error.src_chain_not_supported

unfoldable pub validate_proof : Env → Storage → IntentRecord → ℕ → Call (Unit {0})
unfolding wormhole_chain_id
validate_proof e s intent id = do
  registry ← or_err s.proof_registry Error.proof_registry_not_set
  proof ← or_err (e.get_proof registry id) Error.proof_not_found
  want_chain_id ← wormhole_chain_id intent.src_chain
  fail_if (not (proof.src_chain_id == want_chain_id)) Error.proof_chain_mismatch
  fail_if (ltb proof.src_amount intent.src_amount) Error.proof_amount_insufficient
