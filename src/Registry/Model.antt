-- ===== src/Registry/Model.antt =====
-- proof_registry/src/lib.rs: proofs that a deposit happened, from Wormhole and Axelar messages.
-- A `BytesN<32>` is the number that its bytes hold, a string is the list of its bytes, and the
-- verification of a VAA by the Wormhole Core contract is a parameter, `none` where it traps.
use vortex_contracts.Base.{
  ℕ, zero, suc, ◌+◌, ◌-◌, ◌*◌, ◌/◌, ◌%◌, Bool, true, false, not, ◌&&◌, ◌||◌, Option, none, some,
  List, [], ◌∷◌, ltb, ◌==◌, if◌then◌else◌, length, get_elem?, Result, ok, ◌>>=◌, ◌>>◌, or_err,
  unwrap, fail_if, host, is_some_of,
}
use vortex_contracts.Base.Checked.{sub_u64}
use vortex_contracts.Base.Int.{ℤ}
use vortex_contracts.Base.Dict.{Dict, get, put, remove, has}
use vortex_contracts.Base.Lists.{take, drop}
use vortex_contracts.Base.Token.{Host}
use vortex_contracts.Math.Decode.{be_value, from_bits}

abbrev pub proof_validity_window : ℕ
proof_validity_window = 3_600

pub record VaaEnvelope : Type 0 where
  pub emitter_chain : ℕ
  pub emitter_address : ℕ
  pub sequence : ℕ
  pub payload : List ℕ

pub record ProofRecord : Type 0 where
  pub intent_id : ℕ
  pub src_user : List ℕ
  pub src_chain_id : ℕ
  pub src_token : List ℕ
  pub src_amount : ℤ
  pub vaa_sequence : ℕ
  pub received_at : ℕ

pub data RegistryError : Type 0 where
  already_initialized unauthorized emitter_not_authorized proof_already_exists : RegistryError
  proof_not_found invalid_payload not_initialized vaa_already_processed : RegistryError
  emitter_chain_mismatch chain_id_out_of_range configurator_not_set proof_stale : RegistryError

-- The storage: the values of the instance keys, the proofs, and the pairs of the key `SeenVaa`.
pub record Registry : Type 0 where
  pub admin : Option ℕ
  pub wormhole_core : Option ℕ
  pub axelar_gateway : Option ℕ
  pub configurator : Option ℕ
  pub emitters : Dict ℕ
  pub axelar_sources : Dict ℕ
  pub proofs : Dict ProofRecord
  pub seen : List (ℕ × ℕ)

abbrev pub Call : Type 0 → Type 0
Call A = Result RegistryError A

-- `has(&ProofKey::SeenVaa(chain, sequence))`
unfoldable pub has_seen : ℕ → ℕ → List (ℕ × ℕ) → Bool
has_seen chain sequence [] = false
has_seen chain sequence ((c, q) ∷ seen) =
    (c == chain && q == sequence) || has_seen chain sequence seen

unfoldable pub initialize : Host → ℕ → ℕ → ℕ → Registry → Call Registry
initialize e admin wormhole_core axelar_gateway s = do
  fail_if (elim s.admin [ none ↦ false | some _ ↦ true ]) RegistryError.already_initialized
  host (e.auth admin)
  ok (record s {
    admin = some admin;
    wormhole_core = some wormhole_core;
    axelar_gateway = some axelar_gateway;
  })

unfoldable pub require_admin : Host → Registry → Call (Unit {0})
require_admin e s = do admin ← or_err s.admin RegistryError.not_initialized; host (e.auth admin)

unfoldable pub require_configurator : Host → Registry → Call (Unit {0})
require_configurator e s = do
  configurator ← or_err s.configurator RegistryError.configurator_not_set
  host (e.auth configurator)

unfoldable pub set_authorized_emitter : Host → ℕ → ℕ → Registry → Call Registry
unfolding require_admin
set_authorized_emitter e chain_id emitter s = do
  require_admin e s
  fail_if (ltb 65_535 chain_id) RegistryError.chain_id_out_of_range
  ok (record s { emitters = put s.emitters chain_id emitter })

unfoldable pub remove_authorized_emitter : Host → ℕ → Registry → Call Registry
unfolding require_admin
remove_authorized_emitter e chain_id s = do
  require_admin e s
  ok (record s { emitters = remove s.emitters chain_id })

unfoldable pub set_authorized_axelar_source : Host → ℕ → ℕ → Registry → Call Registry
unfolding require_admin
set_authorized_axelar_source e chain_name source_address s = do
  require_admin e s
  ok (record s { axelar_sources = put s.axelar_sources chain_name source_address })

unfoldable pub remove_authorized_axelar_source : Host → ℕ → Registry → Call Registry
unfolding require_admin
remove_authorized_axelar_source e chain_name s = do
  require_admin e s
  ok (record s { axelar_sources = remove s.axelar_sources chain_name })

abbrev pub get_authorized_axelar_source : ℕ → Registry → Option ℕ
get_authorized_axelar_source chain_name s = get s.axelar_sources chain_name

unfoldable pub byte : List ℕ → ℕ → Call ℕ
byte bytes i = or_err (get_elem? bytes i) RegistryError.invalid_payload

-- `(byte(52) as u32) << 8 | byte(53) as u32`, on bytes.
unfoldable pub chain_id_of : List ℕ → Call ℕ
unfolding byte
chain_id_of payload = do hi ← byte payload 52; lo ← byte payload 53; ok (hi * 256 + lo)

-- The loop that fills `amount_bytes`: `n` bytes from position `i`.
unfoldable pub read_bytes : ℕ → List ℕ → ℕ → Call (List ℕ)
unfolding byte
read_bytes zero payload i = ok []
read_bytes (suc n) payload i = do
  b ← byte payload i
  rest ← read_bytes n payload (suc i)
  ok (b ∷ rest)

-- `payload.slice(from..to)`
abbrev pub slice : List ℕ → ℕ → ℕ → List ℕ
slice payload from to = take (to - from) (drop from payload)

-- `payload.slice(0..32).try_into::<BytesN<32>>()`
unfoldable pub intent_id_of : List ℕ → Call ℕ
intent_id_of payload = do
  fail_if (not (length (slice payload 0 32) == 32)) RegistryError.invalid_payload
  ok (be_value 0 (slice payload 0 32))

-- `HEX[d]`, for a `d` below 16
abbrev pub hex_digit : ℕ → ℕ
hex_digit d = if ltb d 10 then 48 + d else 87 + d

unfoldable pub hex_digits : List ℕ → List ℕ
hex_digits [] = []
hex_digits (b ∷ bytes) = hex_digit (b / 16) ∷ hex_digit (b % 16) ∷ hex_digits bytes

-- `48` and `120` are the characters `0x`.
unfoldable pub bytes_to_hex_string : List ℕ → Call (List ℕ)
bytes_to_hex_string bytes = do
  fail_if (ltb 32 (length bytes)) RegistryError.invalid_payload
  ok (48 ∷ 120 ∷ hex_digits bytes)

-- The record of a payload, as both `receive_message` and `receive_message_axelar` decode it.
unfoldable pub decode_record : List ℕ → ℕ → ℕ → ℕ → ℕ → Call ProofRecord
unfolding read_bytes bytes_to_hex_string
decode_record payload intent_id src_chain_id sequence now = do
  amount_bytes ← read_bytes 16 payload 86
  src_user ← bytes_to_hex_string (slice payload 32 52)
  src_token ← bytes_to_hex_string (slice payload 54 86)
  ok (record {
    intent_id = intent_id;
    src_user = src_user;
    src_chain_id = src_chain_id;
    src_token = src_token;
    src_amount = from_bits (be_value 0 amount_bytes);
    vaa_sequence = sequence;
    received_at = now;
  })

abbrev pub has_proof : ℕ → Registry → Bool
has_proof intent_id s = has s.proofs intent_id

abbrev pub get_proof : ℕ → Registry → Option ProofRecord
get_proof intent_id s = get s.proofs intent_id

-- The checks of a verified envelope, and the proof that it gives.
unfoldable pub receive_envelope : Host → VaaEnvelope → Registry → Call Registry
unfolding intent_id_of chain_id_of decode_record has_seen
receive_envelope e envelope s = do
  authorized ← or_err (get s.emitters envelope.emitter_chain) RegistryError.emitter_not_authorized
  fail_if (not (authorized == envelope.emitter_address)) RegistryError.emitter_not_authorized
  fail_if (not (length envelope.payload == 102)) RegistryError.invalid_payload
  intent_id ← intent_id_of envelope.payload
  src_chain_id ← chain_id_of envelope.payload
  fail_if (not (src_chain_id == envelope.emitter_chain)) RegistryError.emitter_chain_mismatch
  fail_if (has_proof intent_id s) RegistryError.proof_already_exists
  fail_if (has_seen envelope.emitter_chain envelope.sequence s.seen)
      RegistryError.vaa_already_processed
  r ← decode_record envelope.payload intent_id src_chain_id envelope.sequence e.now
  ok (record s {
    proofs = put s.proofs intent_id r;
    seen = (envelope.emitter_chain, envelope.sequence) ∷ s.seen;
  })

-- `parse_and_verify_vaa`, by the address of the core contract.
abbrev pub Verifier : Type 0
Verifier = ℕ → List ℕ → Option VaaEnvelope

unfoldable pub receive_message : Host → Verifier → List ℕ → Registry → Call Registry
unfolding receive_envelope
receive_message e parse_and_verify_vaa vaa s = do
  core ← or_err s.wormhole_core RegistryError.not_initialized
  envelope ← unwrap (parse_and_verify_vaa core vaa)
  receive_envelope e envelope s

unfoldable pub receive_message_axelar : Host → ℕ → ℕ → List ℕ → Registry → Call Registry
unfolding intent_id_of chain_id_of decode_record
receive_message_axelar e source_chain source_address payload s = do
  fail_if (not (length payload == 102)) RegistryError.invalid_payload
  fail_if (not (is_some_of (get_authorized_axelar_source source_chain s) source_address))
      RegistryError.emitter_not_authorized
  intent_id ← intent_id_of payload
  fail_if (has_proof intent_id s) RegistryError.proof_already_exists
  src_chain_id ← chain_id_of payload
  r ← decode_record payload intent_id src_chain_id 0 e.now
  ok (record s { proofs = put s.proofs intent_id r })

unfoldable pub get_fresh_proof : Host → ℕ → Registry → Call ProofRecord
get_fresh_proof e intent_id s = do
  r ← or_err (get s.proofs intent_id) RegistryError.proof_not_found
  age ← sub_u64 e.now r.received_at
  fail_if (ltb proof_validity_window age) RegistryError.proof_stale
  ok r
