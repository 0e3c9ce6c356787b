-- ===== src/Registry/Examples.antt =====
-- A deposit of chain 2 arrives as a VAA; the theorems at this run.
use vortex_contracts.Base.{
  ℕ, ◌≡◌, ◌↔◌, refl, true, none, some, List, [], ◌∷◌, ok, arith, inr, has_failed,
}
use vortex_contracts.Base.Dict.{get, put}
use vortex_contracts.Base.Token.{Host}
use vortex_contracts.Base.Int.{pos}
use vortex_contracts.Math.Decode.{be_value}
use vortex_contracts.Math.Encode.{byte_bound, be_bytes, to_bits, payload}
use vortex_contracts.Registry.Model.{
  VaaEnvelope, Registry, Verifier, require_admin, set_authorized_emitter, byte, read_bytes,
  intent_id_of, chain_id_of, hex_digits, bytes_to_hex_string, decode_record, has_seen,
  receive_envelope, receive_message, get_fresh_proof,
}
use vortex_contracts.Registry.Received.{IsAccepted, stored, receive_message_iff}
use vortex_contracts.Registry.Runs.{emitter_set, received, here, next}
use vortex_contracts.Registry.Replays.{IsConsistent, Reach-IsConsistent, receive_message-once}
use vortex_contracts.Registry.Delivery.{deposit, proof_of, receive_message-delivers}

abbrev host_at : ℕ → Host
host_at now = record { now = now; this = 99; auth = λ _. true; token_ok = λ _. true }

abbrev fresh : Registry
fresh = record {
  admin = some 1;
  wormhole_core = some 2;
  axelar_gateway = some 3;
  configurator = none;
  emitters = [];
  axelar_sources = [];
  proofs = [];
  seen = [];
}

abbrev allowing : Registry
allowing = record fresh { emitters = (2, 77) ∷ [] }

abbrev user : List ℕ
user = be_bytes 20 51_966

abbrev token : List ℕ
token = be_bytes 32 48_879

abbrev envelope : VaaEnvelope
envelope = record {
  emitter_chain = 2;
  emitter_address = 77;
  sequence = 4;
  payload = deposit 5 user 2 token (pos 1_000);
}

-- A core contract that takes every VAA for this envelope.
abbrev verify : Verifier
verify core vaa = some envelope

abbrev holding : Registry
holding = stored 100 envelope allowing

runs : receive_message (host_at 100) verify (1 ∷ []) allowing ≡ ok holding
unfolding receive_message receive_envelope intent_id_of chain_id_of decode_record read_bytes byte
    bytes_to_hex_string hex_digits has_seen get put be_value deposit payload be_bytes to_bits
runs = refl

allows : set_authorized_emitter (host_at 50) 2 77 fresh ≡ ok allowing
unfolding set_authorized_emitter require_admin put
allows = refl

receive_message_iff_example :
    (receive_message (host_at 100) verify (1 ∷ []) allowing ≡ ok holding) ↔ (
      (core : ℕ) × (v : VaaEnvelope) × (some 2 ≡ some core)
      × (some envelope ≡ some v)
      × IsAccepted v allowing
      × (holding ≡ stored 100 v allowing))
receive_message_iff_example = receive_message_iff (host_at 100) verify (1 ∷ []) allowing holding

Reach-IsConsistent_example : IsConsistent holding
Reach-IsConsistent_example =
    Reach-IsConsistent {verify = verify} {s = fresh} {t = holding}
      (next (next here (emitter_set (host_at 50) 2 77 allows))
        (received (host_at 100) (1 ∷ []) runs))
      refl

receive_message-once_example :
    has_failed (receive_message (host_at 200) verify (2 ∷ []) holding) ≡ true
receive_message-once_example =
    receive_message-once (host_at 100) (host_at 200) verify (1 ∷ []) (2 ∷ []) allowing holding
      holding 2 2 envelope envelope runs refl refl here refl refl (inr (refl, refl))

receive_message-delivers_example :
    (receive_message (host_at 100) verify (1 ∷ []) allowing ≡ ok holding)
    × (get_fresh_proof (host_at 3_700) 5 holding ≡ ok (proof_of 5 user 2 token (pos 1_000) 4 100))
unfolding has_seen get be_bytes byte_bound
receive_message-delivers_example =
    receive_message-delivers (host_at 100) (host_at 3_700) verify (1 ∷ []) allowing holding 2 5 user
      token (pos 1_000) envelope refl refl (omega arith) (omega arith) (omega arith) (omega arith)
      refl refl refl refl refl refl here (omega arith) (omega arith)
