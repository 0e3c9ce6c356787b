-- ===== src/Registry/Received.antt =====
-- proof_registry: when a received message is stored, and what it stores.
use vortex_contracts.Base.{
  ℕ, ◌+◌, ◌≡◌, ◌≤◌, ◌↔◌, false, none, some, List, ◌∷◌, arith, length, ok, inl, inr, Option-cases,
}
use vortex_contracts.Base.Dict.{get, put}
use vortex_contracts.Base.Token.{Host}
use vortex_contracts.Registry.Model.{
  VaaEnvelope, ProofRecord, Registry, Verifier, chain_id_of, intent_id_of, decode_record, has_seen,
  receive_envelope, receive_message, receive_message_axelar, get_fresh_proof,
}
use vortex_contracts.Registry.Decoded.{
  chain_at, chain_id_of-at, decode_record-at, id_at, intent_id_of-at, record_at,
}

-- What an envelope must be for its proof to be stored.
pub record IsAccepted (v : VaaEnvelope) (s : Registry) : Type 0 where
  pub emitter : get s.emitters v.emitter_chain ≡ some v.emitter_address
  pub full : length v.payload ≡ 102
  pub chain : chain_at v.payload ≡ v.emitter_chain
  pub new_intent : get s.proofs (id_at v.payload) ≡ none
  pub new_vaa : has_seen v.emitter_chain v.sequence s.seen ≡ false

-- The registry with the proof of an envelope.
abbrev pub stored : ℕ → VaaEnvelope → Registry → Registry
stored now v s = record s {
  proofs = put s.proofs (id_at v.payload) (record_at v.payload v.sequence now);
  seen = (v.emitter_chain, v.sequence) ∷ s.seen;
}

module _ (e : Host) (v : VaaEnvelope) (s : Registry) where
  envelope_checks :
      {s' : Registry}
      → receive_envelope e v s ≡ ok s'
      → (get s.emitters v.emitter_chain ≡ some v.emitter_address) × (length v.payload ≡ 102)
  unfolding receive_envelope
  envelope_checks h = elim (Option-cases (get s.emitters v.emitter_chain)) [
    | inl q ↦ absurd (ground arith)
    | inr (a, q) ↦ (ground arith, ground arith)
  ]

  -- The checks and the writes, on what the payload decodes to.
  module _ (id chain : ℕ) (r : ProofRecord) (decoded_id : intent_id_of v.payload ≡ ok id)
      (decoded_chain : chain_id_of v.payload ≡ ok chain)
      (decoded : decode_record v.payload id chain v.sequence e.now ≡ ok r) where
    envelope_passes :
        get s.emitters v.emitter_chain ≡ some v.emitter_address
        → length v.payload ≡ 102
        → chain ≡ v.emitter_chain
        → get s.proofs id ≡ none
        → has_seen v.emitter_chain v.sequence s.seen ≡ false
        → receive_envelope e v s
          ≡ ok (record s {
            proofs = put s.proofs id r;
            seen = (v.emitter_chain, v.sequence) ∷ s.seen;
          })
    unfolding receive_envelope
    envelope_passes h k l m n = ground (arith, decoded_id, decoded_chain, decoded)

    envelope_passed :
        {s' : Registry}
        → receive_envelope e v s ≡ ok s'
        → (chain ≡ v.emitter_chain)
          × (get s.proofs id ≡ none)
          × (has_seen v.emitter_chain v.sequence s.seen ≡ false)
    unfolding receive_envelope
    envelope_passed h = elim (Option-cases (get s.emitters v.emitter_chain)) [
      | inl q ↦ absurd (ground arith)
      | inr (a, q) ↦ elim (Option-cases (get s.proofs id)) [
        | inr (o, p) ↦ absurd (ground (arith, decoded_id, decoded_chain))
        | inl p ↦ (
          ground (arith, decoded_id, decoded_chain),
          p,
          ground (arith, decoded_id, decoded_chain),
        )
      ]
    ]

  pub receive_envelope-accepts : IsAccepted v s → receive_envelope e v s ≡ ok (stored e.now v s)
  receive_envelope-accepts a =
      envelope_passes (id_at v.payload) (chain_at v.payload) (record_at v.payload v.sequence e.now)
        (intent_id_of-at v.payload a.full) (chain_id_of-at v.payload a.full)
        (decode_record-at v.payload a.full v.sequence e.now) a.emitter a.full a.chain a.new_intent
        a.new_vaa

  pub receive_envelope-IsAccepted :
      {s' : Registry} → receive_envelope e v s ≡ ok s' → IsAccepted v s × (s' ≡ stored e.now v s)
  receive_envelope-IsAccepted {s'} h =
      let (emitter, full) = envelope_checks h in
      let (chain, new_intent, new_vaa) =
        envelope_passed (id_at v.payload) (chain_at v.payload)
          (record_at v.payload v.sequence e.now) (intent_id_of-at v.payload full)
          (chain_id_of-at v.payload full) (decode_record-at v.payload full v.sequence e.now) h in
      let a : IsAccepted v s = record {
        emitter = emitter;
        full = full;
        chain = chain;
        new_intent = new_intent;
        new_vaa = new_vaa;
      } in
      (a, cc (h, receive_envelope-accepts a))

-- A VAA is stored just when the Wormhole Core contract of the registry verifies it and its
-- envelope is acceptable, and the registry is then the one with its proof.
module _ (e : Host) (parse_and_verify_vaa : Verifier) (vaa : List ℕ) (s s' : Registry) where
  pub receive_message-IsAccepted :
      receive_message e parse_and_verify_vaa vaa s ≡ ok s'
      → (core : ℕ) × (v : VaaEnvelope) × (s.wormhole_core ≡ some core)
        × (parse_and_verify_vaa core vaa ≡ some v)
        × IsAccepted v s
        × (s' ≡ stored e.now v s)
  unfolding receive_message
  receive_message-IsAccepted h = elim (Option-cases s.wormhole_core) [
    | inl q ↦ absurd (ground arith)
    | inr (core, q) ↦ elim (Option-cases (parse_and_verify_vaa core vaa)) [
      | inl p ↦ absurd (ground arith)
      | inr (v, p) ↦
          let (a, r) = receive_envelope-IsAccepted e v s (cc (h, q, p)) in (core, v, q, p, a, r)
    ]
  ]

  -- A VAA is received just when the core contract is set and verifies it, its emitter is the
  -- authorized one of its chain, its payload has 102 bytes and names that chain, and neither its
  -- intent has a proof nor its chain and sequence number were seen; the storage is then the old
  -- one with the decoded proof and the pair added.
  pub receive_message_iff : (receive_message e parse_and_verify_vaa vaa s ≡ ok s') ↔ (
      (core : ℕ) × (v : VaaEnvelope) × (s.wormhole_core ≡ some core)
      × (parse_and_verify_vaa core vaa ≡ some v)
      × IsAccepted v s
      × (s' ≡ stored e.now v s))
  unfolding receive_message
  receive_message_iff = (
    receive_message-IsAccepted,
    λ (core, v, q, p, a, r). cc (q, p, r, receive_envelope-accepts e v s a),
  )

module _ (e : Host) (source_chain source_address : ℕ) (payload : List ℕ) (s : Registry) where
  axelar_checks :
      {s' : Registry}
      → receive_message_axelar e source_chain source_address payload s ≡ ok s'
      → (get s.axelar_sources source_chain ≡ some source_address) × (length payload ≡ 102)
  unfolding receive_message_axelar
  axelar_checks h = elim (Option-cases (get s.axelar_sources source_chain)) [
    | inl q ↦ absurd (ground arith)
    | inr (a, q) ↦ (ground arith, ground arith)
  ]

  axelar_passed :
      (id chain : ℕ) (r : ProofRecord) {s' : Registry}
      → intent_id_of payload ≡ ok id
      → chain_id_of payload ≡ ok chain
      → decode_record payload id chain 0 e.now ≡ ok r
      → receive_message_axelar e source_chain source_address payload s ≡ ok s'
      → (get s.proofs id ≡ none) × (s' ≡ record s { proofs = put s.proofs id r })
  unfolding receive_message_axelar
  axelar_passed id chain r i c d h = elim (Option-cases (get s.proofs id)) [
    | inr (o, p) ↦ absurd (ground (arith, i, c, d))
    | inl p ↦ (p, ground (arith, i, c, d))
  ]

  pub receive_message_axelar-stores :
      {s' : Registry}
      → receive_message_axelar e source_chain source_address payload s ≡ ok s'
      → (get s.axelar_sources source_chain ≡ some source_address)
        × (length payload ≡ 102)
        × (get s.proofs (id_at payload) ≡ none)
        × (s' ≡ record s { proofs = put s.proofs (id_at payload) (record_at payload 0 e.now) })
  receive_message_axelar-stores h =
      let (source, full) = axelar_checks h in
      let (new_intent, same) =
        axelar_passed (id_at payload) (chain_at payload) (record_at payload 0 e.now)
          (intent_id_of-at payload full) (chain_id_of-at payload full)
          (decode_record-at payload full 0 e.now) h in
      (source, full, new_intent, same)

pub get_fresh_proof_iff :
    (e : Host) (id : ℕ) (s : Registry) (r : ProofRecord)
    → (get_fresh_proof e id s ≡ ok r)
      ↔ ((get s.proofs id ≡ some r) × (r.received_at ≤ e.now) × (e.now ≤ r.received_at + 3_600))
unfolding get_fresh_proof
get_fresh_proof_iff e id s r = elim (Option-cases (get s.proofs id)) [
  | inl q ↦ (λ h. absurd (ground arith), λ (p, k, l). absurd (ground arith))
  | inr (o, q) ↦ (λ h. (ground arith, ground arith, ground arith), λ (p, k, l). ground arith)
]
