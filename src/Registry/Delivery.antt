-- ===== src/Registry/Delivery.antt =====
-- proof_registry: a deposit on its way from a payload of 102 bytes to a fresh proof.
use vortex_contracts.Base.{
  ℕ, ◌+◌, ◌-◌, ◌≡◌, ◌≤◌, ◌<◌, refl, sym, subst, false, none, some, List, [], ◌∷◌, ◌++◌, arith, ok,
  length,
}
use mathlib.Core.List.{append_assoc}
use vortex_contracts.Base.Dict.{get}
use vortex_contracts.Base.Lists.{drop_append, take_append, length-append}
use vortex_contracts.Base.Token.{Host}
use vortex_contracts.Base.Checked.{i128_bound}
use vortex_contracts.Base.Int.{ℤ, pos_part, neg_part}
use vortex_contracts.Math.Decode.{be_value, from_bits}
use vortex_contracts.Math.Encode.{
  byte_bound, be_bytes, to_bits, payload, be_value-be_bytes, from_bits-to_bits, to_bits_bound,
  length-be_bytes, length-payload, payload_split, length-before_amount,
}
use vortex_contracts.Registry.Model.{
  VaaEnvelope, ProofRecord, Registry, Verifier, slice, hex_digits, has_seen, receive_message,
  get_fresh_proof,
}
use vortex_contracts.Registry.Received.{
  IsAccepted, stored, receive_message_iff, get_fresh_proof_iff,
}
use vortex_contracts.Registry.Decoded.{id_at, chain_at, record_at}
use vortex_contracts.Registry.Runs.{Reach}
use vortex_contracts.Registry.Replays.{Reach-Grows, put_found}

-- The payload of a deposit, laid out as the source chain sends it.
unfoldable pub deposit : ℕ → List ℕ → ℕ → List ℕ → ℤ → List ℕ
deposit id user chain token amount = payload (be_bytes 32 id ++ user) chain token amount

-- The proof of a deposit.
abbrev pub proof_of : ℕ → List ℕ → ℕ → List ℕ → ℤ → ℕ → ℕ → ProofRecord
proof_of id user chain token amount sequence now = record {
  intent_id = id;
  src_user = 48 ∷ 120 ∷ hex_digits user;
  src_chain_id = chain;
  src_token = 48 ∷ 120 ∷ hex_digits token;
  src_amount = amount;
  vaa_sequence = sequence;
  received_at = now;
}

-- The bytes that stand between two places.
slice_at :
    (xs ys zs : List ℕ) (from to : ℕ)
    → length xs ≡ from
    → length ys + from ≡ to
    → slice (xs ++ (ys ++ zs)) from to ≡ ys
slice_at xs ys zs from to h k =
    let n : to - from ≡ length ys = omega (arith, k) in
    cc (h, n, drop_append xs (ys ++ zs), take_append ys zs)

module _ (id chain : ℕ) (user token : List ℕ) (amount : ℤ) (long_user : length user ≡ 20)
    (long_token : length token ≡ 32) where
  abbrev body : List ℕ
  body = deposit id user chain token amount

  abbrev tail : List ℕ
  tail = be_bytes 2 chain ++ (token ++ be_bytes 16 (to_bits amount))

  length-front : length (be_bytes 32 id ++ user) ≡ 52
  length-front =
      omega (arith, length-append (be_bytes 32 id) user, length-be_bytes 32 id, long_user)

  id_part : slice body 0 32 ≡ be_bytes 32 id
  unfolding deposit payload
  id_part =
      let split = append_assoc (be_bytes 32 id) user tail in
      let there =
        slice_at [] (be_bytes 32 id) (user ++ tail) 0 32 refl
          (omega (arith, length-be_bytes 32 id)) in
      cc (split, there)

  user_part : slice body 32 52 ≡ user
  unfolding deposit payload
  user_part =
      let split = append_assoc (be_bytes 32 id) user tail in
      let there =
        slice_at (be_bytes 32 id) user tail 32 52 (length-be_bytes 32 id)
          (omega (arith, long_user)) in
      cc (split, there)

  chain_part : slice body 52 54 ≡ be_bytes 2 chain
  unfolding deposit payload
  chain_part =
      slice_at (be_bytes 32 id ++ user) (be_bytes 2 chain) (token ++ be_bytes 16 (to_bits amount))
        52 54 length-front (omega (arith, length-be_bytes 2 chain))

  token_part : slice body 54 86 ≡ token
  unfolding deposit payload
  token_part =
      let front = be_bytes 32 id ++ user in
      let split = append_assoc front (be_bytes 2 chain) (token ++ be_bytes 16 (to_bits amount)) in
      let there =
        slice_at (front ++ be_bytes 2 chain) token (be_bytes 16 (to_bits amount)) 54 86
          (omega
            (arith, length-append front (be_bytes 2 chain), length-front, length-be_bytes 2 chain))
          (omega (arith, long_token)) in
      cc (split, there)

  amount_part : slice body 86 102 ≡ be_bytes 16 (to_bits amount)
  unfolding deposit
  amount_part =
      let front = be_bytes 32 id ++ user in
      let there =
        slice_at (front ++ (be_bytes 2 chain ++ token)) (be_bytes 16 (to_bits amount)) [] 86 102
          (length-before_amount front token chain length-front long_token)
          (omega (arith, length-be_bytes 16 (to_bits amount))) in
      cc (there, payload_split front token chain amount)

  length-body : length body ≡ 102
  unfolding deposit
  length-body = length-payload (be_bytes 32 id ++ user) token chain amount length-front long_token

  -- The record that the payload of a deposit decodes to is the deposit.
  module _ (id_fits : id < byte_bound 32) (chain_fits : chain < byte_bound 2)
      (high : pos_part amount < i128_bound) (low : neg_part amount ≤ i128_bound) where
    id_at-deposit : id_at body ≡ id
    id_at-deposit = cc (id_part, be_value-be_bytes 32 id id_fits)

    chain_at-deposit : chain_at body ≡ chain
    chain_at-deposit = cc (chain_part, be_value-be_bytes 2 chain chain_fits)

    amount_at-deposit : from_bits (be_value 0 (slice body 86 102)) ≡ amount
    amount_at-deposit =
        let bits = be_value-be_bytes 16 (to_bits amount) (to_bits_bound amount high low) in
        let same : be_value 0 (slice body 86 102) ≡ to_bits amount = cc (amount_part, bits) in
        subst (λ (b : ℕ). from_bits b ≡ amount) (sym same) (from_bits-to_bits amount high low)

    record_at-deposit :
        (sequence now : ℕ)
        → record_at body sequence now ≡ proof_of id user chain token amount sequence now
    record_at-deposit sequence now =
        cc (id_at-deposit, chain_at-deposit, amount_at-deposit, user_part, token_part)

-- Let the core contract verify a VAA whose payload is laid out from an intent, a user of 20
-- bytes, a token of 32 bytes, the emitter's chain and an amount in the range of an i128, let its
-- emitter be authorized, and let neither the intent nor the VAA have been seen: the VAA is then
-- received, and after any sequence of successful calls the fresh proof of the intent, read at
-- most 3600 seconds later, is exactly that deposit.
pub receive_message-delivers :
    (e later : Host) (verify : Verifier) (vaa : List ℕ) (s u : Registry) (core id : ℕ)
    (user token : List ℕ) (amount : ℤ) (v : VaaEnvelope)
    → length user ≡ 20
    → length token ≡ 32
    → id < byte_bound 32
    → v.emitter_chain < byte_bound 2
    → pos_part amount < i128_bound
    → neg_part amount ≤ i128_bound
    → v.payload ≡ deposit id user v.emitter_chain token amount
    → s.wormhole_core ≡ some core
    → verify core vaa ≡ some v
    → get s.emitters v.emitter_chain ≡ some v.emitter_address
    → get s.proofs id ≡ none
    → has_seen v.emitter_chain v.sequence s.seen ≡ false
    → Reach verify (stored e.now v s) u
    → e.now ≤ later.now
    → later.now ≤ e.now + 3_600
    → (receive_message e verify vaa s ≡ ok (stored e.now v s))
      × (get_fresh_proof later id u
          ≡ ok (proof_of id user v.emitter_chain token amount v.sequence e.now))
receive_message-delivers e later verify vaa s u core id user token amount v lu lt li lc hi lo body c
      found emitter fresh unseen run after within =
    let chain = v.emitter_chain in
    let p = proof_of id user chain token amount v.sequence e.now in
    let at_id : id_at v.payload ≡ id =
      cc (body, id_at-deposit id chain user token amount lu lt li lc hi lo) in
    let at_chain : chain_at v.payload ≡ chain =
      cc (body, chain_at-deposit id chain user token amount lu lt li lc hi lo) in
    let a : IsAccepted v s = record {
      emitter = emitter;
      full = cc (body, length-body id chain user token amount lu lt);
      chain = at_chain;
      new_intent = cc (at_id, fresh);
      new_vaa = unseen;
    } in
    let same : record_at v.payload v.sequence e.now ≡ p =
      cc (body, record_at-deposit id chain user token amount lu lt li lc hi lo v.sequence e.now) in
    let there : get (stored e.now v s).proofs id ≡ some p = cc (at_id, same, put_found s id p) in
    (
      (receive_message_iff e verify vaa s (stored e.now v s)).1 (core, v, c, found, a, refl),
      (get_fresh_proof_iff later id u p).1 ((Reach-Grows run).proofs id p there, after, within),
    )
