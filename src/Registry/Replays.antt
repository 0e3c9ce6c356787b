-- ===== src/Registry/Replays.antt =====
-- proof_registry: what a run keeps, and that it refuses a replay.
use vortex_contracts.Base.{
  ℕ, ◌≡◌, ◌<◌, sym, subst, true, false, none, some, List, [], arith, ok, inl, inr, Bool-cases,
  Call-cases, ◌⊎◌, ◌==◌, has_failed,
}
use vortex_contracts.Base.Dict.{get, put, get-put}
use vortex_contracts.Base.Token.{Host}
use vortex_contracts.Registry.Model.{
  VaaEnvelope, ProofRecord, Registry, Verifier, has_seen, receive_message,
}
use vortex_contracts.Registry.Received.{IsAccepted, stored, receive_message-IsAccepted}
use vortex_contracts.Registry.Decoded.{id_at, record_at}
use vortex_contracts.Registry.Runs.{
  Change, none_stored, by_vaa, by_axelar, Step-Change, Reach, here, next,
}

-- Proofs and pairs that are there stay.
pub record Grows (s s' : Registry) : Type 0 where
  pub proofs : (id : ℕ) (r : ProofRecord) → get s.proofs id ≡ some r → get s'.proofs id ≡ some r
  pub seen :
      (chain sequence : ℕ)
      → has_seen chain sequence s.seen ≡ true
      → has_seen chain sequence s'.seen ≡ true

kept_by_put :
    (s : Registry) (new r : ProofRecord) (id : ℕ)
    → get s.proofs new.intent_id ≡ none
    → get s.proofs id ≡ some r
    → get (put s.proofs new.intent_id new) id ≡ some r
kept_by_put s new r id f h = ground (arith, f, h, get-put s.proofs new.intent_id id new)

Change-Grows : {s s' : Registry} → Change s s' → Grows s s'
unfolding has_seen
Change-Grows {s} {s'} (none_stored p q) = record {
  proofs = λ id r h. cc (p, h);
  seen = λ chain sequence h. cc (q, h);
}
Change-Grows {s} {s'} (by_vaa new f n p q) = record {
  proofs = λ id r h. cc (p, kept_by_put s new r id f h);
  seen = λ chain sequence h. ground (arith, q, h);
}
Change-Grows {s} {s'} (by_axelar new f z p q) = record {
  proofs = λ id r h. cc (p, kept_by_put s new r id f h);
  seen = λ chain sequence h. cc (q, h);
}

Grows-trans : {s t u : Registry} → Grows s t → Grows t u → Grows s u
Grows-trans p q = record {
  proofs = λ id r h. q.proofs id r (p.proofs id r h);
  seen = λ chain sequence h. q.seen chain sequence (p.seen chain sequence h);
}

pub Reach-Grows : {verify : Verifier} {s t : Registry} → Reach verify s t → Grows s t
Reach-Grows here = record { proofs = λ id r h. h; seen = λ chain sequence h. h }
Reach-Grows (next r step) = Grows-trans (Reach-Grows r) (Change-Grows (Step-Change step))

-- What a run from an empty registry keeps: a proof stands under its own intent, the pair of a proof
-- with a sequence number is recorded, and no two proofs have the same pair.
pub record IsConsistent (s : Registry) : Type 0 where
  pub own : (id : ℕ) (r : ProofRecord) → get s.proofs id ≡ some r → r.intent_id ≡ id
  pub recorded :
      (id : ℕ) (r : ProofRecord)
      → get s.proofs id ≡ some r
      → 0 < r.vaa_sequence
      → has_seen r.src_chain_id r.vaa_sequence s.seen ≡ true
  pub distinct :
      (i j : ℕ) (r q : ProofRecord)
      → get s.proofs i ≡ some r
      → get s.proofs j ≡ some q
      → 0 < r.vaa_sequence
      → r.src_chain_id ≡ q.src_chain_id
      → r.vaa_sequence ≡ q.vaa_sequence
      → i ≡ j

-- What the record that a step stores shares with one that is there.
not_recorded :
    (s : Registry) (new r : ProofRecord) (id : ℕ)
    → IsConsistent s
    → has_seen new.src_chain_id new.vaa_sequence s.seen ≡ false
    → get s.proofs id ≡ some r
    → 0 < r.vaa_sequence
    → new.src_chain_id ≡ r.src_chain_id
    → new.vaa_sequence ≡ r.vaa_sequence
    → ⊥
not_recorded s new r id inv f h z p q =
    let there = inv.recorded id r h z in ground (arith, there, f, p, q)

module _ (s s' : Registry) (new : ProofRecord) (inv : IsConsistent s)
    (fresh : get s.proofs new.intent_id ≡ none)
    (put_in : s'.proofs ≡ put s.proofs new.intent_id new) (grows : Grows s s')
    (unmarked : 0 < new.vaa_sequence → has_seen new.src_chain_id new.vaa_sequence s.seen ≡ false)
    (marked : 0 < new.vaa_sequence
      → has_seen new.src_chain_id new.vaa_sequence s'.seen ≡ true) where
  -- A proof after the step is the new one or one from before.
  proof-cases :
      (id : ℕ) (r : ProofRecord)
      → get s'.proofs id ≡ some r
      → ((new.intent_id ≡ id) × (new ≡ r)) ⊎ (get s.proofs id ≡ some r)
  proof-cases id r h = elim (Bool-cases (new.intent_id == id)) [
    | inl q ↦ inl (ground arith, ground (arith, put_in, h, get-put s.proofs new.intent_id id new))
    | inr q ↦ inr (ground (arith, put_in, h, get-put s.proofs new.intent_id id new))
  ]

  own_kept : (id : ℕ) (r : ProofRecord) → get s'.proofs id ≡ some r → r.intent_id ≡ id
  own_kept id r h = elim (proof-cases id r h) [ inl (p, q) ↦ cc (p, q) | inr p ↦ inv.own id r p ]

  recorded_kept :
      (id : ℕ) (r : ProofRecord)
      → get s'.proofs id ≡ some r
      → 0 < r.vaa_sequence
      → has_seen r.src_chain_id r.vaa_sequence s'.seen ≡ true
  recorded_kept id r h z = elim (proof-cases id r h) [
    | inl (p, q) ↦
        subst (λ (x : ProofRecord). has_seen x.src_chain_id x.vaa_sequence s'.seen ≡ true) q
          (marked (subst (λ (x : ProofRecord). 0 < x.vaa_sequence) (sym q) z))
    | inr p ↦ grows.seen r.src_chain_id r.vaa_sequence (inv.recorded id r p z)
  ]

  distinct_kept :
      (i j : ℕ) (r q : ProofRecord)
      → get s'.proofs i ≡ some r
      → get s'.proofs j ≡ some q
      → 0 < r.vaa_sequence
      → r.src_chain_id ≡ q.src_chain_id
      → r.vaa_sequence ≡ q.vaa_sequence
      → i ≡ j
  distinct_kept i j r q h k z c n = elim (proof-cases i r h) [
    | inl (p, same) ↦ elim (proof-cases j q k) [
      | inl (p', same') ↦ cc (p, p')
      | inr old ↦
          let z' : 0 < q.vaa_sequence = omega (arith, z, n) in
          let c' : new.src_chain_id ≡ q.src_chain_id = cc (same, c) in
          let n' : new.vaa_sequence ≡ q.vaa_sequence = cc (same, n) in
          absurd (not_recorded s new q j inv (unmarked (omega (arith, z', n'))) old z' c' n')
    ]
    | inr old ↦ elim (proof-cases j q k) [
      | inl (p', same') ↦
          let c' : new.src_chain_id ≡ r.src_chain_id = cc (same', c) in
          let n' : new.vaa_sequence ≡ r.vaa_sequence = cc (same', n) in
          absurd (not_recorded s new r i inv (unmarked (omega (arith, z, n'))) old z c' n')
      | inr old' ↦ inv.distinct i j r q old old' z c n
    ]
  ]

  put-IsConsistent : IsConsistent s'
  put-IsConsistent = record { own = own_kept; recorded = recorded_kept; distinct = distinct_kept }

Change-IsConsistent : (s s' : Registry) → IsConsistent s → Change s s' → IsConsistent s'
unfolding has_seen
Change-IsConsistent s s' inv (none_stored p q) = record {
  own = λ id r h. inv.own id r (cc (p, h));
  recorded = λ id r h z. cc (q, inv.recorded id r (cc (p, h)) z);
  distinct = λ i j r o h k z c n. inv.distinct i j r o (cc (p, h)) (cc (p, k)) z c n;
}
Change-IsConsistent s s' inv (by_vaa new f n p q) =
    put-IsConsistent s s' new inv f p (Change-Grows (by_vaa new f n p q)) (λ z. n)
      (λ z. ground (arith, q))
Change-IsConsistent s s' inv (by_axelar new f z p q) =
    put-IsConsistent s s' new inv f p (Change-Grows (by_axelar new f z p q))
      (λ w. absurd (omega (arith, z, w))) (λ w. absurd (omega (arith, z, w)))

-- Along every sequence of successful calls from a registry without proofs, every proof is stored
-- under its own intent, the chain and sequence number of one with a positive sequence number are
-- recorded as processed, and no two intents have proofs with the same chain and the same positive
-- sequence number.
pub Reach-IsConsistent :
    {verify : Verifier} {s t : Registry} → Reach verify s t → s.proofs ≡ [] → IsConsistent t
unfolding get
Reach-IsConsistent {verify} {s} here h = record {
  own = λ id r k. absurd (ground arith);
  recorded = λ id r k z. absurd (ground arith);
  distinct = λ i j r q k l z c n. absurd (ground arith);
}
Reach-IsConsistent (next {t} {u} r step) h =
    Change-IsConsistent t u (Reach-IsConsistent r h) (Step-Change step)

pub put_found : (s : Registry) (id : ℕ) (r : ProofRecord) → get (put s.proofs id r) id ≡ some r
put_found s id r = ground (arith, get-put s.proofs id id r)

-- What a stored envelope rules out.
not_twice :
    (now : ℕ) (v w : VaaEnvelope) (s t : Registry)
    → Grows (stored now v s) t
    → IsAccepted w t
    → (id_at w.payload ≡ id_at v.payload)
      ⊎ ((w.emitter_chain ≡ v.emitter_chain) × (w.sequence ≡ v.sequence))
    → ⊥
unfolding has_seen
not_twice now v w s t grows a (inl p) =
    let r = record_at v.payload v.sequence now in
    let there = grows.proofs (id_at v.payload) r (put_found s (id_at v.payload) r) in
    let fresh : get t.proofs (id_at v.payload) ≡ none = cc (p, a.new_intent) in
    absurd (cc (there, fresh))
not_twice now v w s t grows a (inr (p, q)) =
    let first : has_seen v.emitter_chain v.sequence (stored now v s).seen ≡ true = ground arith in
    let there = grows.seen v.emitter_chain v.sequence first in
    let fresh : has_seen v.emitter_chain v.sequence t.seen ≡ false = cc (p, q, a.new_vaa) in
    absurd (cc (there, fresh))

-- Once a VAA is received, then after any sequence of successful calls no VAA is received that
-- carries the same intent, or the same emitter chain and sequence number.
pub receive_message-once :
    (e later : Host) (verify : Verifier) (vaa again : List ℕ) (s s' t : Registry) (core core' : ℕ)
    (v w : VaaEnvelope)
    → receive_message e verify vaa s ≡ ok s'
    → s.wormhole_core ≡ some core
    → verify core vaa ≡ some v
    → Reach verify s' t
    → t.wormhole_core ≡ some core'
    → verify core' again ≡ some w
    → (id_at w.payload ≡ id_at v.payload)
      ⊎ ((w.emitter_chain ≡ v.emitter_chain) × (w.sequence ≡ v.sequence))
    → has_failed (receive_message later verify again t) ≡ true
receive_message-once e later verify vaa again s s' t core core' v w h c found run c' found' same =
    elim (Call-cases (receive_message later verify again t)) [
      | inr f ↦ f
      | inl (u, h') ↦
          let (x, a, cx, px, first, st) = receive_message-IsAccepted e verify vaa s s' h in
          let (y, b, cy, py, second, _) = receive_message-IsAccepted later verify again t u h' in
          let st' : s' ≡ stored e.now v s = cc (st, cx, c, px, found) in
          let second' : IsAccepted w t =
            subst (λ (o : VaaEnvelope). IsAccepted o t) (cc (cy, c', py, found')) second in
          let grows = subst (λ (o : Registry). Grows o t) st' (Reach-Grows run) in
          absurd (not_twice e.now v w s t grows second' same)
    ]
