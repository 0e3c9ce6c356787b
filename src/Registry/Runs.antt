-- ===== src/Registry/Runs.antt =====
-- The runs of proof_registry: a proof stays as it was stored, and no VAA proves two deposits.
use vortex_contracts.Base.{ℕ, ◌≡◌, refl, false, none, List, ◌∷◌, arith, ok, inl, inr, Option-cases}
use vortex_contracts.Base.Dict.{get, put}
use vortex_contracts.Base.Token.{Host}
use vortex_contracts.Registry.Model.{
  ProofRecord, Registry, Verifier, initialize, require_admin, set_authorized_emitter,
  remove_authorized_emitter, set_authorized_axelar_source, remove_authorized_axelar_source,
  has_seen, receive_message, receive_message_axelar,
}
use vortex_contracts.Registry.Received.{receive_message-IsAccepted, receive_message_axelar-stores}
use vortex_contracts.Registry.Decoded.{chain_at, record_at}

pub data Step (verify : Verifier) (s s' : Registry) : Type 0 where
  initialized :
      (e : Host) (admin core gateway : ℕ)
      → initialize e admin core gateway s ≡ ok s'
      → Step verify s s'
  emitter_set :
      (e : Host) (chain emitter : ℕ)
      → set_authorized_emitter e chain emitter s ≡ ok s'
      → Step verify s s'
  emitter_removed :
      (e : Host) (chain : ℕ) → remove_authorized_emitter e chain s ≡ ok s' → Step verify s s'
  source_set :
      (e : Host) (chain address : ℕ)
      → set_authorized_axelar_source e chain address s ≡ ok s'
      → Step verify s s'
  source_removed :
      (e : Host) (chain : ℕ) → remove_authorized_axelar_source e chain s ≡ ok s' → Step verify s s'
  received : (e : Host) (vaa : List ℕ) → receive_message e verify vaa s ≡ ok s' → Step verify s s'
  received_axelar :
      (e : Host) (chain address : ℕ) (payload : List ℕ)
      → receive_message_axelar e chain address payload s ≡ ok s'
      → Step verify s s'

pub data Reach (verify : Verifier) (s : Registry) : Registry → Type 0 where
  here : Reach verify s s
  next : {t u : Registry} → Reach verify s t → Step verify t u → Reach verify s u

-- A step either leaves the proofs and the pairs alone, or stores one proof.
pub data Change (s s' : Registry) : Type 0 where
  none_stored : s'.proofs ≡ s.proofs → s'.seen ≡ s.seen → Change s s'
  by_vaa :
      (r : ProofRecord)
      → get s.proofs r.intent_id ≡ none
      → has_seen r.src_chain_id r.vaa_sequence s.seen ≡ false
      → s'.proofs ≡ put s.proofs r.intent_id r
      → s'.seen ≡ (r.src_chain_id, r.vaa_sequence) ∷ s.seen
      → Change s s'
  by_axelar :
      (r : ProofRecord)
      → get s.proofs r.intent_id ≡ none
      → r.vaa_sequence ≡ 0
      → s'.proofs ≡ put s.proofs r.intent_id r
      → s'.seen ≡ s.seen
      → Change s s'

module _ (s s' : Registry) where
  emitter_set_same :
      (e : Host) (chain emitter : ℕ)
      → set_authorized_emitter e chain emitter s ≡ ok s'
      → (s'.proofs ≡ s.proofs) × (s'.seen ≡ s.seen)
  unfolding set_authorized_emitter require_admin
  emitter_set_same e chain emitter h = elim (Option-cases s.admin) [
    | inl q ↦ absurd (ground arith)
    | inr (a, q) ↦ (ground arith, ground arith)
  ]

  emitter_removed_same :
      (e : Host) (chain : ℕ)
      → remove_authorized_emitter e chain s ≡ ok s'
      → (s'.proofs ≡ s.proofs) × (s'.seen ≡ s.seen)
  unfolding remove_authorized_emitter require_admin
  emitter_removed_same e chain h = elim (Option-cases s.admin) [
    | inl q ↦ absurd (ground arith)
    | inr (a, q) ↦ (ground arith, ground arith)
  ]

  source_set_same :
      (e : Host) (chain address : ℕ)
      → set_authorized_axelar_source e chain address s ≡ ok s'
      → (s'.proofs ≡ s.proofs) × (s'.seen ≡ s.seen)
  unfolding set_authorized_axelar_source require_admin
  source_set_same e chain address h = elim (Option-cases s.admin) [
    | inl q ↦ absurd (ground arith)
    | inr (a, q) ↦ (ground arith, ground arith)
  ]

  source_removed_same :
      (e : Host) (chain : ℕ)
      → remove_authorized_axelar_source e chain s ≡ ok s'
      → (s'.proofs ≡ s.proofs) × (s'.seen ≡ s.seen)
  unfolding remove_authorized_axelar_source require_admin
  source_removed_same e chain h = elim (Option-cases s.admin) [
    | inl q ↦ absurd (ground arith)
    | inr (a, q) ↦ (ground arith, ground arith)
  ]

  initialize_same :
      (e : Host) (admin core gateway : ℕ)
      → initialize e admin core gateway s ≡ ok s'
      → (s'.proofs ≡ s.proofs) × (s'.seen ≡ s.seen)
  unfolding initialize
  initialize_same e admin core gateway h = elim (Option-cases s.admin) [
    | inl q ↦ (ground arith, ground arith)
    | inr (a, q) ↦ absurd (ground arith)
  ]

pub Step-Change : {verify : Verifier} {s s' : Registry} → Step verify s s' → Change s s'
Step-Change {verify} {s} {s'} (initialized e admin core gateway h) =
    let (p, q) = initialize_same s s' e admin core gateway h in none_stored p q
Step-Change {verify} {s} {s'} (emitter_set e chain emitter h) =
    let (p, q) = emitter_set_same s s' e chain emitter h in none_stored p q
Step-Change {verify} {s} {s'} (emitter_removed e chain h) =
    let (p, q) = emitter_removed_same s s' e chain h in none_stored p q
Step-Change {verify} {s} {s'} (source_set e chain address h) =
    let (p, q) = source_set_same s s' e chain address h in none_stored p q
Step-Change {verify} {s} {s'} (source_removed e chain h) =
    let (p, q) = source_removed_same s s' e chain h in none_stored p q
Step-Change {verify} {s} {s'} (received e vaa h) =
    let (core, v, c, found, a, same) = receive_message-IsAccepted e verify vaa s s' h in
    let new_vaa : has_seen (chain_at v.payload) v.sequence s.seen ≡ false =
      cc (a.chain, a.new_vaa) in
    let pairs : s'.seen ≡ (chain_at v.payload, v.sequence) ∷ s.seen = cc (same, a.chain) in
    by_vaa (record_at v.payload v.sequence e.now) a.new_intent new_vaa (cc same) pairs
Step-Change {verify} {s} {s'} (received_axelar e chain address payload h) =
    let (source, full, fresh, same) = receive_message_axelar-stores e chain address payload s h in
    by_axelar (record_at payload 0 e.now) fresh refl (cc same) (cc same)
