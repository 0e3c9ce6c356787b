-- ===== src/Settlement/Trace/Lasting.antt =====
-- What no sequence of calls can change: the terms of a stored intent, its delivered total, and an
-- intent that has ended; and how an intent that is deleted stays so.
use vortex_contracts.Base.{
  ℕ, ◌≤◌, ◌≡◌, refl, inl, inr, true, false, none, some, List, arith, ◌==◌, Bool-cases, ◌∙◌, ◌⊎◌,
}
use vortex_contracts.Base.Dict.{get, get-put, get-remove}
use vortex_contracts.Settlement.Types.{IntentRecord}
use vortex_contracts.Settlement.State.{Storage}
use vortex_contracts.Settlement.Fill.{filled_intent}
use vortex_contracts.Settlement.Prune.{is_terminal}
use vortex_contracts.Settlement.Trace.{
  Step, Reach, here, next, Edge, taken, delivered, missed, ended, amended, extended, escrowed,
  contested, settled, same, created, changed, closed,
}
use vortex_contracts.Settlement.Trace.Changes.{Step-Change}
use vortex_contracts.Settlement.Trace.Invariants.{is_final}

-- The intent is deleted, and its identifier is marked.
abbrev pub IsGone : ℕ → Storage → Type 0
IsGone id s = (get s.intents id ≡ none) × (s.tombstone id ≡ true)

Step-IsGone : {s s' : Storage} (id : ℕ) → Step s s' → IsGone id s → IsGone id s'
Step-IsGone {s} {s'} id x g = elim (Step-Change x) [
  | same p v ↦ ground (arith, g.0, g.1)
  | created j k n m f p v ↦ ground (arith, g.0, g.1, get-put s.intents j id k)
  | changed j k k' h d p v ↦ ground (arith, g.0, g.1, get-put s.intents j id k')
  | closed j k h f p v ↦ ground (arith, g.0, g.1, get-remove s.intents j id)
]

-- What the user has asked for.
abbrev pub Terms : Type 0
Terms = ℕ × List ℕ × List ℕ × ℕ × ℕ × ℕ

abbrev pub terms : IntentRecord → Terms
terms i = (i.user, i.src_chain, i.src_token, i.src_amount, i.dst_token, i.created_at)

-- What a later storage still says of an intent.
pub record Grows (i i' : IntentRecord) : Type 0 where
  pub same_terms : terms i' ≡ terms i
  pub more_filled : i.total_filled ≤ i'.total_filled

Edge-Grows : {i i' : IntentRecord} → Edge i i' → Grows i i'
unfolding filled_intent
Edge-Grows (taken a bt tier d o p) = ground arith
Edge-Grows (delivered now d p o q) = ground arith
Edge-Grows (missed d o p) = ground arith
Edge-Grows (ended now st o p q) = ground arith
Edge-Grows (amended m d o p) = ground arith
Edge-Grows (extended d o p) = ground arith
Edge-Grows (escrowed u r o p) = ground arith
Edge-Grows (contested now o p) = ground arith
Edge-Grows (settled now n st r o p) = ground arith

pub Grows-trans : {i j k : IntentRecord} → Grows i j → Grows j k → Grows i k
Grows-trans g h = record {
  same_terms = h.same_terms ∙ g.same_terms;
  more_filled = omega (arith, g.more_filled, h.more_filled);
}

pub Grows-refl : {i : IntentRecord} → Grows i i
Grows-refl = record { same_terms = refl; more_filled = ground arith }

-- The intent is still stored, with the same terms and at least as filled.
abbrev pub IsKept : ℕ → IntentRecord → Storage → Type 0
IsKept id i t = (i' : IntentRecord) × (get t.intents id ≡ some i') × Grows i i'

-- The intent is deleted, after it had come to an end on the way.
abbrev pub IsClosed : ℕ → IntentRecord → Storage → Storage → Type 0
IsClosed id i s t =
    IsGone id t
    × ((u : Storage) × (i' : IntentRecord) × Reach s u
        × Reach u t
        × (get u.intents id ≡ some i')
        × (is_terminal i'.state ≡ true)
        × Grows i i')

Step-Grows :
    {s s' : Storage} {i : IntentRecord} (id : ℕ)
    → Step s s'
    → get s.intents id ≡ some i
    → IsKept id i s' ⊎ (IsGone id s' × (is_terminal i.state ≡ true))
Step-Grows {s} {s'} {i} id x h = elim (Step-Change x) [
  | same p v ↦ inl (i, ground arith, Grows-refl)
  | created j k n m f p v ↦ inl (i, ground (arith, get-put s.intents j id k), Grows-refl)
  | changed j k k' g d p v ↦ elim (Bool-cases (j == id)) [
    | inl q ↦ inl (k', ground (arith, get-put s.intents j id k'), ground (arith, Edge-Grows d))
    | inr q ↦ inl (i, ground (arith, get-put s.intents j id k'), Grows-refl)
  ]
  | closed j k g f p v ↦ elim (Bool-cases (j == id)) [
    | inl q ↦ inr (ground (arith, get-remove s.intents j id), ground arith)
    | inr q ↦ inl (i, ground (arith, get-remove s.intents j id), Grows-refl)
  ]
]

-- Along any sequence of successful calls (the calls of `Trace.Step`, the deletion of old intents
-- included), a stored intent is either still stored, with the same user, source chain, source
-- token, source amount, destination token and creation time, and a delivered total that has not
-- fallen; or it is deleted, with a tombstone, and on the way it was stored in a terminal state
-- (filled, cancelled, expired, resolved or slashed), with the same terms and a delivered total
-- that had not fallen.
pub Reach-Grows :
    {s t : Storage} {i : IntentRecord} (id : ℕ)
    → Reach s t
    → get s.intents id ≡ some i
    → IsKept id i t ⊎ IsClosed id i s t
Reach-Grows {s} {t} {i} id here h = inl (i, h, Grows-refl)
Reach-Grows {s} id (next {t} r x) h = elim (Reach-Grows id r h) [
  | inr (z, (u, k, a, b, g, f, q)) ↦ inr (Step-IsGone id x z, (u, k, a, next b x, g, f, q))
  | inl (j, g, p) ↦ elim (Step-Grows id x g) [
    | inl (k, g', q) ↦ inl (k, g', Grows-trans p q)
    | inr (z, f) ↦ inr (z, (t, j, r, next here x, g, f, p))
  ]
]

-- No edge leaves a final state.
Edge-not_final : {i i' : IntentRecord} → Edge i i' → is_final i.state ≡ false
Edge-not_final (taken a bt tier d o p) = ground arith
Edge-not_final (delivered now d p o q) = ground arith
Edge-not_final (missed d o p) = ground arith
Edge-not_final (ended now st o p q) = ground arith
Edge-not_final (amended m d o p) = ground arith
Edge-not_final (extended d o p) = ground arith
Edge-not_final (escrowed u r o p) = ground arith
Edge-not_final (contested now o p) = ground arith
Edge-not_final (settled now n st r o p) = ground arith

Step-final :
    {s s' : Storage} {i : IntentRecord} (id : ℕ)
    → Step s s'
    → get s.intents id ≡ some i
    → is_final i.state ≡ true
    → (get s'.intents id ≡ some i) ⊎ IsGone id s'
Step-final {s} {s'} {i} id x h f = elim (Step-Change x) [
  | same p v ↦ inl (ground arith)
  | created j k n m g p v ↦ inl (ground (arith, get-put s.intents j id k))
  | changed j k k' g d p v ↦ inl (ground (arith, get-put s.intents j id k', Edge-not_final d))
  | closed j k g t p v ↦ elim (Bool-cases (j == id)) [
    | inl q ↦ inr (ground (arith, get-remove s.intents j id))
    | inr q ↦ inl (ground (arith, get-remove s.intents j id))
  ]
]

-- Along any sequence of successful calls (the calls of `Trace.Step`, the deletion of old intents
-- included), an intent that is filled, cancelled, expired or resolved is either still stored,
-- unchanged in every field, or it is deleted and its identifier is marked by a tombstone.
pub Reach-final :
    {s t : Storage} {i : IntentRecord} (id : ℕ)
    → Reach s t
    → get s.intents id ≡ some i
    → is_final i.state ≡ true
    → (get t.intents id ≡ some i) ⊎ IsGone id t
Reach-final id here h f = inl h
Reach-final id (next r x) h f = elim (Reach-final id r h f) [
  | inl g ↦ Step-final id x g f
  | inr z ↦ inr (Step-IsGone id x z)
]
