-- ===== src/Settlement/Trace/Paused.antt =====
-- What a paused contract still allows: no intent is created, and none is taken or escrowed.
use vortex_contracts.Base.{
  ℕ, ◌≡◌, ◌∙◌, ◌⊎◌, refl, subst, ap, inl, inr, Bool, true, false, some, arith, ◌==◌, Bool-cases,
  err, has_failed,
}
use vortex_contracts.Base.Int.{ℤ}
use vortex_contracts.Base.Dict.{get, put, remove, get-put, get-remove}
use vortex_contracts.Settlement.Types.{IntentState, IntentRecord, upheld, dismissed, Error}
use vortex_contracts.Settlement.State.{Env, Storage, save_intent, require_not_paused}
use vortex_contracts.Settlement.Accept.{accept_checks, accept_intent_inner_body}
use vortex_contracts.Settlement.Fill.{fill_checks, fill_intent_inner}
use vortex_contracts.Settlement.Slash.{slash_effects}
use vortex_contracts.Settlement.Close.{end_intent}
use vortex_contracts.Settlement.Submit.{Request, submit_checks, submit_intent_inner}
use vortex_contracts.Settlement.Dispute.{begin_fill_checks, begin_fill}
use vortex_contracts.Settlement.Success.Outcomes.{
  slash_solver-eq-ok, cancel_intent-eq-ok, expire_intent-eq-ok, amend_intent-eq-ok,
}
use vortex_contracts.Settlement.Success.Escrows.{
  dispute_fill-eq-ok, release_fill-eq-ok, resolve_dispute-eq-ok,
}
use vortex_contracts.Settlement.Success.Bonded.{
  register_solver-eq-ok, withdraw_bond-eq-ok, deregister_solver-eq-ok,
}
use vortex_contracts.Settlement.Success.Extended.{request_extension-eq-ok}
use vortex_contracts.Settlement.Success.Pruned.{close_intent-eq-ok, set_intent_retention-eq-ok}
use vortex_contracts.Settlement.Trace.{
  Step, submit, accept, fill, slash, cancel, expire, amend, begin, dispute, resolve, release,
  register, withdraw, deregister, extend, close, retain, Reach, here, next,
}
use vortex_contracts.Settlement.Trace.Changes.{release_end}
use vortex_contracts.Settlement.Trace.Lasting.{Grows, Grows-refl, Grows-trans}

-- The states of an intent whose solver is to deliver or has just escrowed.
abbrev pub is_taken : IntentState → Bool
is_taken IntentState.accepted = true
is_taken IntentState.filling = true
is_taken _ = false

-- An intent is taken afterwards only if it was, in the same state and by the same solver.
pub record Calm (i i' : IntentRecord) : Type 0 where
  pub grows : Grows i i'
  pub untaken : (is_taken i'.state ≡ false) ⊎ ((i'.state ≡ i.state) × (i'.solver ≡ i.solver))

Calm-refl : {i : IntentRecord} → Calm i i
Calm-refl = record { grows = Grows-refl; untaken = inr (refl, refl) }

Calm-trans : {i j k : IntentRecord} → Calm i j → Calm j k → Calm i k
Calm-trans c d = record {
  grows = Grows-trans c.grows d.grows;
  untaken = elim d.untaken [
    | inl p ↦ inl p
    | inr (p, q) ↦ elim c.untaken [
      | inl r ↦ inl (ap is_taken p ∙ r)
      | inr (r, t) ↦ inr (p ∙ r, q ∙ t)
    ]
  ];
}

-- Every stored intent of the second storage is one of the first.
abbrev pub IsCalm : ℕ → Storage → Storage → Type 0
IsCalm id s t =
    (i' : IntentRecord)
    → get t.intents id ≡ some i'
    → (i : IntentRecord) × (get s.intents id ≡ some i) × Calm i i'

module _ (id : ℕ) (s t : Storage) where
  IsCalm-same : t.intents ≡ s.intents → IsCalm id s t
  IsCalm-same p i' h = (i', ground arith, Calm-refl)

  IsCalm-put :
      (j : ℕ) (i i' : IntentRecord)
      → get s.intents j ≡ some i
      → Calm i i'
      → t.intents ≡ put s.intents j i'
      → IsCalm id s t
  IsCalm-put j i i' g c p k h = elim (Bool-cases (j == id)) [
    | inl q ↦
        let r : i' ≡ k = ground (arith, get-put s.intents j id i') in
        (i, ground arith, subst (Calm i) r c)
    | inr q ↦ (k, ground (arith, get-put s.intents j id i'), Calm-refl)
  ]

  IsCalm-remove : (j : ℕ) → t.intents ≡ remove s.intents j → IsCalm id s t
  IsCalm-remove j p k h = (k, ground (arith, get-remove s.intents j id), Calm-refl)

-- The rest of what a step keeps: the flag.
abbrev pub IsQuiet : ℕ → Storage → Storage → Type 0
IsQuiet id s t = (t.paused ≡ s.paused) × IsCalm id s t

flag : {t u : Storage} → t ≡ u → t.paused ≡ u.paused
flag w = ap (λ (x : Storage). x.paused) w

intents_of : {t u : Storage} → t ≡ u → t.intents ≡ u.intents
intents_of w = ap (λ (x : Storage). x.intents) w

Calm-ended : {i i' : IntentRecord} → Grows i i' → is_taken i'.state ≡ false → Calm i i'
Calm-ended g p = record { grows = g; untaken = inl p }

-- The calls that a paused contract refuses.
module _ (e : Env) (s : Storage) (p : s.paused ≡ true) where
  submit_intent_inner-err :
      (user : ℕ) (q : Request) → submit_intent_inner e user q s ≡ err Error.contract_paused
  unfolding submit_intent_inner submit_checks require_not_paused
  submit_intent_inner-err user q = ground arith

  accept_intent-err :
      (solver id bt : ℕ) → accept_intent_inner_body e solver id bt s ≡ err Error.contract_paused
  unfolding accept_intent_inner_body accept_checks require_not_paused
  accept_intent-err solver id bt = ground arith

  fill_intent_inner-err :
      (solver id : ℕ) (amount : ℤ) (q : Bool)
      → fill_intent_inner e solver id amount q s ≡ err Error.contract_paused
  unfolding fill_intent_inner fill_checks require_not_paused
  fill_intent_inner-err solver id amount q = ground arith

  begin_fill-has_failed :
      (solver id : ℕ) (amount : ℤ) → has_failed (begin_fill e solver id amount s) ≡ true
  unfolding begin_fill begin_fill_checks require_not_paused
  begin_fill-has_failed solver id amount = ground arith

module _ (k : ℕ) {s t : Storage} (p : s.paused ≡ true) where
  Step-IsQuiet : Step s t → IsQuiet k s t
  unfolding slash_effects end_intent save_intent
  Step-IsQuiet (submit e user q id h) =
      absurd (ground (arith, submit_intent_inner-err e s p user q, h))
  Step-IsQuiet (accept e solver id bt h) =
      absurd (ground (arith, accept_intent-err e s p solver id bt, h))
  Step-IsQuiet (fill e solver id amount q h) =
      absurd (ground (arith, fill_intent_inner-err e s p solver id amount q, h))
  Step-IsQuiet (slash e id h) =
      let (m, x, b, c, _, w) = slash_solver-eq-ok e s id h in
      (
        flag w,
        IsCalm-put k s t id m.intent _ c.intent_found (Calm-ended (ground arith) refl)
            (intents_of w),
      )
  Step-IsQuiet (cancel e user id h) =
      let (i, c, w) = cancel_intent-eq-ok e s user id h in
      (
        flag w,
        IsCalm-put k s t id i _ c.intent_found (Calm-ended (ground arith) refl) (intents_of w),
      )
  Step-IsQuiet (expire e id h) =
      let (i, c, w) = expire_intent-eq-ok e s id h in
      (
        flag w,
        IsCalm-put k s t id i _ c.intent_found (Calm-ended (ground arith) refl) (intents_of w),
      )
  Step-IsQuiet (amend e user id m d h) =
      let (i, c, w) = amend_intent-eq-ok e s user id m d h in
      (
        flag w,
        IsCalm-put k s t id i _ c.intent_found
            (record { grows = ground arith; untaken = inr (refl, refl) }) (intents_of w),
      )
  Step-IsQuiet (begin e solver id amount h) =
      absurd (ground (arith, begin_fill-has_failed e s p solver id amount, h))
  Step-IsQuiet (dispute e user id h) =
      let (i, c, w) = dispute_fill-eq-ok e s user id h in
      (
        flag w,
        IsCalm-put k s t id i _ c.intent_found (Calm-ended (ground arith) refl) (intents_of w),
      )
  Step-IsQuiet (resolve e arbiter id upheld h) =
      let (x, v, c, d, j, w) = resolve_dispute-eq-ok e s arbiter id upheld h in
      (
        flag w,
        IsCalm-put k s t id x.intent _ c.intent_found (Calm-ended (ground arith) refl)
            (intents_of w),
      )
  Step-IsQuiet (resolve e arbiter id dismissed h) =
      let (x, v, c, d, j, w) = resolve_dispute-eq-ok e s arbiter id dismissed h in
      (
        flag w,
        IsCalm-put k s t id x.intent _ c.intent_found (Calm-ended (ground arith) refl)
            (intents_of w),
      )
  Step-IsQuiet (release e id h) =
      let (x, o, c, r, w) = release_fill-eq-ok e s id h in
      (
        flag w,
        IsCalm-put k s t id x.intent _ c.intent_found
            (Calm-ended (ground arith) (ground (arith, release_end e s x r))) (intents_of w),
      )
  Step-IsQuiet (register e solver bt amount h) =
      let (d, c, w) = register_solver-eq-ok e s solver bt amount h in
      (flag w, IsCalm-same k s t (intents_of w))
  Step-IsQuiet (withdraw e solver bt amount h) =
      let (r, n, u, d, c, w) = withdraw_bond-eq-ok e s solver bt amount h in
      (flag w, IsCalm-same k s t (intents_of w))
  Step-IsQuiet (deregister e solver h) =
      let (r, d, c, w) = deregister_solver-eq-ok e s solver h in
      (flag w, IsCalm-same k s t (intents_of w))
  Step-IsQuiet (extend e solver id h) =
      let (i, u, d, c, w) = request_extension-eq-ok e s solver id h in
      (
        flag w,
        IsCalm-put k s t id i _ c.intent_found
            (record { grows = ground arith; untaken = inr (refl, refl) }) (intents_of w),
      )
  Step-IsQuiet (close e id h) =
      let (i, x, c, w) = close_intent-eq-ok e s id h in
      (flag w, IsCalm-remove k s t id (intents_of w))
  Step-IsQuiet (retain e secs h) =
      let w = set_intent_retention-eq-ok e s secs h in (flag w, IsCalm-same k s t (intents_of w))

Reach-IsQuiet : {s t : Storage} (id : ℕ) → s.paused ≡ true → Reach s t → IsQuiet id s t
Reach-IsQuiet id p here = (refl, λ i' h. (i', h, Calm-refl))
Reach-IsQuiet id p (next r x) =
    let (q, before) = Reach-IsQuiet id p r in
    let (q', after) = Step-IsQuiet id (q ∙ p) x in
    (
      q' ∙ q,
      λ i' h. let (j, g, c) = after i' h in let (i, f, d) = before j g in (i, f, Calm-trans d c),
    )

-- Along any sequence of successful calls (the calls of `Trace.Step`, among which pausing and
-- unpausing are not) from a paused storage, the contract stays paused, and every intent that is
-- stored afterwards was stored before, with the same terms and no larger a delivered total; and
-- it is accepted or filling afterwards only if it was in that same state, with the same solver,
-- before.
pub Reach-paused :
    {s t : Storage} {i' : IntentRecord} (id : ℕ)
    → s.paused ≡ true
    → Reach s t
    → get t.intents id ≡ some i'
    → (t.paused ≡ true)
      × ((i : IntentRecord) × (get s.intents id ≡ some i)
          × Grows i i'
          × ((is_taken i'.state ≡ false) ⊎ ((i'.state ≡ i.state) × (i'.solver ≡ i.solver))))
Reach-paused {i' = i'} id p r h =
    let (q, calm) = Reach-IsQuiet id p r in
    let (i, f, c) = calm i' h in (q ∙ p, (i, f, c.grows, c.untaken))
