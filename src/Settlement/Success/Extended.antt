-- ===== src/Settlement/Success/Extended.antt =====
-- What the extension of a deadline has found and written when it succeeds.
use vortex_contracts.Base.{ℕ, ◌+◌, ◌≡◌, none, some, arith, inl, inr, ok, Call-cases}
use vortex_contracts.Base.Dict.{get}
use vortex_contracts.Settlement.Types.{IntentRecord, accepted}
use vortex_contracts.Settlement.State.{Env, Storage, load_intent, save_intent, update, require_auth}
use vortex_contracts.Settlement.Extend.{max_extension_duration, extension_checks, request_extension}

module _ (e : Env) (s : Storage) where
  pub record CanExtend (solver id : ℕ) (i : IntentRecord) (used deadline : ℕ) : Type 0 where
    pub intent_found : get s.intents id ≡ some i
    pub was_accepted : i.state ≡ accepted
    pub by_holder : i.solver ≡ some solver
    pub not_granted : s.extension_granted id ≡ none
    pub one_quantum : deadline ≡ i.deadline + max_extension_duration

  pub extension_checks-CanExtend :
      (solver id : ℕ) {i : IntentRecord} {used deadline : ℕ}
      → extension_checks e solver id s ≡ ok (i, used, deadline)
      → CanExtend solver id i used deadline
  unfolding extension_checks load_intent require_auth
  extension_checks-CanExtend solver id h = ground arith

  pub request_extension-eq-ok :
      (solver id : ℕ) {s' : Storage}
      → request_extension e solver id s ≡ ok s'
      → (i : IntentRecord) × (used : ℕ) × (deadline : ℕ) × CanExtend solver id i used deadline
        × (s'
            ≡ save_intent
                (record s { extension_granted = update s.extension_granted id (some used) })
                id
                (record i { deadline = deadline }))
  unfolding request_extension
  request_extension-eq-ok solver id h = elim (Call-cases (extension_checks e solver id s)) [
    | inl ((i, u, d), c) ↦ (i, u, d, extension_checks-CanExtend solver id c, ground arith)
    | inr f ↦ absurd (ground arith)
  ]
