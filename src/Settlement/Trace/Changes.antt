-- ===== src/Settlement/Trace/Changes.antt =====
-- Every step is one change of the map of the intents.
use vortex_contracts.Base.{◌≡◌, refl, ap, inl, inr, some, ok, ◌⊎◌}
use vortex_contracts.Settlement.Types.{
  filling, filled, disputed, resolved, upheld, dismissed, cancelled, expired,
}
use vortex_contracts.Settlement.State.{Env, Storage, save_intent}
use vortex_contracts.Settlement.Accept.{accept_effects}
use vortex_contracts.Settlement.Fill.{filled_intent, fill_effects}
use vortex_contracts.Settlement.Slash.{slash_effects}
use vortex_contracts.Settlement.Close.{end_intent}
use vortex_contracts.Settlement.Submit.{new_intent, submit_effects}
use vortex_contracts.Settlement.Dispute.{Escrow, Release, release_outcome}
use vortex_contracts.Settlement.Success.Outcomes.{
  accept_intent-eq-ok, fill_intent-eq-ok, slash_solver-eq-ok, cancel_intent-eq-ok,
  expire_intent-eq-ok, amend_intent-eq-ok, submit_intent-eq-ok,
}
use vortex_contracts.Settlement.Success.Escrows.{
  begin_fill-eq-ok, dispute_fill-eq-ok, release_outcome-held, release_fill-eq-ok,
  resolve_dispute-eq-ok,
}
use vortex_contracts.Settlement.Success.Bonded.{
  register_solver-eq-ok, withdraw_bond-eq-ok, deregister_solver-eq-ok,
}
use vortex_contracts.Settlement.Success.Extended.{request_extension-eq-ok}
use vortex_contracts.Settlement.Success.Pruned.{close_intent-eq-ok, set_intent_retention-eq-ok}
use vortex_contracts.Settlement.Trace.{
  Step, submit, accept, fill, slash, cancel, expire, amend, begin, dispute, resolve, release,
  register, withdraw, deregister, extend, close, retain, taken, delivered, missed, ended, amended,
  extended, escrowed, contested, settled, Change, same, created, changed, closed,
}

pub release_end :
    (e : Env) (s : Storage) (x : Escrow) {o : Release}
    → release_outcome e x x.intent.state ≡ ok o
    → ((x.intent.state ≡ filling) × (o.state ≡ filled))
      ⊎ ((x.intent.state ≡ disputed) × (o.state ≡ resolved))
release_end e s x h = elim (release_outcome-held e s x x.intent.state h) [
  | inl p ↦ inl p
  | inr p ↦ inr (p.0, p.1)
]

intents_of : {s' t : Storage} → s' ≡ t → s'.intents ≡ t.intents
intents_of w = ap (λ (u : Storage). u.intents) w

marks_of : {s' t : Storage} → s' ≡ t → s'.tombstone ≡ t.tombstone
marks_of w = ap (λ (u : Storage). u.tombstone) w

module _ {s s' : Storage} where
  pub Step-Change : Step s s' → Change s s'
  unfolding submit_effects new_intent accept_effects fill_effects slash_effects end_intent
      save_intent
  Step-Change (submit e user q id h) =
      let (b, _, p, _, w) = submit_intent-eq-ok e s user q h in
      created b.intent_id _ p.is_new p.not_closed (refl, refl, refl, refl) (intents_of w)
        (marks_of w)
  Step-Change (accept e solver id bt h) =
      let (i, r, p, w) = accept_intent-eq-ok e s solver id bt h in
      changed id i _ p.intent_found (taken _ _ _ _ p.was_open refl) (intents_of w) (marks_of w)
  Step-Change (fill e solver id amount q h) =
      let (d, x, p, w) = fill_intent-eq-ok e s solver id amount q h in
      changed id d.intent (filled_intent e.now d) p.intent_found
        (delivered e.now d refl p.was_accepted refl) (intents_of w) (marks_of w)
  Step-Change (slash e id h) =
      let (m, x, b, p, _, w) = slash_solver-eq-ok e s id h in
      changed id m.intent _ p.intent_found (missed _ p.was_accepted refl) (intents_of w)
        (marks_of w)
  Step-Change (cancel e user id h) =
      let (i, p, w) = cancel_intent-eq-ok e s user id h in
      changed id i _ p.intent_found (ended e.now cancelled p.was_open (inl refl) refl)
        (intents_of w) (marks_of w)
  Step-Change (expire e id h) =
      let (i, p, w) = expire_intent-eq-ok e s id h in
      changed id i _ p.intent_found (ended e.now expired p.was_open (inr refl) refl) (intents_of w)
        (marks_of w)
  Step-Change (amend e user id m d h) =
      let (i, p, w) = amend_intent-eq-ok e s user id m d h in
      changed id i _ p.intent_found (amended m d p.was_amendable refl) (intents_of w) (marks_of w)
  Step-Change (begin e solver id amount h) =
      let (i, n, p, w) = begin_fill-eq-ok e s solver id amount h in
      changed id i _ p.intent_found (escrowed _ _ p.was_accepted refl) (intents_of w) (marks_of w)
  Step-Change (dispute e user id h) =
      let (i, p, w) = dispute_fill-eq-ok e s user id h in
      changed id i _ p.intent_found (contested e.now p.was_filling refl) (intents_of w) (marks_of w)
  Step-Change (resolve e arbiter id upheld h) =
      let (x, v, p, d, j, w) = resolve_dispute-eq-ok e s arbiter id upheld h in
      changed id x.intent _ p.intent_found
        (settled e.now x.amount resolved (some upheld) (inr (d, refl)) refl) (intents_of w)
        (marks_of w)
  Step-Change (resolve e arbiter id dismissed h) =
      let (x, v, p, d, j, w) = resolve_dispute-eq-ok e s arbiter id dismissed h in
      changed id x.intent _ p.intent_found
        (settled e.now x.amount resolved (some dismissed) (inr (d, refl)) refl) (intents_of w)
        (marks_of w)
  Step-Change (release e id h) =
      let (x, o, p, r, w) = release_fill-eq-ok e s id h in
      changed id x.intent _ p.intent_found
        (settled e.now x.amount o.state o.resolution (release_end e s x r) refl) (intents_of w)
        (marks_of w)
  Step-Change (register e solver bt amount h) =
      let (d, p, w) = register_solver-eq-ok e s solver bt amount h in
      same (intents_of w) (marks_of w)
  Step-Change (withdraw e solver bt amount h) =
      let (r, n, k, d, p, w) = withdraw_bond-eq-ok e s solver bt amount h in
      same (intents_of w) (marks_of w)
  Step-Change (deregister e solver h) =
      let (r, d, p, w) = deregister_solver-eq-ok e s solver h in same (intents_of w) (marks_of w)
  Step-Change (extend e solver id h) =
      let (i, u, d, p, w) = request_extension-eq-ok e s solver id h in
      changed id i _ p.intent_found (extended d p.was_accepted refl) (intents_of w) (marks_of w)
  Step-Change (close e id h) =
      let (i, x, p, w) = close_intent-eq-ok e s id h in
      closed id i p.intent_found p.has_ended (intents_of w) (marks_of w)
  Step-Change (retain e secs h) =
      let w = set_intent_retention-eq-ok e s secs h in same (intents_of w) (marks_of w)
