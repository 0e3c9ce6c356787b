-- ===== src/Settlement/Counts/Escrowed.antt =====
-- The counters over an escrowed fill: `begin_fill`, `dispute_fill`, `resolve_dispute`,
-- `release_fill`.
use vortex_contracts.Base.{ℕ, ◌≡◌, refl, sym, subst, true, false, arith, ok}
use vortex_contracts.Base.Int.{ℤ}
use vortex_contracts.Settlement.Types.{DisputeResolution}
use vortex_contracts.Settlement.State.{Env, Storage, save_intent}
use vortex_contracts.Settlement.Accept.{is_open}
use vortex_contracts.Settlement.Dispute.{
  Escrow, Release, begin_fill, dispute_fill, resolve_dispute, release_outcome, release_fill,
}
use vortex_contracts.Settlement.Success.Escrows.{
  begin_fill-eq-ok, dispute_fill-eq-ok, release_outcome-active, release_outcome-held, judge-active,
  release_fill-eq-ok, resolve_dispute-eq-ok,
}
use vortex_contracts.Settlement.Counts.Moves.{IsCounted, Counted-keep, Counted-settle, is_held}

-- A release ends a held intent in a state that is neither open nor held.
release_states :
    (e : Env) (s : Storage) (x : Escrow) {o : Release}
    → release_outcome e x x.intent.state ≡ ok o
    → (is_held x.intent.state ≡ true) × (is_held o.state ≡ false) × (is_open o.state ≡ false)
release_states e s x h = ground (arith, release_outcome-held e s x x.intent.state h)

module _ (e : Env) (s : Storage) {s' : Storage} (c : IsCounted s) where
  pub begin_fill-IsCounted :
      (solver id : ℕ) (amount : ℤ) → begin_fill e solver id amount s ≡ ok s' → IsCounted s'
  unfolding save_intent
  begin_fill-IsCounted solver id amount h =
      let (i, n, p, w) = begin_fill-eq-ok e s solver id amount h in
      subst IsCounted (sym w)
        (Counted-keep c id i _ p.intent_found (rw p.was_accepted) (λ a. rw p.was_accepted))

  pub dispute_fill-IsCounted : (user id : ℕ) → dispute_fill e user id s ≡ ok s' → IsCounted s'
  unfolding save_intent
  dispute_fill-IsCounted user id h =
      let (i, p, w) = dispute_fill-eq-ok e s user id h in
      subst IsCounted (sym w)
        (Counted-keep c id i _ p.intent_found (rw p.was_filling) (λ a. rw p.was_filling))

  pub resolve_dispute-IsCounted :
      (arbiter id : ℕ) (r : DisputeResolution)
      → resolve_dispute e arbiter id r s ≡ ok s'
      → IsCounted s'
  unfolding save_intent
  resolve_dispute-IsCounted arbiter id r h =
      let (x, v, p, d, j, w) = resolve_dispute-eq-ok e s arbiter id r h in
      subst IsCounted (sym w) (
        Counted-settle c id x.solver x.intent _ x.found_record v.solver_record p.intent_found
          p.solver_found (rw d) p.assigned (refl, refl) (judge-active e s x r j))

  pub release_fill-IsCounted : (id : ℕ) → release_fill e id s ≡ ok s' → IsCounted s'
  unfolding save_intent
  release_fill-IsCounted id h =
      let (x, o, p, r, w) = release_fill-eq-ok e s id h in
      let (was_held, now_held, now_open) = release_states e s x r in
      subst IsCounted (sym w) (
        Counted-settle c id x.solver x.intent _ x.found_record o.solver_record p.intent_found
          p.solver_found was_held p.assigned (now_held, now_open)
          (release_outcome-active e s x x.intent.state r))
