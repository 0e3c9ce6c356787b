-- ===== src/Settlement/Counts/Lifecycle.antt =====
-- The counters over the life of an intent: `submit_intent`, `accept_intent`, `fill_intent`,
-- `slash_solver`, `cancel_intent`, `expire_intent`, `amend_intent`.
use vortex_contracts.Base.{
  ℕ, ◌+◌, ◌-◌, ◌≡◌, refl, sym, subst, Bool, false, arith, if◌then◌else◌, ok,
}
use vortex_contracts.Base.Int.{ℤ}
use vortex_contracts.Base.Dict.{put}
use vortex_contracts.Settlement.State.{Env, Storage, save_intent}
use vortex_contracts.Settlement.Accept.{accept_effects, accept_intent_inner_body}
use vortex_contracts.Settlement.Fill.{
  Delivery, filled_intent, credited, fill_effects, fill_intent_inner, completes,
}
use vortex_contracts.Settlement.Slash.{slash_effects, slash_solver}
use vortex_contracts.Settlement.Close.{end_intent, cancel_intent, expire_intent, amend_intent}
use vortex_contracts.Settlement.Submit.{Request, new_intent, submit_effects, submit_intent_inner}
use vortex_contracts.Settlement.Success.Outcomes.{
  accept_intent-eq-ok, fill_intent-eq-ok, slash_solver-eq-ok, cancel_intent-eq-ok,
  expire_intent-eq-ok, amend_intent-eq-ok, submit_intent-eq-ok,
}
use vortex_contracts.Settlement.Counts.Moves.{
  IsCounted, Counted, Counted-keep, Counted-take, Counted-leave, Counted-end, Counted-new,
  open_weight, is_held,
}

-- A fill that completes the intent closes it, and any other opens it again.
filled_open :
    (now : ℕ) (d : Delivery) → open_weight (filled_intent now d) ≡ (if completes d then 0 else 1)
unfolding filled_intent
filled_open now d = ground arith

filled_not_held : (now : ℕ) (d : Delivery) → is_held (filled_intent now d).state ≡ false
unfolding filled_intent
filled_not_held now d = ground arith

credited_leaves : (d : Delivery) → (credited d).active_intents ≡ d.solver_record.active_intents - 1
unfolding credited
credited_leaves d = refl

module _ (e : Env) (s : Storage) {s' : Storage} (c : IsCounted s) where
  pub submit_intent-IsCounted :
      (user : ℕ) (q : Request) {id : ℕ}
      → submit_intent_inner e user q s ≡ ok (id, s')
      → IsCounted s'
  unfolding submit_effects
  submit_intent-IsCounted user q h =
      let (b, pages, p, _, w) = submit_intent-eq-ok e s user q h in
      subst IsCounted (sym w) (Counted-new c b.intent_id (new_intent e user q b) p.is_new refl)

  pub accept_intent-IsCounted :
      (solver id bt : ℕ) → accept_intent_inner_body e solver id bt s ≡ ok s' → IsCounted s'
  unfolding accept_effects
  accept_intent-IsCounted solver id bt h =
      let (i, r, p, w) = accept_intent-eq-ok e s solver id bt h in
      subst IsCounted (sym w)
        (Counted-take c id solver i _ r _ p.intent_found p.solver_found p.was_open refl refl refl)

  pub fill_intent-IsCounted :
      (solver id : ℕ) (amount : ℤ) (q : Bool)
      → fill_intent_inner e solver id amount q s ≡ ok s'
      → IsCounted s'
  unfolding fill_effects
  fill_intent-IsCounted solver id amount q h =
      let (d, x, p, w) = fill_intent-eq-ok e s solver id amount q h in
      subst IsCounted (sym w) (
        subst
          (λ n.
            Counted (s.open_intents + n) (put s.solvers solver (credited d))
              (put s.intents id (filled_intent e.now d)))
          (filled_open e.now d)
          (Counted-leave c id solver d.intent (filled_intent e.now d) d.solver_record (credited d)
            p.intent_found p.solver_found (rw p.was_accepted) p.assigned (filled_not_held e.now d)
            (credited_leaves d)))

  pub slash_solver-IsCounted : (id : ℕ) → slash_solver e id s ≡ ok s' → IsCounted s'
  unfolding slash_effects
  slash_solver-IsCounted id h =
      let (m, x, b, p, _, w) = slash_solver-eq-ok e s id h in
      subst IsCounted (sym w) (
        Counted-leave c id m.solver m.intent _ m.solver_record _ p.intent_found p.solver_found
          (rw p.was_accepted) p.assigned refl refl)

  pub cancel_intent-IsCounted : (user id : ℕ) → cancel_intent e user id s ≡ ok s' → IsCounted s'
  unfolding end_intent
  cancel_intent-IsCounted user id h =
      let (i, p, w) = cancel_intent-eq-ok e s user id h in
      subst IsCounted (sym w) (Counted-end c id i _ p.intent_found p.was_open refl refl)

  pub expire_intent-IsCounted : (id : ℕ) → expire_intent e id s ≡ ok s' → IsCounted s'
  unfolding end_intent
  expire_intent-IsCounted id h =
      let (i, p, w) = expire_intent-eq-ok e s id h in
      subst IsCounted (sym w) (Counted-end c id i _ p.intent_found p.was_open refl refl)

  pub amend_intent-IsCounted :
      (user id : ℕ) (m : ℤ) (d : ℕ) → amend_intent e user id m d s ≡ ok s' → IsCounted s'
  unfolding save_intent
  amend_intent-IsCounted user id m d h =
      let (i, p, w) = amend_intent-eq-ok e s user id m d h in
      subst IsCounted (sym w) (Counted-keep c id i _ p.intent_found refl (λ _. refl))
