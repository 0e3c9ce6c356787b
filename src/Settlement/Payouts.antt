-- ===== src/Settlement/Payouts.antt =====
-- What the operations pay, against what the parties are due.
use vortex_contracts.Base.{
  ℕ, ◌+◌, ◌*◌, ◌/◌, ◌≡◌, ◌≤◌, ◌⊎◌, inl, inr, ap, none, some, arith, ok, Bool, true, Bool-cases,
  get_or,
}
use vortex_contracts.Base.Token.{paid}
use vortex_contracts.Base.Int.{ℤ, pos, ◌≤ℤ◌, ltb_ℤ}
use vortex_contracts.Base.Dict.{get, put, get-put}
use vortex_contracts.Settlement.Types.{
  IntentRecord, IntentState, DisputeResolution, filled, partially_filled, filling, disputed, upheld,
  dismissed,
}
use vortex_contracts.Settlement.State.{Env, Storage, load_config, save_intent}
use vortex_contracts.Settlement.Fill.{
  Delivery, fill_intent_inner, filled_intent, fill_effects, completes,
}
use vortex_contracts.Settlement.Dispute.{
  Escrow, Release, Verdict, begin_fill, release_fill, resolve_dispute, release_outcome, judge,
}
use vortex_contracts.Settlement.Success.Payments.{fill_calls}
use vortex_contracts.Settlement.Success.Outcomes.{fill_intent-eq-ok}
use vortex_contracts.Settlement.Success.Escrows.{
  begin_fill-eq-ok, release_fill-eq-ok, resolve_dispute-eq-ok, pull_of,
}

-- The two ways in which a fill leaves an intent.
pub record Completed (i i' : IntentRecord) (n : ℕ) : Type 0 where
  pub is_filled : i'.state ≡ filled
  pub reaches : i.min_dst_amount ≤ℤ pos (i.total_filled + n)
  pub solver_kept : i'.solver ≡ i.solver

pub record Continued (i i' : IntentRecord) (n : ℕ) : Type 0 where
  pub is_partial : i'.state ≡ partially_filled
  pub falls_short : ltb_ℤ (pos (i.total_filled + n)) i.min_dst_amount ≡ true
  pub solver_freed : i'.solver ≡ none

filled_ends :
    (now : ℕ) (d : Delivery)
    → Completed d.intent (filled_intent now d) d.amount
      ⊎ Continued d.intent (filled_intent now d) d.amount
unfolding filled_intent
filled_ends now d = elim (Bool-cases (completes d)) [
  | inl p ↦ inl (ground arith)
  | inr p ↦ inr (ground arith)
]

-- A successful fill finds the intent, has a fee of its amount times the fee rate over 10000
-- rounded down, makes the transfer of the whole amount from the solver to the user and then the
-- fee's if it is positive, and adds the amount to the delivered total; the intent is then filled
-- if the total reaches the minimum, and otherwise partially filled, below the minimum and without
-- a solver.
pub fill_intent-settles :
    (e : Env) (s : Storage) (solver id : ℕ) (amount : ℤ) (q : Bool) {s' : Storage}
    → fill_intent_inner e solver id amount q s ≡ ok s'
    → (d : Delivery) × (get s.intents id ≡ some d.intent)
      × (amount ≡ pos d.amount)
      × (d.fee ≡ (d.amount * (load_config s).protocol_fee_bps) / 10_000)
      × (s'.calls ≡ fill_calls solver d s.calls)
      × (get s'.intents id ≡ some (filled_intent e.now d))
      × ((filled_intent e.now d).total_filled ≡ d.intent.total_filled + d.amount)
      × (Completed d.intent (filled_intent e.now d) d.amount
          ⊎ Continued d.intent (filled_intent e.now d) d.amount)
unfolding fill_effects save_intent filled_intent
fill_intent-settles e s solver id amount q h =
    let (d, x, p, w) = fill_intent-eq-ok e s solver id amount q h in
    (
      d,
      p.intent_found,
      p.delivered,
      p.fee_exact,
      ap (λ (u : Storage). u.calls) w,
      ground (arith, w, get-put s.intents id id (filled_intent e.now d)),
      ground arith,
      filled_ends e.now d,
    )

release_fee_le :
    (e : Env) (x : Escrow) (st : IntentState) {o : Release}
    → release_outcome e x st ≡ ok o
    → o.fee ≤ x.amount
unfolding release_outcome
release_fee_le e x filling h = ground arith
release_fee_le e x _ h = ground arith

-- A fill that nobody has disputed is released when the window has closed.
pub release_waits :
    (e : Env) (x : Escrow) (st : IntentState) {o : Release}
    → st ≡ filling
    → release_outcome e x st ≡ ok o
    → get_or x.intent.dispute_deadline 0 ≤ e.now
unfolding release_outcome
release_waits e x filling p h = ground arith
release_waits e x _ p h = ground arith

abbrev escrowed_intent : Env → Storage → IntentRecord → ℕ → ℕ → IntentRecord
escrowed_intent e s i solver n = record i {
  state = filling;
  dispute_deadline = some (e.now + 3_600);
  fill_amount = some (e.received (pull_of e s i solver n));
}

found_again :
    (s s' : Storage) (id : ℕ) (i' x : IntentRecord)
    → s'.intents ≡ put s.intents id i'
    → get s'.intents id ≡ some x
    → x ≡ i'
found_again s s' id i' x p h = ground (arith, get-put s.intents id id i')

-- If a fill is begun and then released in the resulting storage, the release comes at least the
-- dispute window of 3600 seconds after the beginning, and the transfers it makes add up to the
-- amount that the contract received into escrow.
pub begin_fill-release_fill :
    (e e' : Env) (s s1 s2 : Storage) (solver id : ℕ) (amount : ℤ)
    → begin_fill e solver id amount s ≡ ok s1
    → release_fill e' id s1 ≡ ok s2
    → (i : IntentRecord) × (n : ℕ) × (get s.intents id ≡ some i)
      × (amount ≡ pos n)
      × (e.now + 3_600 ≤ e'.now)
      × (paid s2.calls ≡ paid s1.calls + e.received (pull_of e s i solver n))
unfolding paid save_intent
begin_fill-release_fill e e' s s1 s2 solver id amount h g =
    let (i, n, p, w) = begin_fill-eq-ok e s solver id amount h in
    let (x, o, c, r, v) = release_fill-eq-ok e' s1 id g in
    let i' = escrowed_intent e s i solver n in
    let same = found_again s s1 id i' x.intent (ap (λ (u : Storage). u.intents) w) c.intent_found in
    let late = release_waits e' x x.intent.state (ap (λ (j : IntentRecord). j.state) same) r in
    let kept = ap (λ (j : IntentRecord). get_or j.fill_amount 0) same in
    (
      i,
      n,
      p.intent_found,
      p.escrowed,
      omega (arith, late, ap (λ (j : IntentRecord). get_or j.dispute_deadline 0) same),
      ground (
        arith,
        ap (λ (u : Storage). u.calls) v,
        release_fee_le e' x x.intent.state r,
        c.amount_exact,
        kept,
      ),
    )

judge_fee_le :
    (e : Env) (x : Escrow) (d : DisputeResolution) (s : Storage) {v : Verdict}
    → judge e x d s ≡ ok v
    → v.fee ≤ x.amount
unfolding judge
judge_fee_le e x upheld s h = ground arith
judge_fee_le e x dismissed s h = ground arith

-- A successful resolution is of a disputed intent, and its transfers add up to the recorded
-- escrow plus the slash of the verdict.
pub resolve_dispute-pays :
    (e : Env) (s : Storage) (arbiter id : ℕ) (d : DisputeResolution) {s' : Storage}
    → resolve_dispute e arbiter id d s ≡ ok s'
    → (x : Escrow) × (v : Verdict) × (get s.intents id ≡ some x.intent)
      × (x.intent.state ≡ disputed)
      × (judge e x d s ≡ ok v)
      × (x.amount ≡ get_or x.intent.fill_amount 0)
      × (paid s'.calls ≡ paid s.calls + x.amount + v.slash_amount)
unfolding paid
resolve_dispute-pays e s arbiter id d h =
    let (x, v, c, p, j, w) = resolve_dispute-eq-ok e s arbiter id d h in
    (
      x,
      v,
      c.intent_found,
      p,
      j,
      c.amount_exact,
      ground (arith, ap (λ (u : Storage). u.calls) w, judge_fee_le e x d s j),
    )
