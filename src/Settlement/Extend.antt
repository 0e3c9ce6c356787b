-- ===== src/Settlement/Extend.antt =====
-- intent_settlement/src/lib.rs: the extension of a solver's deadline, `request_extension`, with the
-- budget that the solver's score gives, `extension_cap_secs`.
use vortex_contracts.Base.{
  ℕ, ◌+◌, ◌*◌, ◌/◌, ◌%◌, min, ◌&&◌, not, true, false, none, some, leb, ltb, ◌==◌, if◌then◌else◌,
  is_some_of, get_or, ok, trap, ◌>>=◌, ◌>>◌, fail_if,
}
use vortex_contracts.Base.Checked.{u64_bound, i128_bound, fits, add_u64, sub_u64, sat_add_u64}
use vortex_contracts.Base.Dict.{get}
use vortex_contracts.Settlement.Types.{IntentRecord, SolverRecord, Error}
use vortex_contracts.Settlement.State.{
  Env, Storage, Call, update, load_intent, save_intent, require_auth,
}
use vortex_contracts.Settlement.Close.{is_accepted}

abbrev pub max_extension_duration : ℕ
max_extension_duration = 300

abbrev pub reputation_volume_scale : ℕ
reputation_volume_scale = 1_000_000_000_000

-- The conversion to `u64` keeps the low 64 bits, and a division by 0 is a trap.
unfoldable pub volume_decay_bps : ℕ → Call ℕ
volume_decay_bps vol = do
  d ← fits i128_bound (reputation_volume_scale + vol + 1)
  if d % u64_bound == 0 then trap else ok (reputation_volume_scale * 10_000 / (d % u64_bound))

unfoldable pub compute_reputation_score : SolverRecord → Call ℕ
unfolding volume_decay_bps
compute_reputation_score r =
    let total_fills = r.fills_completed + r.fills_failed in
    if total_fills == 0 then ok 0 else (do
      decay ← volume_decay_bps r.total_volume
      multiplier ← sub_u64 10_000 (decay / 10)
      ok (r.fills_completed * 10_000 / total_fills * multiplier / 10_000))

-- The budget of a solver with so many fills and such a score, in hundredths of the base.
unfoldable pub extension_percent : ℕ → ℕ → ℕ
extension_percent fills score =
    if leb 1_000 fills && leb 9_000 score
    then 150
    else (if leb 200 fills && leb 8_500 score
        then 130
        else (if leb 50 fills && leb 7_000 score
            then 120
            else (if leb 10 fills && leb 5_000 score then 110 else 100)))

unfoldable pub extension_cap_secs : Env → Storage → ℕ → Call ℕ
unfolding compute_reputation_score extension_percent
extension_cap_secs e s solver = elim (get s.solvers solver) [
  | none ↦ ok (min max_extension_duration e.max_total_extension)
  | some r ↦ do
    score ← compute_reputation_score r
    let cap = max_extension_duration * extension_percent r.fills_completed score / 100
    ok (min cap e.max_total_extension)
]

unfoldable pub extension_checks : Env → ℕ → ℕ → Storage → Call (IntentRecord × ℕ × ℕ)
unfolding extension_cap_secs
extension_checks e solver id s = do
  require_auth e solver
  intent ← load_intent s id
  fail_if (not (is_accepted intent.state)) Error.intent_not_accepted
  fail_if (not (is_some_of intent.solver solver)) Error.unauthorized
  fail_if (elim (s.extension_granted id) [ some u ↦ true | none ↦ false ])
      Error.extension_already_granted
  let used = get_or (s.extension_granted id) 0
  cap ← extension_cap_secs e s solver
  let new_used = sat_add_u64 used max_extension_duration
  fail_if (ltb cap new_used) Error.extension_cap_exceeded
  deadline ← add_u64 intent.deadline max_extension_duration
  ok (intent, new_used, deadline)

unfoldable pub request_extension : Env → ℕ → ℕ → Storage → Call Storage
unfolding save_intent
request_extension e solver id s = do
  found ← extension_checks e solver id s
  let (intent, used, deadline) = found
  ok (
      save_intent (record s { extension_granted = update s.extension_granted id (some used) }) id
        (record intent { deadline = deadline }))
