-- ===== src/Timelock/Examples.antt =====
-- An operation that is scheduled and executed, one that is cancelled, and the theorems at these.
use vortex_contracts.Base.{ℕ, ◌+◌, ◌≡◌, ◌≤◌, refl, Bool, true, false, some, [], ◌∷◌, ok, length}
use vortex_contracts.Base.Dict.{get, put}
use vortex_contracts.Timelock.Model.{
  Env, Call, Operation, Controller, schedule_batch, schedule_checks, cancel, execute,
  execute_checks, load_open, require_role, check_predecessor, invoke_all, mark_executed,
  hash_operation, calls_bytes, args_bytes, get_min_delay, get_grace_period, is_operation_done,
}
use vortex_contracts.Timelock.Runs.{logged}
use vortex_contracts.Timelock.Trace.{here, schedule_batch-delays, cancel-check_predecessor}

abbrev at_time : ℕ → Env
at_time now = record {
  this = 9;
  now = now;
  address_xdr = λ a. a ∷ [];
  symbol_xdr = λ a. a ∷ [];
  value_xdr = λ a. a ∷ [];
  id_bytes = λ a. a ∷ [];
  sha256 = λ bytes. length bytes;
  invoke_ok = λ _. true;
}

-- The controller holds every role itself.
abbrev fresh : Controller
fresh = record {
  min_delay = some 100;
  grace = some 1_209_600;
  roles = λ _. (9, true) ∷ [];
  operations = [];
  invoked = [];
}

abbrev payment : Call
payment = record { target = 70; function = 5; args = 1 ∷ 2 ∷ [] }

abbrev stored : Bool → Operation
stored b = record {
  id = 6;
  predecessor = 0;
  salt = 3;
  calls = payment ∷ [];
  ready_at = 1_150;
  expires_at = 1_210_750;
  executed = b;
}

abbrev waiting_for : Controller
waiting_for = record fresh { operations = (6, stored false) ∷ [] }

abbrev paid : Controller
paid = record fresh { operations = (6, stored true) ∷ []; invoked = payment ∷ [] }

abbrev dropped : Controller
dropped = record fresh { operations = (6, stored true) ∷ [] }

scheduled_run : schedule_batch (at_time 1_000) (payment ∷ []) 0 3 150 fresh ≡ ok (6, waiting_for)
unfolding schedule_batch schedule_checks require_role hash_operation calls_bytes args_bytes get put
scheduled_run = refl

executed_run : execute (at_time 1_200) 6 waiting_for ≡ ok paid
unfolding execute execute_checks load_open require_role hash_operation calls_bytes args_bytes
    check_predecessor invoke_all mark_executed get put
executed_run = refl

cancelled_run : cancel (at_time 1_010) 6 waiting_for ≡ ok dropped
unfolding cancel load_open require_role mark_executed get put
cancelled_run = refl

is_done : is_operation_done 6 paid ≡ true
unfolding is_operation_done get
is_done = refl

schedule_batch-delays_example :
    (get_min_delay fresh ≤ 150)
    × (1_000 + 150 ≤ 1_200)
    × (1_200 ≤ 1_000 + 150 + get_grace_period fresh)
    × (paid.invoked ≡ logged (payment ∷ []) waiting_for.invoked)
schedule_batch-delays_example =
    schedule_batch-delays (at_time 1_000) (at_time 1_200) fresh (payment ∷ []) 0 3 150 scheduled_run
      here executed_run

cancel-check_predecessor_example :
    (check_predecessor 6 dropped ≡ ok tt) × (dropped.invoked ≡ waiting_for.invoked)
cancel-check_predecessor_example =
    cancel-check_predecessor (at_time 1_010) waiting_for 6 cancelled_run
