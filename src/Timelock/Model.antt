-- ===== src/Timelock/Model.antt =====
-- timelock/src/lib.rs: operations that a role schedules, cancels or executes after a delay. The
-- host's encodings and its hash are parameters, and so is whether a call of another contract
-- succeeds; the host forbids such a call to enter the controller again.
use vortex_contracts.Base.{
  ℕ, Bool, true, false, not, Option, none, some, List, [], ◌∷◌, ◌++◌, ltb, ◌==◌, if◌then◌else◌,
  get_or, Result, ok, ◌>>=◌, ◌>>◌, or_err, fail_if, host,
}
use vortex_contracts.Base.Checked.{add_u64}
use vortex_contracts.Base.Dict.{Dict, get, put}

pub data OperationState : Type 0 where
  unset waiting ready done : OperationState

pub data TimelockError : Type 0 where
  unauthorized insufficient_delay already_scheduled not_waiting not_ready : TimelockError
  already_done unknown_operation unmet_predecessor invalid_predecessor : TimelockError
  expired not_expired invalid_predecessor_state : TimelockError

-- Addresses, symbols and values are numbers.
pub record Call : Type 0 where
  pub target : ℕ
  pub function : ℕ
  pub args : List ℕ

pub record Operation : Type 0 where
  pub id : ℕ
  pub predecessor : ℕ
  pub salt : ℕ
  pub calls : List Call
  pub ready_at : ℕ
  pub expires_at : ℕ
  pub executed : Bool

abbrev pub proposer_role : ℕ
proposer_role = 1

abbrev pub executor_role : ℕ
executor_role = 2

abbrev pub canceller_role : ℕ
canceller_role = 3

abbrev pub admin_role : ℕ
admin_role = 4

abbrev pub default_grace_period : ℕ
default_grace_period = 1_209_600

pub record Env : Type 0 where
  -- The controller's own address.
  pub this : ℕ
  pub now : ℕ
  pub address_xdr : ℕ → List ℕ
  pub symbol_xdr : ℕ → List ℕ
  pub value_xdr : ℕ → List ℕ
  pub id_bytes : ℕ → List ℕ
  pub sha256 : List ℕ → ℕ
  pub invoke_ok : Call → Bool

pub record Controller : Type 0 where
  pub min_delay : Option ℕ
  pub grace : Option ℕ
  pub roles : ℕ → Dict Bool
  pub operations : Dict Operation
  -- The calls of other contracts made so far, the last one first.
  pub invoked : List Call

abbrev pub Outcome : Type 0 → Type 0
Outcome A = Result TimelockError A

abbrev pub set_role : ℕ → ℕ → Bool → Controller → Controller
set_role role account b s = record s {
  roles = λ r. if r == role then put (s.roles r) account b else s.roles r;
}

abbrev pub grant_all : ℕ → List ℕ → Controller → Controller
grant_all role [] s = s
grant_all role (a ∷ accounts) s = grant_all role accounts (set_role role a true s)

unfoldable pub constructor : ℕ → List ℕ → List ℕ → List ℕ → ℕ → Controller → Controller
constructor admin proposers executors cancellers min_delay s =
    let started = record s { min_delay = some min_delay; grace = some default_grace_period } in
    let administered = set_role admin_role admin true started in
    let proposed = grant_all proposer_role proposers administered in
    grant_all canceller_role cancellers (grant_all executor_role executors proposed)

abbrev pub has_role : ℕ → ℕ → Controller → Bool
has_role role account s = get_or (get (s.roles role) account) false

-- The account that is asked for is the controller itself.
unfoldable pub require_role : Env → ℕ → Controller → Outcome (Unit {0})
require_role e role s = fail_if (not (has_role role e.this s)) TimelockError.unauthorized

abbrev pub require_admin : Env → Controller → Outcome (Unit {0})
require_admin e s = require_role e admin_role s

unfoldable pub grant_role : Env → ℕ → ℕ → Controller → Outcome Controller
grant_role e role account s = do require_admin e s; ok (set_role role account true s)

unfoldable pub revoke_role : Env → ℕ → ℕ → Controller → Outcome Controller
revoke_role e role account s = do require_admin e s; ok (set_role role account false s)

abbrev pub get_min_delay : Controller → ℕ
get_min_delay s = get_or s.min_delay 0

abbrev pub get_grace_period : Controller → ℕ
get_grace_period s = get_or s.grace default_grace_period

unfoldable pub update_delay : Env → ℕ → Controller → Outcome Controller
update_delay e new_delay s = do require_admin e s; ok (record s { min_delay = some new_delay })

unfoldable pub args_bytes : Env → List ℕ → List ℕ
args_bytes e [] = []
args_bytes e (a ∷ args) = e.value_xdr a ++ args_bytes e args

unfoldable pub calls_bytes : Env → List Call → List ℕ
unfolding args_bytes
calls_bytes e [] = []
calls_bytes e (c ∷ calls) =
    (e.address_xdr c.target ++ (e.symbol_xdr c.function ++ args_bytes e c.args))
    ++ calls_bytes e calls

unfoldable pub hash_operation : Env → List Call → ℕ → ℕ → ℕ
unfolding calls_bytes
hash_operation e calls predecessor salt =
    e.sha256 (calls_bytes e calls ++ (e.id_bytes predecessor ++ e.id_bytes salt))

-- The identifier of 32 zero bytes.
abbrev pub zero_hash : ℕ
zero_hash = 0

abbrev pub is_scheduled : ℕ → Controller → Bool
is_scheduled id s = elim (get s.operations id) [ none ↦ false | some _ ↦ true ]

unfoldable pub schedule_checks : Env → List Call → ℕ → ℕ → ℕ → Controller → Outcome (Unit {0})
unfolding require_role hash_operation
schedule_checks e calls predecessor salt delay s = do
  require_role e proposer_role s
  fail_if (ltb delay (get_min_delay s)) TimelockError.insufficient_delay
  fail_if (is_scheduled (hash_operation e calls predecessor salt) s) TimelockError.already_scheduled
  fail_if (if predecessor == zero_hash then false else not (is_scheduled predecessor s))
      TimelockError.invalid_predecessor

abbrev pub new_operation : ℕ → List Call → ℕ → ℕ → ℕ → ℕ → Operation
new_operation id calls predecessor salt start end = record {
  id = id;
  predecessor = predecessor;
  salt = salt;
  calls = calls;
  ready_at = start;
  expires_at = end;
  executed = false;
}

unfoldable pub schedule_batch : Env → List Call → ℕ → ℕ → ℕ → Controller → Outcome (ℕ × Controller)
unfolding schedule_checks hash_operation
schedule_batch e calls predecessor salt delay s = do
  schedule_checks e calls predecessor salt delay s
  start ← add_u64 e.now delay
  end ← add_u64 start (get_grace_period s)
  let id = hash_operation e calls predecessor salt
  let op = new_operation id calls predecessor salt start end
  ok (id, record s { operations = put s.operations id op })

unfoldable pub schedule : Env → Call → ℕ → ℕ → ℕ → Controller → Outcome (ℕ × Controller)
unfolding schedule_batch
schedule e call predecessor salt delay s = schedule_batch e (call ∷ []) predecessor salt delay s

unfoldable pub mark_executed : ℕ → Operation → Controller → Controller
mark_executed id op s = record s {
  operations = put s.operations id (record op { executed = true });
}

-- The guards that `cancel` and `execute` share.
unfoldable pub load_open : Env → ℕ → ℕ → Controller → Outcome Operation
unfolding require_role
load_open e role id s = do
  require_role e role s
  op ← or_err (get s.operations id) TimelockError.unknown_operation
  fail_if op.executed TimelockError.already_done
  ok op

unfoldable pub cancel : Env → ℕ → Controller → Outcome Controller
unfolding load_open mark_executed
cancel e id s = do op ← load_open e canceller_role id s; ok (mark_executed id op s)

unfoldable pub check_predecessor : ℕ → Controller → Outcome (Unit {0})
check_predecessor predecessor s = if predecessor == zero_hash then ok tt else (do
  pred ← or_err (get s.operations predecessor) TimelockError.invalid_predecessor
  fail_if (not pred.executed) TimelockError.unmet_predecessor)

unfoldable pub execute_checks : Env → ℕ → Controller → Outcome Operation
unfolding load_open hash_operation check_predecessor
execute_checks e id s = do
  op ← load_open e executor_role id s
  fail_if (ltb e.now op.ready_at) TimelockError.not_ready
  fail_if (ltb op.expires_at e.now) TimelockError.expired
  fail_if (not (hash_operation e op.calls op.predecessor op.salt == id))
      TimelockError.unknown_operation
  check_predecessor op.predecessor s
  ok op

-- The calls in their order; one that fails makes the whole execution trap.
unfoldable pub invoke_all : Env → List Call → List Call → Outcome (List Call)
invoke_all e [] log = ok log
invoke_all e (c ∷ calls) log = do host (e.invoke_ok c); invoke_all e calls (c ∷ log)

unfoldable pub execute : Env → ℕ → Controller → Outcome Controller
unfolding execute_checks mark_executed invoke_all
execute e id s = do
  op ← execute_checks e id s
  log ← invoke_all e op.calls s.invoked
  ok (record (mark_executed id op s) { invoked = log })

unfoldable pub get_operation_state : Env → ℕ → Controller → OperationState
get_operation_state e id s = elim (get s.operations id) [
  | none ↦ OperationState.unset
  | some op ↦
      if op.executed
      then OperationState.done
      else (if ltb e.now op.ready_at
          then OperationState.waiting
          else (if ltb op.expires_at e.now then OperationState.done else OperationState.ready))
]

unfoldable pub is_operation_done : ℕ → Controller → Bool
is_operation_done id s = elim (get s.operations id) [ none ↦ false | some op ↦ op.executed ]
