-- ===== src/Settlement/Trace.antt =====
-- The contract as a step relation: each step is one successful call, at any time and in any host
-- environment. What a step does to the map of the intents is one `Change`.
use vortex_contracts.Base.{
  ℕ, ◌+◌, ◌≤◌, ◌≡◌, ◌⊎◌, ◌||◌, Bool, true, false, Option, none, some, [], ok,
}
use vortex_contracts.Base.Int.{ℤ}
use vortex_contracts.Base.Dict.{get, put, remove}
use vortex_contracts.Settlement.Types.{
  IntentState, IntentRecord, DisputeResolution, accepted, filling, disputed, filled, resolved,
  cancelled, expired, open_,
}
use vortex_contracts.Settlement.State.{Env, Storage, update}
use vortex_contracts.Settlement.Accept.{is_open, accept_intent_inner_body}
use vortex_contracts.Settlement.Fill.{Delivery, filled_intent, fill_intent_inner}
use vortex_contracts.Settlement.Slash.{slash_solver}
use vortex_contracts.Settlement.Close.{
  is_just_open, is_bidding, cancel_intent, expire_intent, amend_intent,
}
use vortex_contracts.Settlement.Dispute.{begin_fill, dispute_fill, resolve_dispute, release_fill}
use vortex_contracts.Settlement.Solvers.{
  register_solver_inner, deregister_solver, withdraw_bond_inner,
}
use vortex_contracts.Settlement.Submit.{Request, submit_intent_inner}
use vortex_contracts.Settlement.Extend.{request_extension}
use vortex_contracts.Settlement.Prune.{is_terminal, close_intent, set_intent_retention}
pub mod Changes
pub mod Invariants
pub mod Lasting
pub mod Paused

pub data Step (s s' : Storage) : Type 0 where
  submit :
      (e : Env) (user : ℕ) (q : Request) (id : ℕ)
      → submit_intent_inner e user q s ≡ ok (id, s')
      → Step s s'
  accept :
      (e : Env) (solver id bt : ℕ) → accept_intent_inner_body e solver id bt s ≡ ok s' → Step s s'
  fill :
      (e : Env) (solver id : ℕ) (amount : ℤ) (p : Bool)
      → fill_intent_inner e solver id amount p s ≡ ok s'
      → Step s s'
  slash : (e : Env) (id : ℕ) → slash_solver e id s ≡ ok s' → Step s s'
  cancel : (e : Env) (user id : ℕ) → cancel_intent e user id s ≡ ok s' → Step s s'
  expire : (e : Env) (id : ℕ) → expire_intent e id s ≡ ok s' → Step s s'
  amend : (e : Env) (user id : ℕ) (m : ℤ) (d : ℕ) → amend_intent e user id m d s ≡ ok s' → Step s s'
  begin :
      (e : Env) (solver id : ℕ) (amount : ℤ) → begin_fill e solver id amount s ≡ ok s' → Step s s'
  dispute : (e : Env) (user id : ℕ) → dispute_fill e user id s ≡ ok s' → Step s s'
  resolve :
      (e : Env) (arbiter id : ℕ) (r : DisputeResolution)
      → resolve_dispute e arbiter id r s ≡ ok s'
      → Step s s'
  release : (e : Env) (id : ℕ) → release_fill e id s ≡ ok s' → Step s s'
  register :
      (e : Env) (solver bt : ℕ) (amount : ℤ)
      → register_solver_inner e solver bt amount s ≡ ok s'
      → Step s s'
  withdraw :
      (e : Env) (solver bt : ℕ) (amount : ℤ)
      → withdraw_bond_inner e solver bt amount s ≡ ok s'
      → Step s s'
  deregister : (e : Env) (solver : ℕ) → deregister_solver e solver s ≡ ok s' → Step s s'
  extend : (e : Env) (solver id : ℕ) → request_extension e solver id s ≡ ok s' → Step s s'
  close : (e : Env) (id : ℕ) → close_intent e id s ≡ ok s' → Step s s'
  retain : (e : Env) (secs : ℕ) → set_intent_retention e secs s ≡ ok s' → Step s s'

-- Storage that no user has written yet: whatever the admin has configured.
pub record IsInitial (s : Storage) : Type 0 where
  pub no_intents : s.intents ≡ []
  pub no_solvers : s.solvers ≡ []
  pub none_open : s.open_intents ≡ 0

pub data Reach (s : Storage) : Storage → Type 0 where
  here : Reach s s
  next : {t u : Storage} → Reach s t → Step t u → Reach s u

-- What one call may do to an intent.
pub data Edge (i i' : IntentRecord) : Type 0 where
  taken :
      (a bt tier d : ℕ)
      → is_open i.state ≡ true
      → i' ≡ record i {
        solver = some a;
        state = accepted;
        bond_token = bt;
        solver_tier = tier;
        deadline = d;
      }
      → Edge i i'
  delivered :
      (now : ℕ) (d : Delivery)
      → d.intent ≡ i
      → i.state ≡ accepted
      → i' ≡ filled_intent now d
      → Edge i i'
  missed :
      (d : ℕ)
      → i.state ≡ accepted
      → i' ≡ record i { solver = none; solver_tier = 0; deadline = d; state = open_ }
      → Edge i i'
  ended :
      (now : ℕ) (st : IntentState)
      → is_open i.state ≡ true
      → (st ≡ cancelled) ⊎ (st ≡ expired)
      → i' ≡ record i { state = st; terminal_at = some now }
      → Edge i i'
  amended :
      (m : ℤ) (d : ℕ)
      → (is_just_open i.state || is_bidding i.state) ≡ true
      → i' ≡ record i { min_dst_amount = m; deadline = d }
      → Edge i i'
  extended : (d : ℕ) → i.state ≡ accepted → i' ≡ record i { deadline = d } → Edge i i'
  escrowed :
      (until received : ℕ)
      → i.state ≡ accepted
      → i'
        ≡ record i { state = filling; dispute_deadline = some until; fill_amount = some received }
      → Edge i i'
  contested :
      (now : ℕ)
      → i.state ≡ filling
      → i' ≡ record i { state = disputed; dispute_raised_at = some now }
      → Edge i i'
  settled :
      (now n : ℕ) (st : IntentState) (r : Option DisputeResolution)
      → ((i.state ≡ filling) × (st ≡ filled)) ⊎ ((i.state ≡ disputed) × (st ≡ resolved))
      → i' ≡ record i {
        total_filled = i.total_filled + n;
        fill_amount = some (i.total_filled + n);
        filled_at = some now;
        state = st;
        terminal_at = some now;
        resolution = r;
      }
      → Edge i i'

-- What one call may do to the map of the intents and to the marks of the deleted ones.
pub data Change (s s' : Storage) : Type 0 where
  same : s'.intents ≡ s.intents → s'.tombstone ≡ s.tombstone → Change s s'
  created :
      (id : ℕ) (i' : IntentRecord)
      → get s.intents id ≡ none
      → s.tombstone id ≡ false
      → (i'.state ≡ open_) × (i'.solver ≡ none) × (i'.terminal_at ≡ none) × (i'.total_filled ≡ 0)
      → s'.intents ≡ put s.intents id i'
      → s'.tombstone ≡ s.tombstone
      → Change s s'
  changed :
      (id : ℕ) (i i' : IntentRecord)
      → get s.intents id ≡ some i
      → Edge i i'
      → s'.intents ≡ put s.intents id i'
      → s'.tombstone ≡ s.tombstone
      → Change s s'
  closed :
      (id : ℕ) (i : IntentRecord)
      → get s.intents id ≡ some i
      → is_terminal i.state ≡ true
      → s'.intents ≡ remove s.intents id
      → s'.tombstone ≡ update s.tombstone id true
      → Change s s'
