-- ===== src/Settlement/Counts/Moves.antt =====
-- One lemma for each way in which an operation changes the intents and the solvers.
use vortex_contracts.Base.{
  ℕ, ◌+◌, ◌-◌, ◌≡◌, Bool, true, false, ◌&&◌, none, some, arith, if◌then◌else◌, is_some_of,
}
use vortex_contracts.Base.Dict.{
  Dict, get, put, remove, get-put, get-remove, sum_by, weight, sum_by-put,
}
use vortex_contracts.Settlement.Types.{IntentState, IntentRecord, SolverRecord}
use vortex_contracts.Settlement.State.{Storage}
use vortex_contracts.Settlement.Accept.{is_open}

-- The states in which an intent keeps its solver bound.
abbrev pub is_held : IntentState → Bool
is_held IntentState.accepted = true
is_held IntentState.filling = true
is_held IntentState.disputed = true
is_held _ = false

abbrev pub open_weight : IntentRecord → ℕ
open_weight i = if is_open i.state then 1 else 0

abbrev pub held_weight : ℕ → IntentRecord → ℕ
held_weight a i = if is_held i.state && is_some_of i.solver a then 1 else 0

abbrev pub active : SolverRecord → ℕ
active r = r.active_intents

abbrev pub active_of : Dict SolverRecord → ℕ → ℕ
active_of solvers a = weight active (get solvers a)

-- The open intents are counted, and so are the intents that each solver holds.
pub record Counted (open_ : ℕ) (solvers : Dict SolverRecord) (intents : Dict IntentRecord)
    : Type 0 where
  pub open_exact : open_ ≡ sum_by open_weight intents
  pub active_exact : (a : ℕ) → active_of solvers a ≡ sum_by (held_weight a) intents

abbrev pub IsCounted : Storage → Type 0
IsCounted s = Counted s.open_intents s.solvers s.intents

module _ {o : ℕ} {solvers : Dict SolverRecord} {intents : Dict IntentRecord}
    (c : Counted o solvers intents) where
  -- The intent stays as open and as held as it was.
  pub Counted-keep :
      (id : ℕ) (i i' : IntentRecord)
      → get intents id ≡ some i
      → open_weight i' ≡ open_weight i
      → ((a : ℕ) → held_weight a i' ≡ held_weight a i)
      → Counted o solvers (put intents id i')
  Counted-keep id i i' hi ho hh = record {
    open_exact = ground (arith, c.open_exact, sum_by-put open_weight intents id i');
    active_exact =
        λ a. ground (arith, c.active_exact a, hh a, sum_by-put (held_weight a) intents id i');
  }

  -- A solver takes an open intent.
  pub Counted-take :
      (id solver : ℕ) (i i' : IntentRecord) (r r' : SolverRecord)
      → get intents id ≡ some i
      → get solvers solver ≡ some r
      → is_open i.state ≡ true
      → is_held i'.state ≡ true
      → i'.solver ≡ some solver
      → r'.active_intents ≡ r.active_intents + 1
      → Counted (o - 1) (put solvers solver r') (put intents id i')
  Counted-take id solver i i' r r' hi hr ho hh hs ha = record {
    open_exact = ground (arith, c.open_exact, sum_by-put open_weight intents id i');
    active_exact = λ a. ground (
      arith,
      c.active_exact a,
      sum_by-put (held_weight a) intents id i',
      get-put solvers solver a r',
    );
  }

  -- A held intent leaves its solver.
  pub Counted-leave :
      (id solver : ℕ) (i i' : IntentRecord) (r r' : SolverRecord)
      → get intents id ≡ some i
      → get solvers solver ≡ some r
      → is_held i.state ≡ true
      → i.solver ≡ some solver
      → is_held i'.state ≡ false
      → r'.active_intents ≡ r.active_intents - 1
      → Counted (o + open_weight i') (put solvers solver r') (put intents id i')
  Counted-leave id solver i i' r r' hi hr hh hs hn ha = record {
    open_exact = ground (arith, c.open_exact, sum_by-put open_weight intents id i');
    active_exact = λ a. ground (
      arith,
      c.active_exact a,
      sum_by-put (held_weight a) intents id i',
      get-put solvers solver a r',
    );
  }

  -- A held intent ends.
  pub Counted-settle :
      (id solver : ℕ) (i i' : IntentRecord) (r r' : SolverRecord)
      → get intents id ≡ some i
      → get solvers solver ≡ some r
      → is_held i.state ≡ true
      → i.solver ≡ some solver
      → (is_held i'.state ≡ false) × (is_open i'.state ≡ false)
      → r'.active_intents ≡ r.active_intents - 1
      → Counted o (put solvers solver r') (put intents id i')
  Counted-settle id solver i i' r r' hi hr hh hs hn ha =
      let all = Counted-leave id solver i i' r r' hi hr hh hs hn.0 ha in
      record { open_exact = ground (arith, all.open_exact, hn.1); active_exact = all.active_exact }

  -- An open intent ends.
  pub Counted-end :
      (id : ℕ) (i i' : IntentRecord)
      → get intents id ≡ some i
      → is_open i.state ≡ true
      → is_open i'.state ≡ false
      → is_held i'.state ≡ false
      → Counted (o - 1) solvers (put intents id i')
  Counted-end id i i' hi ho hn hh = record {
    open_exact = ground (arith, c.open_exact, sum_by-put open_weight intents id i');
    active_exact = λ a. ground (arith, c.active_exact a, sum_by-put (held_weight a) intents id i');
  }

  -- A new intent is open.
  pub Counted-new :
      (id : ℕ) (i : IntentRecord)
      → get intents id ≡ none
      → is_open i.state ≡ true
      → Counted (o + 1) solvers (put intents id i)
  Counted-new id i hi ho = record {
    open_exact = ground (arith, c.open_exact, sum_by-put open_weight intents id i);
    active_exact = λ a. ground (arith, c.active_exact a, sum_by-put (held_weight a) intents id i);
  }

  -- A solver's record changes, and the number of its intents does not.
  pub Counted-solver :
      (solver : ℕ) (r : SolverRecord)
      → r.active_intents ≡ active_of solvers solver
      → Counted o (put solvers solver r) intents
  Counted-solver solver r h = record {
    open_exact = c.open_exact;
    active_exact = λ a. ground (arith, c.active_exact a, get-put solvers solver a r);
  }

  -- An idle solver leaves.
  pub Counted-remove :
      (solver : ℕ) → active_of solvers solver ≡ 0 → Counted o (remove solvers solver) intents
  Counted-remove solver h = record {
    open_exact = c.open_exact;
    active_exact = λ a. ground (arith, c.active_exact a, get-remove solvers solver a);
  }
