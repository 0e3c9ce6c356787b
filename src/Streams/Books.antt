-- ===== src/Streams/Books.antt =====
-- What the contract holds of a token against what its streams owe, over every sequence of calls.
use vortex_contracts.Base.{
  ℕ, ◌+◌, ◌≡◌, ◌≢◌, refl, ap, true, false, none, some, [], arith, ok, inl, inr, Option-cases,
  if◌then◌else◌, ◌==◌, ◌||◌,
}
use vortex_contracts.Base.Int.{ℤ}
use vortex_contracts.Base.Dict.{get, put, sum_by, sum_by-put, sum_by-weight}
use vortex_contracts.Base.Token.{Host, paid_in, paid_out}
use vortex_contracts.Streams.Model.{
  Stream, Treasury, Schedule, new_stream, create_stream, withdraw, cancel, top_up, extend,
  initialize, propose_governor_transfer, accept_governor_transfer, pause, unpause,
}
use vortex_contracts.Streams.Ids.{
  ids_below, below_none, below_next, below_put, below_get, empty_below, not_empty, has_some,
  is_empty,
}
use vortex_contracts.Streams.Success.{
  create_stream-eq-ok, create_stream-governor, withdraw-eq-ok, cancel-eq-ok, top_up-eq-ok,
  extend-eq-ok,
}
use vortex_contracts.Streams.Vesting.{vested_amount-le}

-- The sums over the streams of one token, and the streams that the contract itself funds.
abbrev pub total_of : ℕ → Stream → ℕ
total_of token x = if x.token == token then x.total else 0

abbrev pub withdrawn_of : ℕ → Stream → ℕ
withdrawn_of token x = if x.token == token then x.withdrawn else 0

abbrev pub own : ℕ → Stream → ℕ
own this x = if x.sender == this then 1 else 0

-- The books of a token: what came in and what was withdrawn, against what went out and the totals.
pub record Balanced (this : ℕ) (s : Treasury) : Type 0 where
  pub books :
      (token : ℕ)
      → paid_in this token s.calls + sum_by (withdrawn_of token) s.streams
        ≡ paid_out this token s.calls + sum_by (total_of token) s.streams
  pub no_own : sum_by (own this) s.streams ≡ 0
  pub fresh : ids_below s.streams s.next_id ≡ true
  pub founded : (has_some s.governor || is_empty s.streams) ≡ true

-- One successful call. The contract at `this` does not fund a stream itself.
pub data Step (this : ℕ) (s s' : Treasury) : Type 0 where
  initialized : (e : Host) (g : ℕ) → initialize e g s ≡ ok s' → Step this s s'
  proposed : (e : Host) (g : ℕ) → propose_governor_transfer e g s ≡ ok s' → Step this s s'
  rotated : (e : Host) → accept_governor_transfer e s ≡ ok s' → Step this s s'
  paused : (e : Host) → pause e s ≡ ok s' → Step this s s'
  unpaused : (e : Host) → unpause e s ≡ ok s' → Step this s s'
  created :
      (e : Host) (sender recipient token : ℕ) (q : Schedule) (id : ℕ)
      → e.this ≡ this
      → sender ≢ this
      → create_stream e sender recipient token q s ≡ ok (id, s')
      → Step this s s'
  withdrawn : (e : Host) (id n : ℕ) → e.this ≡ this → withdraw e id s ≡ ok (n, s') → Step this s s'
  cancelled : (e : Host) (id : ℕ) → e.this ≡ this → cancel e id s ≡ ok s' → Step this s s'
  topped_up : (e : Host) (id : ℕ) (m : ℤ) → e.this ≡ this → top_up e id m s ≡ ok s' → Step this s s'
  extended : (e : Host) (id new_end : ℕ) → extend e id new_end s ≡ ok s' → Step this s s'

pub data Reach (this : ℕ) (s : Treasury) : Treasury → Type 0 where
  here : Reach this s s
  next : {t u : Treasury} → Reach this s t → Step this t u → Reach this s u

module _ (this : ℕ) (s s' : Treasury) (c : Balanced this s) where
  -- A stream is written, and the log grows by what the stream's sums moved.
  Balanced-write :
      (id : ℕ) (x x' : Stream)
      → get s.streams id ≡ some x
      → x'.sender ≡ x.sender
      → s'.streams ≡ put s.streams id x'
      → s'.next_id ≡ s.next_id
      → s'.governor ≡ s.governor
      → ((token : ℕ)
          → paid_in this token s'.calls
              + withdrawn_of token x'
              + paid_out this token s.calls
              + total_of token x
            ≡ paid_in this token s.calls
              + withdrawn_of token x
              + paid_out this token s'.calls
              + total_of token x')
      → Balanced this s'
  Balanced-write id x x' g o p n v m = record {
    books = λ token. ground (
      arith,
      p,
      c.books token,
      m token,
      sum_by-put (withdrawn_of token) s.streams id x',
      sum_by-put (total_of token) s.streams id x',
    );
    no_own = ground (arith, p, o, c.no_own, sum_by-put (own this) s.streams id x');
    fresh = ground (
      arith,
      p,
      n,
      below_put s.streams s.next_id id x' c.fresh (below_get s.streams s.next_id id x c.fresh g),
    );
    founded = ground (arith, v, c.founded, not_empty s.streams id g);
  }

  -- Nothing but the governor and the flags is written.
  Balanced-admin :
      s'.streams ≡ s.streams
      → s'.calls ≡ s.calls
      → s'.next_id ≡ s.next_id
      → (has_some s'.governor || is_empty s.streams) ≡ true
      → Balanced this s'
  Balanced-admin p q n f = record {
    books = λ token. ground (arith, p, q, c.books token);
    no_own = ground (arith, p, c.no_own);
    fresh = ground (arith, p, n, c.fresh);
    founded = ground (arith, p, f);
  }

  -- The first governor is set, before there is any stream.
  Balanced-first :
      is_empty s.streams ≡ true
      → s'.streams ≡ s.streams
      → s'.calls ≡ s.calls
      → has_some s'.governor ≡ true
      → Balanced this s'
  Balanced-first o p q v = record {
    books = λ token. ground (arith, p, q, c.books token);
    no_own = ground (arith, p, c.no_own);
    fresh = ground (arith, p, empty_below s.streams s'.next_id o);
    founded = ground (arith, v);
  }

  -- A stream is added at the next identifier.
  Balanced-add :
      (x : Stream)
      → (x.sender == this) ≡ false
      → s'.streams ≡ put s.streams s.next_id x
      → s'.next_id ≡ s.next_id + 1
      → has_some s'.governor ≡ true
      → ((token : ℕ)
          → paid_in this token s'.calls + withdrawn_of token x + paid_out this token s.calls
            ≡ paid_in this token s.calls + paid_out this token s'.calls + total_of token x)
      → Balanced this s'
  Balanced-add x o p n v m =
      let free = below_none s.streams s.next_id c.fresh in
      record {
        books = λ token. ground (
          arith,
          p,
          c.books token,
          m token,
          free,
          sum_by-put (withdrawn_of token) s.streams s.next_id x,
          sum_by-put (total_of token) s.streams s.next_id x,
        );
        no_own = ground (arith, p, o, c.no_own, free, sum_by-put (own this) s.streams s.next_id x);
        fresh = ground (
          arith,
          p,
          n,
          below_put s.streams (s.next_id + 1) s.next_id x (below_next s.streams s.next_id c.fresh)
              (omega arith),
        );
        founded = ground (arith, v);
      }

streams_of : {s' t : Treasury} → s' ≡ t → s'.streams ≡ t.streams
streams_of w = ap (λ (u : Treasury). u.streams) w

calls_of : {s' t : Treasury} → s' ≡ t → s'.calls ≡ t.calls
calls_of w = ap (λ (u : Treasury). u.calls) w

admin_founded :
    (s s' : Treasury)
    → (has_some s.governor || is_empty s.streams) ≡ true
    → s'.governor ≡ s.governor
    → (has_some s'.governor || is_empty s.streams) ≡ true
admin_founded s s' f p = ground (arith, p, f)

keeps_governor :
    (s s' : Treasury)
    → s'.governor ≡ s.governor
    → has_some s.governor ≡ true
    → has_some s'.governor ≡ true
keeps_governor s s' p h = ground arith

module _ (this : ℕ) {s s' : Treasury} where
  pub Step-Balanced : Balanced this s → Step this s s' → Balanced this s'
  unfolding initialize propose_governor_transfer accept_governor_transfer pause unpause paid_in
      paid_out new_stream
  Step-Balanced c (initialized e g h) = elim (Option-cases s.governor) [
    | inr (k, p) ↦ absurd (ground arith)
    | inl p ↦
        Balanced-first this s s' c (ground (arith, c.founded)) (ground arith) (ground arith)
          (ground arith)
  ]
  Step-Balanced c (proposed e g h) =
      Balanced-admin this s s' c (ground arith) (ground arith) (ground arith)
        (ground (arith, c.founded))
  Step-Balanced c (rotated e h) =
      Balanced-admin this s s' c (ground arith) (ground arith) (ground arith) (ground arith)
  Step-Balanced c (paused e h) =
      Balanced-admin this s s' c (ground arith) (ground arith) (ground arith)
        (ground (arith, c.founded))
  Step-Balanced c (unpaused e h) =
      Balanced-admin this s s' c (ground arith) (ground arith) (ground arith)
        (ground (arith, c.founded))
  Step-Balanced c (created e sender recipient token q id t o h) =
      let (total, k, i, n, p, l) = create_stream-eq-ok e s sender recipient token q h in
      Balanced-add this s s' c (new_stream sender recipient token total q) (ground arith) p n
        (ground (arith, create_stream-governor e s sender recipient token q h))
        λ a. ground (arith, l, t)
  Step-Balanced c (withdrawn e id n t h) =
      let (x, v, g, k, l, m, w) = withdraw-eq-ok e s id h in
      Balanced-write this s s' c id x (record x { withdrawn = v }) g refl (streams_of w)
        (ground (arith, w)) (ground (arith, w)) λ a. ground (arith, l, t, calls_of w)
  Step-Balanced c (cancelled e id t h) =
      let (x, v, g, k, l, w) = cancel-eq-ok e s id h in
      Balanced-write this s s' c id x (record x { cancelled = true; total = v }) g refl
        (streams_of w) (ground (arith, w)) (ground (arith, w))
        λ a. ground (arith, vested_amount-le x e.now l, t, calls_of w)
  Step-Balanced c (topped_up e id m t h) =
      let (x, n, g, k, w) = top_up-eq-ok e s id m h in
      Balanced-write this s s' c id x (record x { total = x.total + n }) g refl (streams_of w)
        (ground (arith, w)) (ground (arith, w))
        λ a. ground (arith, t, calls_of w, g, c.no_own, sum_by-weight (own this) s.streams id)
  Step-Balanced c (extended e id new_end h) =
      let (x, g, k, w) = extend-eq-ok e s id new_end h in
      Balanced-write this s s' c id x (record x { end = new_end }) g refl (streams_of w)
        (ground (arith, w)) (ground (arith, w)) λ a. ground (arith, calls_of w)

-- A treasury that nobody has initialized.
pub record IsInitial (s : Treasury) : Type 0 where
  pub no_governor : s.governor ≡ none
  pub no_streams : s.streams ≡ []
  pub no_calls : s.calls ≡ []

IsInitial-Balanced : (this : ℕ) {s : Treasury} → IsInitial s → Balanced this s
unfolding sum_by paid_in paid_out ids_below
IsInitial-Balanced this init = record {
  books = λ token. ground (arith, init.no_streams, init.no_calls);
  no_own = ground (arith, init.no_streams);
  fresh = ground (arith, init.no_streams);
  founded = ground (arith, init.no_streams);
}

pub Reach-Balanced : (this : ℕ) {s t : Treasury} → IsInitial s → Reach this s t → Balanced this t
Reach-Balanced this init here = IsInitial-Balanced this init
Reach-Balanced this init (next r x) = Step-Balanced this (Reach-Balanced this init r) x

-- Along every sequence of successful calls from an untouched treasury, where the treasury itself
-- funds no stream: for every token, what was paid in plus what the streams' records say was
-- withdrawn is what was paid out plus the streams' totals.
pub Reach-books :
    (this token : ℕ) {s t : Treasury}
    → IsInitial s
    → Reach this s t
    → paid_in this token t.calls + sum_by (withdrawn_of token) t.streams
      ≡ paid_out this token t.calls + sum_by (total_of token) t.streams
Reach-books this token init r = (Reach-Balanced this init r).books token
