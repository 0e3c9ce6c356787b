-- ===== src/Streams/Success.antt =====
-- What each operation on a stream has found and written when it succeeds.
use vortex_contracts.Base.{
  ℕ, ◌+◌, ◌-◌, ◌≡◌, ◌≤◌, ◌<◌, true, false, some, ◌∷◌, List, arith, ok, inl, inr, Call-cases,
  Option-cases, ltb, if◌then◌else◌,
}
use vortex_contracts.Base.Int.{ℤ, pos}
use vortex_contracts.Base.Dict.{get, put}
use vortex_contracts.Base.Token.{Transfer, Host}
use vortex_contracts.Streams.Model.{
  Stream, Treasury, Schedule, new_stream, create_checks, create_stream, withdraw_checks, withdraw,
  cancel_checks, cancel, top_up_checks, top_up, extend_checks, extend, load_live, load_stream,
  require_governor, transfer, vested_amount,
}

module _ (e : Host) (s : Treasury) where
  pub create_stream-eq-ok :
      (sender recipient token : ℕ) (q : Schedule) {id : ℕ} {s' : Treasury}
      → create_stream e sender recipient token q s ≡ ok (id, s')
      → (total : ℕ) × (create_checks e q s ≡ ok total)
        × (id ≡ s.next_id)
        × (s'.next_id ≡ s.next_id + 1)
        × (s'.streams ≡ put s.streams s.next_id (new_stream sender recipient token total q))
        × (s'.calls
            ≡ record { token = token; from = sender; to = e.this; amount = total } ∷ s.calls)
  unfolding create_stream transfer
  create_stream-eq-ok sender recipient token q h = elim (Call-cases (create_checks e q s)) [
    | inl (total, p) ↦ (total, p, ground arith, ground arith, ground arith, ground arith)
    | inr f ↦ absurd (ground arith)
  ]

  pub create_stream-governor :
      (sender recipient token : ℕ) (q : Schedule) {id : ℕ} {s' : Treasury}
      → create_stream e sender recipient token q s ≡ ok (id, s')
      → (g : ℕ) × (s.governor ≡ some g) × (s'.governor ≡ some g)
  unfolding create_stream create_checks require_governor transfer
  create_stream-governor sender recipient token q h = elim (Option-cases s.governor) [
    | inl p ↦ absurd (ground arith)
    | inr (g, p) ↦ (g, p, ground arith)
  ]

  withdraw_checks-lem :
      (id : ℕ) {c : Stream × ℕ}
      → withdraw_checks e id s ≡ ok c
      → (get s.streams id ≡ some c.0) × (vested_amount c.0 e.now ≡ ok c.1) × (c.0.withdrawn < c.1)
  unfolding withdraw_checks load_stream
  withdraw_checks-lem id {c} h = elim (Option-cases (get s.streams id)) [
    | inl p ↦ absurd (ground arith)
    | inr (x, p) ↦ elim (Call-cases (vested_amount x e.now)) [
      | inl (v, q) ↦ ground arith
      | inr f ↦ absurd (ground arith)
    ]
  ]

  pub withdraw-eq-ok :
      (id : ℕ) {n : ℕ} {s' : Treasury}
      → withdraw e id s ≡ ok (n, s')
      → (x : Stream) × (v : ℕ) × (get s.streams id ≡ some x)
        × (vested_amount x e.now ≡ ok v)
        × (x.withdrawn < v)
        × (n ≡ v - x.withdrawn)
        × (s' ≡ record s {
          streams = put s.streams id (record x { withdrawn = v });
          calls =
              record { token = x.token; from = e.this; to = x.recipient; amount = v - x.withdrawn }
              ∷ s.calls;
        })
  unfolding withdraw transfer
  withdraw-eq-ok id h = elim (Call-cases (withdraw_checks e id s)) [
    | inl ((x, v), p) ↦
        let q = withdraw_checks-lem id p in (x, v, q.0, q.1, q.2, ground arith, ground arith)
    | inr f ↦ absurd (ground arith)
  ]

  load_live-lem :
      (id : ℕ) {x : Stream}
      → load_live e id s ≡ ok x
      → (get s.streams id ≡ some x) × (x.cancelled ≡ false)
  unfolding load_live load_stream
  load_live-lem id h = ground arith

  cancel_checks-lem :
      (id : ℕ) {c : Stream × ℕ}
      → cancel_checks e id s ≡ ok c
      → (load_live e id s ≡ ok c.0) × (vested_amount c.0 e.now ≡ ok c.1)
  unfolding cancel_checks
  cancel_checks-lem id h = elim (Call-cases (load_live e id s)) [
    | inl (x, p) ↦ elim (Call-cases (vested_amount x e.now)) [
      | inl (v, q) ↦ ground arith
      | inr f ↦ absurd (ground arith)
    ]
    | inr f ↦ absurd (ground arith)
  ]

  abbrev pub refund_calls : Stream → ℕ → List Transfer
  refund_calls x v =
      if ltb v x.total
      then record { token = x.token; from = e.this; to = x.sender; amount = x.total - v } ∷ s.calls
      else s.calls

  pub cancel-eq-ok :
      (id : ℕ) {s' : Treasury}
      → cancel e id s ≡ ok s'
      → (x : Stream) × (v : ℕ) × (get s.streams id ≡ some x)
        × (x.cancelled ≡ false)
        × (vested_amount x e.now ≡ ok v)
        × (s' ≡ record s {
          streams = put s.streams id (record x { cancelled = true; total = v });
          calls = refund_calls x v;
        })
  unfolding cancel transfer
  cancel-eq-ok id h = elim (Call-cases (cancel_checks e id s)) [
    | inl ((x, v), p) ↦
        let (l, q) = cancel_checks-lem id p in
        let (g, c) = load_live-lem id l in (x, v, g, c, q, ground arith)
    | inr f ↦ absurd (ground arith)
  ]

  top_up_checks-lem :
      (id : ℕ) (m : ℤ) {c : Stream × ℕ}
      → top_up_checks e id m s ≡ ok c
      → (load_live e id s ≡ ok c.0) × (m ≡ pos c.1)
  unfolding top_up_checks
  top_up_checks-lem id m h = elim (Call-cases (load_live e id s)) [
    | inl (x, p) ↦ ground arith
    | inr f ↦ absurd (ground arith)
  ]

  pub top_up-eq-ok :
      (id : ℕ) (m : ℤ) {s' : Treasury}
      → top_up e id m s ≡ ok s'
      → (x : Stream) × (n : ℕ) × (get s.streams id ≡ some x)
        × (m ≡ pos n)
        × (s' ≡ record s {
          streams = put s.streams id (record x { total = x.total + n });
          calls = record { token = x.token; from = x.sender; to = e.this; amount = n } ∷ s.calls;
        })
  unfolding top_up transfer
  top_up-eq-ok id m h = elim (Call-cases (top_up_checks e id m s)) [
    | inl ((x, n), p) ↦
        let (l, q) = top_up_checks-lem id m p in (x, n, (load_live-lem id l).0, q, ground arith)
    | inr f ↦ absurd (ground arith)
  ]

  pub extend-eq-ok :
      (id new_end : ℕ) {s' : Treasury}
      → extend e id new_end s ≡ ok s'
      → (x : Stream) × (get s.streams id ≡ some x)
        × (x.end ≤ new_end)
        × (s' ≡ record s { streams = put s.streams id (record x { end = new_end }) })
  unfolding extend extend_checks
  extend-eq-ok id new_end h = elim (Call-cases (load_live e id s)) [
    | inl (x, p) ↦ (x, (load_live-lem id p).0, ground arith, ground arith)
    | inr f ↦ absurd (ground arith)
  ]
