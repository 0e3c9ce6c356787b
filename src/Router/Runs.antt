-- ===== src/Router/Runs.antt =====
-- The runs of the router: the sink sets that it can have, and the delay of their changes.
use vortex_contracts.Base.{
  ℕ, zero, suc, ◌+◌, ◌≡◌, ◌≤◌, subst, true, none, some, List, arith, ok, inl, inr, Call-cases,
  Option-cases, get_or,
}
use vortex_contracts.Base.Int.{ℤ, pos, negsuc}
use vortex_contracts.Base.Token.{Host}
use vortex_contracts.Router.Model.{
  Sink, Router, Balances, PendingWeights, initialize, on_fee_received, distribute, claim,
  propose_weights, apply_weights, require_governance, validate_sinks, credit_sinks, balance_of,
}
use vortex_contracts.Router.Sinks.{IsSinkSet, validate_sinks_iff}

pub data Step (account_len : ℕ → ℕ) (s s' : Router) : Type 0 where
  initialized :
      (governance delay : ℕ) (sinks : List Sink)
      → initialize account_len governance delay sinks s ≡ ok s'
      → Step account_len s s'
  received :
      (token : ℕ) (amount : ℤ) → on_fee_received token amount s ≡ ok s' → Step account_len s s'
  distributed : (token : ℕ) → distribute token s ≡ ok s' → Step account_len s s'
  claimed :
      (e : Host) (b : Balances) (sink token : ℕ) (n : ℤ)
      → claim e b sink token s ≡ ok (n, s')
      → Step account_len s s'
  proposed :
      (e : Host) (caller : ℕ) (sinks : List Sink)
      → propose_weights e account_len caller sinks s ≡ ok s'
      → Step account_len s s'
  applied : (e : Host) (caller : ℕ) → apply_weights e caller s ≡ ok s' → Step account_len s s'

pub data Reach (account_len : ℕ → ℕ) (s : Router) : Router → Type 0 where
  here : Reach account_len s s
  next : {t u : Router} → Reach account_len s t → Step account_len t u → Reach account_len s u

-- The sinks in force and the proposed ones, where there are any, are sink sets.
pub record IsGoverned (account_len : ℕ → ℕ) (s : Router) : Type 0 where
  pub in_force : (l : List Sink) → s.sinks ≡ some l → IsSinkSet account_len l
  pub next_ones : (p : PendingWeights) → s.pending ≡ some p → IsSinkSet account_len p.sinks

module _ (account_len : ℕ → ℕ) (s : Router) where
  initialize_lem :
      (governance delay : ℕ) (sinks : List Sink) {s' : Router}
      → initialize account_len governance delay sinks s ≡ ok s'
      → IsSinkSet account_len sinks × (s'.sinks ≡ some sinks) × (s'.pending ≡ s.pending)
  unfolding initialize
  initialize_lem governance delay sinks h = elim (Call-cases (validate_sinks account_len sinks)) [
    | inr f ↦ absurd (ground arith)
    | inl (u, p) ↦ ((validate_sinks_iff account_len sinks).0 p, ground arith, ground arith)
  ]

  propose_lem :
      (e : Host) (caller : ℕ) (sinks : List Sink) {s' : Router}
      → propose_weights e account_len caller sinks s ≡ ok s'
      → IsSinkSet account_len sinks
        × (s'.sinks ≡ s.sinks)
        × (s'.pending
            ≡ some (record { sinks = sinks; executable_at = e.now + get_or s.weight_delay 0 }))
        × (e.auth caller ≡ true)
        × (s.governance ≡ some caller)
        × (s'.governance ≡ s.governance)
  unfolding propose_weights require_governance
  propose_lem e caller sinks h = elim (Call-cases (validate_sinks account_len sinks)) [
    | inr f ↦ elim (Option-cases s.governance) [
      | inl q ↦ absurd (ground arith)
      | inr (g, q) ↦ absurd (ground arith)
    ]
    | inl (u, p) ↦ elim (Option-cases s.governance) [
      | inl q ↦ absurd (ground arith)
      | inr (g, q) ↦ elim (Option-cases s.weight_delay) [
        | inl r ↦ absurd (ground arith)
        | inr (d, r) ↦ (
          (validate_sinks_iff account_len sinks).0 p,
          ground arith,
          ground arith,
          ground arith,
          ground arith,
          ground arith,
        )
      ]
    ]
  ]

  apply_lem :
      (e : Host) (caller : ℕ) {s' : Router}
      → apply_weights e caller s ≡ ok s'
      → (p : PendingWeights) × (s.pending ≡ some p)
        × (p.executable_at ≤ e.now)
        × (s'.sinks ≡ some p.sinks)
        × (s'.pending ≡ none)
        × (e.auth caller ≡ true)
        × (s.governance ≡ some caller)
  unfolding apply_weights require_governance
  apply_lem e caller h = elim (Option-cases s.pending) [
    | inl q ↦ absurd (ground arith)
    | inr (p, q) ↦ elim (Option-cases s.governance) [
      | inl r ↦ absurd (ground arith)
      | inr (g, r) ↦ (p, q, ground arith, ground arith, ground arith, ground arith, ground arith)
    ]
  ]

  -- The calls that move fees leave the sinks and the proposal.
  received_same :
      (token : ℕ) (amount : ℤ) {s' : Router}
      → on_fee_received token amount s ≡ ok s'
      → (s'.sinks ≡ s.sinks) × (s'.pending ≡ s.pending)
  unfolding on_fee_received
  received_same token (pos zero) h = ground arith
  received_same token (pos (suc n)) h = ground arith
  received_same token (negsuc n) h = ground arith

  distribute_same :
      (token : ℕ) {s' : Router}
      → distribute token s ≡ ok s'
      → (s'.sinks ≡ s.sinks) × (s'.pending ≡ s.pending)
  unfolding distribute
  distribute_same token h = elim (Option-cases s.sinks) [
    | inl q ↦ absurd (ground arith)
    | inr (l, q) ↦ elim (Call-cases (credit_sinks (balance_of token s) 0 0 l (s.claimable token))) [
      | inr f ↦ absurd (ground arith)
      | inl (d, r) ↦ ground arith
    ]
  ]

  claim_same :
      (e : Host) (b : Balances) (sink token : ℕ) {n : ℤ} {s' : Router}
      → claim e b sink token s ≡ ok (n, s')
      → (s'.sinks ≡ s.sinks) × (s'.pending ≡ s.pending)
  unfolding claim
  claim_same e b sink token h = ground arith

  same-IsGoverned :
      {s' : Router}
      → IsGoverned account_len s
      → (s'.sinks ≡ s.sinks) × (s'.pending ≡ s.pending)
      → IsGoverned account_len s'
  same-IsGoverned g (p, q) = record {
    in_force = λ l h. g.in_force l (cc (p, h));
    next_ones = λ w h. g.next_ones w (cc (q, h));
  }

  Step-IsGoverned :
      {s' : Router} → IsGoverned account_len s → Step account_len s s' → IsGoverned account_len s'
  Step-IsGoverned g (initialized governance delay sinks h) =
      let (v, p, q) = initialize_lem governance delay sinks h in
      record {
        in_force = λ l k. subst (IsSinkSet account_len) (ground (arith, p, k)) v;
        next_ones = λ w k. g.next_ones w (cc (q, k));
      }
  Step-IsGoverned g (received token amount h) = same-IsGoverned g (received_same token amount h)
  Step-IsGoverned g (distributed token h) = same-IsGoverned g (distribute_same token h)
  Step-IsGoverned g (claimed e b sink token n h) = same-IsGoverned g (claim_same e b sink token h)
  Step-IsGoverned g (proposed e caller sinks h) =
      let (v, p, q, _, _, _) = propose_lem e caller sinks h in
      record {
        in_force = λ l k. g.in_force l (cc (p, k));
        next_ones = λ w k. subst (IsSinkSet account_len) (ground (arith, q, k)) v;
      }
  Step-IsGoverned g (applied e caller h) =
      let (w, p, _, q, r, _, _) = apply_lem e caller h in
      record {
        in_force = λ l k. subst (IsSinkSet account_len) (ground (arith, q, k)) (g.next_ones w p);
        next_ones = λ w' k. absurd (ground (arith, r, k));
      }

-- Along every sequence of successful calls from a router without sinks and proposal, the sinks in
-- force are a valid sink set.
pub Reach-IsSinkSet :
    (account_len : ℕ → ℕ) {s t : Router} (sinks : List Sink)
    → s.sinks ≡ none
    → s.pending ≡ none
    → Reach account_len s t
    → t.sinks ≡ some sinks
    → IsSinkSet account_len sinks
Reach-IsSinkSet account_len {s} sinks p q r h = (governed r).in_force sinks h
  where
    governed : {t : Router} → Reach account_len s t → IsGoverned account_len t
    governed here = record {
      in_force = λ l k. absurd (ground (arith, p, k));
      next_ones = λ w k. absurd (ground (arith, q, k));
    }
    governed (next {t} {u} r w) = Step-IsGoverned account_len t (governed r) w

-- If new weights are proposed and then applied in the resulting storage, both calls were signed
-- by the governance, the second came at least the delay after the first, the sinks stay as they
-- were until then, and are the proposed ones afterwards.
pub propose-apply_weights :
    (e e' : Host) (account_len : ℕ → ℕ) (caller caller' : ℕ) (sinks : List Sink) (s : Router)
    {t u : Router}
    → propose_weights e account_len caller sinks s ≡ ok t
    → apply_weights e' caller' t ≡ ok u
    → (caller' ≡ caller)
      × (s.governance ≡ some caller)
      × (e.auth caller ≡ true)
      × (e'.auth caller' ≡ true)
      × (e.now + get_or s.weight_delay 0 ≤ e'.now)
      × (t.sinks ≡ s.sinks)
      × (u.sinks ≡ some sinks)
propose-apply_weights e e' account_len caller caller' sinks s {t} h k =
    let (_, a, b, c, d, g) = propose_lem account_len s e caller sinks h in
    let (p, q, l, m, _, n, o) = apply_lem account_len t e' caller' k in
    (ground (arith, d, g, o), d, c, n, ground (arith, b, q, l), a, ground (arith, b, q, m))
