-- ===== src/Staking/Once.antt =====
-- solver_registry: a write of the settlement contract is applied once for an intent.
use vortex_contracts.Base.{ℕ, ◌≡◌, true, arith, ok, inl, inr, Call-cases, has_failed}
use vortex_contracts.Base.Dict.{get-put}
use vortex_contracts.Base.Token.{Host}
use vortex_contracts.Staking.State.{Staking}
use vortex_contracts.Staking.Stakes.{is_intent_recorded, slashing, slash}
use vortex_contracts.Staking.Writes.{marks}
use vortex_contracts.Staking.Slashes.{slash-Written}
use vortex_contracts.Staking.Runs.{Reach, here, next}
use vortex_contracts.Staking.Kinds.{
  Change, configured, administered, tuned, joined, raised, lowered, left, written, nothing_done,
  taken, given_up, Step-Change,
}

recorded_same :
    (s s' : Staking) (action intent : ℕ)
    → s'.recorded ≡ s.recorded
    → is_intent_recorded action intent s ≡ true
    → is_intent_recorded action intent s' ≡ true
recorded_same s s' action intent p h = ground (arith, p, h)

recorded_more :
    (s s' : Staking) (action intent : ℕ) (a i : ℕ)
    → s'.recorded ≡ marks a i s
    → is_intent_recorded action intent s ≡ true
    → is_intent_recorded action intent s' ≡ true
recorded_more s s' action intent a i p h =
    ground (arith, p, h, get-put (s.recorded action) i intent tt)

marked :
    (s s' : Staking) (action intent : ℕ)
    → s'.recorded ≡ marks action intent s
    → is_intent_recorded action intent s' ≡ true
marked s s' action intent p = ground (arith, p, get-put (s.recorded action) intent intent tt)

-- A record stays.
recorded_stays :
    {this : ℕ} (s s' : Staking) (a i : ℕ)
    → Change this s s'
    → is_intent_recorded a i s ≡ true
    → is_intent_recorded a i s' ≡ true
recorded_stays s s' a i (configured admin token recipient f q) = recorded_same s s' a i (cc q)
recorded_stays s s' a i (administered k) = recorded_same s s' a i k.same_recorded
recorded_stays s s' a i (tuned k) = recorded_same s s' a i (cc k.after)
recorded_stays s s' a i (joined token solver r t p other q) = recorded_same s s' a i (cc q)
recorded_stays s s' a i (raised token n solver r t p other q) = recorded_same s s' a i (cc q)
recorded_stays s s' a i (lowered token n solver r t p small q) = recorded_same s s' a i (cc q)
recorded_stays s s' a i (left solver r p q paid) = recorded_same s s' a i (cc q)
recorded_stays s s' a i (written action intent solver e here_ w) =
    recorded_more s s' a i action intent (cc w.written)
recorded_stays s s' a i (nothing_done q) = recorded_same s s' a i (cc q)
recorded_stays s s' a i (taken solver intent f q) = recorded_same s s' a i (cc q)
recorded_stays s s' a i (given_up solver intent f q) = recorded_same s s' a i (cc q)

recorded_along :
    {this : ℕ} {s t : Staking} (a i : ℕ)
    → Reach this s t
    → is_intent_recorded a i s ≡ true
    → is_intent_recorded a i t ≡ true
recorded_along a i here h = h
recorded_along a i (next {t} {u} r w) h =
    recorded_stays t u a i (Step-Change w) (recorded_along a i r h)

-- Once a solver is slashed for an intent, then after any sequence of successful calls no slash
-- for the same intent succeeds, whoever calls it and whichever solver it names.
pub slash-once :
    (this : ℕ) (s s' t : Staking) (e later : Host)
    (caller solver caller' solver' intent amount new_tier : ℕ)
    → slash e caller solver intent s ≡ ok ((amount, new_tier), s')
    → Reach this s' t
    → has_failed (slash later caller' solver' intent t) ≡ true
slash-once this s s' t e later caller solver caller' solver' intent amount new_tier h r =
    elim (Call-cases (slash later caller' solver' intent t)) [
      | inr f ↦ f
      | inl (((n, tier), u), k) ↦
          let first = slash-Written e caller solver intent s h in
          let second = slash-Written later caller' solver' intent t k in
          let there = marked s s' slashing intent (cc first.written) in
          absurd (cc (recorded_along slashing intent r there, second.fresh))
    ]
