-- ===== src/Staking/Obligations.antt =====
-- solver_registry: the count of open obligations, and the bond that it holds in place.
use vortex_contracts.Base.{
  ℕ, ◌+◌, ◌-◌, ◌≡◌, ◌<◌, true, none, some, [], arith, inl, inr, Bool-cases, Call-cases, has_failed,
  ◌==◌, if◌then◌else◌,
}
use vortex_contracts.Base.Int.{ℤ}
use vortex_contracts.Base.Dict.{
  get, put, remove, get-put, get-remove, sum_by, sum_by-put, sum_by-remove, sum_by-weight,
  no_repeat, no_repeat-put, no_repeat-remove,
}
use vortex_contracts.Base.Token.{Host}
use vortex_contracts.Staking.State.{Staking}
use vortex_contracts.Staking.Stakes.{
  open_obligations, has_obligation, store_open_obligations, unstake, deregister_solver,
}
use vortex_contracts.Staking.Outcomes.{unstake_lem, deregister_lem}
use vortex_contracts.Staking.Runs.{Reach, here, next}
use vortex_contracts.Staking.Kinds.{
  Change, configured, administered, tuned, joined, raised, lowered, left, written, nothing_done,
  taken, given_up, Step-Change,
}

-- The number of the intents that a solver holds.
abbrev pub held : Staking → ℕ → ℕ
held s solver = sum_by (λ x. 1) (s.obligations solver)

pub record IsHeld (s : Staking) : Type 0 where
  pub keys : (solver : ℕ) → no_repeat (s.obligations solver) ≡ true
  pub counted : (solver : ℕ) → open_obligations solver s ≡ held s solver

module _ (s s' : Staking) (inv : IsHeld s) where
  IsHeld-kept : s'.obligations ≡ s.obligations → s'.open_counts ≡ s.open_counts → IsHeld s'
  IsHeld-kept p q = record {
    keys = λ x. ground (arith, p, inv.keys x);
    counted = λ x. ground (arith, p, q, inv.counted x);
  }

  locked-IsHeld :
      (solver intent : ℕ)
      → get (s.obligations solver) intent ≡ none
      → s' ≡ record s {
        obligations = λ x. if x == solver then put (s.obligations x) intent tt else s.obligations x;
        open_counts = put s.open_counts solver (open_obligations solver s + 1);
      }
      → IsHeld s'
  locked-IsHeld solver intent f p = record {
    keys =
        λ x. ground (arith, p, inv.keys x, no_repeat-put (s.obligations x) intent tt (inv.keys x));
    counted = λ x.
        let more = sum_by-put (λ (y : Unit {0}). 1) (s.obligations solver) intent tt in
        let count = get-put s.open_counts solver x (open_obligations solver s + 1) in
        elim (Bool-cases (x == solver)) [
          | inl q ↦ ground (arith, p, f, more, count, inv.counted solver)
          | inr q ↦ ground (arith, p, count, inv.counted x)
        ];
  }

  released-IsHeld :
      (solver intent : ℕ)
      → get (s.obligations solver) intent ≡ some tt
      → s'
        ≡ store_open_obligations solver (open_obligations solver s - 1) (record s {
          obligations =
              λ x. if x == solver then remove (s.obligations x) intent else s.obligations x;
        })
      → IsHeld s'
  released-IsHeld solver intent f p = record {
    keys =
        λ x. ground (arith, p, inv.keys x, no_repeat-remove (s.obligations x) intent (inv.keys x));
    counted = λ x.
        let less =
          sum_by-remove (λ (y : Unit {0}). 1) (s.obligations solver) intent (inv.keys solver) in
        let count = get-put s.open_counts solver x (open_obligations solver s - 1) in
        let gone = get-remove s.open_counts solver x in
        elim (Bool-cases (x == solver)) [
          | inl q ↦ ground (arith, p, f, less, count, gone, inv.counted solver)
          | inr q ↦ ground (arith, p, count, gone, inv.counted x)
        ];
  }

Change-IsHeld : {this : ℕ} (s s' : Staking) → IsHeld s → Change this s s' → IsHeld s'
Change-IsHeld s s' inv (configured admin token recipient f q) = IsHeld-kept s s' inv (cc q) (cc q)
Change-IsHeld s s' inv (administered k) = IsHeld-kept s s' inv k.same_obligations k.same_counts
Change-IsHeld s s' inv (tuned k) = IsHeld-kept s s' inv (cc k.after) (cc k.after)
Change-IsHeld s s' inv (joined token solver r t p other q) = IsHeld-kept s s' inv (cc q) (cc q)
Change-IsHeld s s' inv (raised token n solver r t p other q) = IsHeld-kept s s' inv (cc q) (cc q)
Change-IsHeld s s' inv (lowered token n solver r t p small q) = IsHeld-kept s s' inv (cc q) (cc q)
Change-IsHeld s s' inv (left solver r p q paid) = IsHeld-kept s s' inv (cc q) (cc q)
Change-IsHeld s s' inv (written action intent solver e here_ w) =
    IsHeld-kept s s' inv (cc w.written) (cc w.written)
Change-IsHeld s s' inv (nothing_done q) = IsHeld-kept s s' inv (cc q) (cc q)
Change-IsHeld s s' inv (taken solver intent f q) = locked-IsHeld s s' inv solver intent f q
Change-IsHeld s s' inv (given_up solver intent f q) = released-IsHeld s s' inv solver intent f q

IsHeld-runs :
    (this : ℕ) {s t : Staking}
    → ((x : ℕ) → s.obligations x ≡ [])
    → s.open_counts ≡ []
    → Reach this s t
    → IsHeld t
IsHeld-runs this {s} a b here = record {
  keys = λ x. unfold no_repeat in ground (arith, a x);
  counted = λ x. unfold sum_by get in ground (arith, a x, b);
}
IsHeld-runs this a b (next {t} {u} r w) = Change-IsHeld t u (IsHeld-runs this a b r) (Step-Change w)

-- After any sequence of successful calls from a registry without obligations, a solver that holds
-- an obligation for some intent has a positive count of open obligations, and can neither unstake
-- nor deregister.
pub Reach-obligated :
    (this : ℕ) (s t : Staking) (e : Host) (solver intent : ℕ) (amount : ℤ)
    → ((x : ℕ) → s.obligations x ≡ [])
    → s.open_counts ≡ []
    → Reach this s t
    → has_obligation solver intent t ≡ true
    → (0 < open_obligations solver t)
      × (has_failed (unstake e solver amount t) ≡ true)
      × (has_failed (deregister_solver e solver t) ≡ true)
Reach-obligated this s t e solver intent amount a b r h =
    let inv = IsHeld-runs this a b r in
    let one = sum_by-weight (λ (y : Unit {0}). 1) (t.obligations solver) intent in
    let many : 0 < open_obligations solver t = ground (arith, one, h, inv.counted solver) in
    (
      many,
      elim (Call-cases (unstake e solver amount t)) [
        | inr f ↦ f
        | inl (u, k) ↦
            let (token, n, x, _, _, _, z, _) = unstake_lem t e solver amount k in
            absurd (omega (arith, many, z))
      ],
      elim (Call-cases (deregister_solver e solver t)) [
        | inr f ↦ f
        | inl (u, k) ↦
            let (x, _, z, _, _) = deregister_lem t e solver k in absurd (omega (arith, many, z))
      ],
    )
