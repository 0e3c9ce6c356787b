-- ===== src/Staking/Backing.antt =====
-- solver_registry: the tokens behind the bonds, and the number of solvers.
use vortex_contracts.Base.{
  ℕ, ◌+◌, ◌-◌, ◌≡◌, ◌≢◌, sym, subst, true, none, some, [], ◌∷◌, arith, inl, inr, ◌⊎◌, Option-cases,
}
use vortex_contracts.Base.Dict.{
  get, put, remove, sum_by, sum_by-put, sum_by-remove, sum_by-weight, no_repeat, no_repeat-put,
  no_repeat-remove,
}
use vortex_contracts.Base.Token.{Host, paid_in, paid_out}
use vortex_contracts.Staking.State.{SolverRecord, Staking}
use vortex_contracts.Staking.Stakes.{solver_count}
use vortex_contracts.Staking.Outcomes.{moved}
use vortex_contracts.Staking.Writes.{Written}
use vortex_contracts.Staking.Runs.{Reach, here, next}
use vortex_contracts.Staking.Kinds.{
  Change, configured, administered, tuned, joined, raised, lowered, left, written, nothing_done,
  taken, given_up, Step-Change,
}

-- The sum of the bonds, and the number of the solvers.
abbrev pub bonds : Staking → ℕ
bonds s = sum_by (λ r. r.bond_amount) s.solvers

abbrev pub registered_solvers : Staking → ℕ
registered_solvers s = sum_by (λ r. 1) s.solvers

pub record IsBacked (this : ℕ) (s : Staking) : Type 0 where
  pub keys : no_repeat s.solvers ≡ true
  pub counted : solver_count s ≡ registered_solvers s
  pub first : s.admin ≡ none → s.bond_token ≡ none
  pub unset : s.bond_token ≡ none → (s.calls ≡ []) × (bonds s ≡ 0) × (registered_solvers s ≡ 0)
  pub balanced :
      (token : ℕ)
      → s.bond_token ≡ some token
      → bonds s + paid_out this token s.calls ≡ paid_in this token s.calls

module _ (this : ℕ) (s s' : Staking) (inv : IsBacked this s) where
  -- A step that leaves the stakes.
  IsBacked-kept :
      s'.solvers ≡ s.solvers
      → s'.total_solvers ≡ s.total_solvers
      → s'.bond_token ≡ s.bond_token
      → s'.calls ≡ s.calls
      → (s'.admin ≡ none → s.admin ≡ none)
      → IsBacked this s'
  IsBacked-kept p n t c a = record {
    keys = ground (arith, p, inv.keys);
    counted = ground (arith, p, n, inv.counted);
    first = λ h. cc (t, inv.first (a h));
    unset = λ h. ground (arith, c, p, inv.unset (cc (h, t)));
    balanced = λ token h. ground (arith, c, p, inv.balanced token (cc (h, t)));
  }

  module _ (token solver : ℕ) (old : SolverRecord) (r : SolverRecord)
      (in_force : s.bond_token ≡ some token) (found : get s.solvers solver ≡ some old)
      (wrote : s'.solvers ≡ put s.solvers solver r) (same_token : s'.bond_token ≡ s.bond_token)
      (same_total : s'.total_solvers ≡ s.total_solvers) (same_admin : s'.admin ≡ s.admin) where
    bonds-changed : bonds s' + old.bond_amount ≡ bonds s + r.bond_amount
    bonds-changed =
        ground
          (arith, wrote, found, sum_by-put (λ (x : SolverRecord). x.bond_amount) s.solvers solver r)

    count_same : registered_solvers s' ≡ registered_solvers s
    count_same =
        ground (arith, wrote, found, sum_by-put (λ (x : SolverRecord). 1) s.solvers solver r)

    -- A step that changes the bond of one solver.
    IsBacked-changed :
        bonds s' + paid_out this token s'.calls ≡ paid_in this token s'.calls → IsBacked this s'
    IsBacked-changed b = record {
      keys = ground (arith, wrote, no_repeat-put s.solvers solver r inv.keys);
      counted = ground (arith, same_total, count_same, inv.counted);
      first = λ h. cc (same_token, inv.first (cc (h, same_admin)));
      unset = λ h. absurd (ground (arith, in_force, same_token, h));
      balanced = λ t h.
          let same : token ≡ t = ground (arith, in_force, same_token, h) in
          subst (λ (k : ℕ). bonds s' + paid_out this k s'.calls ≡ paid_in this k s'.calls) same b;
    }

  joined-IsBacked :
      (token solver : ℕ) (r : SolverRecord)
      → s.bond_token ≡ some token
      → get s.solvers solver ≡ none
      → solver ≢ this
      → s' ≡ record s {
        solvers = put s.solvers solver r;
        total_solvers = some (solver_count s + 1);
        calls = moved token solver this r.bond_amount ∷ s.calls;
      }
      → IsBacked this s'
  unfolding paid_in paid_out
  joined-IsBacked token solver r t p other q =
      let more = sum_by-put (λ (x : SolverRecord). x.bond_amount) s.solvers solver r in
      let one = sum_by-put (λ (x : SolverRecord). 1) s.solvers solver r in
      let l : s'.solvers ≡ put s.solvers solver r = cc q in
      let n : s'.total_solvers ≡ some (solver_count s + 1) = cc q in
      let c : s'.calls ≡ moved token solver this r.bond_amount ∷ s.calls = cc q in
      let b : s'.bond_token ≡ s.bond_token = cc q in
      let a : s'.admin ≡ s.admin = cc q in
      record {
        keys = ground (arith, l, no_repeat-put s.solvers solver r inv.keys);
        counted = ground (arith, l, n, p, one, inv.counted);
        first = λ h. cc (b, inv.first (cc (h, a)));
        unset = λ h. absurd (ground (arith, t, b, h));
        balanced =
            λ tok h. ground (arith, l, c, p, t, b, more, other, inv.balanced tok (cc (h, b)));
      }

  left-IsBacked :
      (solver : ℕ) (r : SolverRecord)
      → get s.solvers solver ≡ some r
      → s' ≡ record s {
        solvers = remove s.solvers solver;
        total_solvers = some (solver_count s - 1);
        calls = s'.calls;
      }
      → ((r.bond_amount ≡ 0) × (s'.calls ≡ s.calls))
        ⊎ ((token : ℕ) × (s.bond_token ≡ some token)
            × (s'.calls ≡ moved token this solver r.bond_amount ∷ s.calls))
      → IsBacked this s'
  unfolding paid_in paid_out
  left-IsBacked solver r p q paid =
      let less = sum_by-remove (λ (x : SolverRecord). x.bond_amount) s.solvers solver inv.keys in
      let one = sum_by-remove (λ (x : SolverRecord). 1) s.solvers solver inv.keys in
      let l : s'.solvers ≡ remove s.solvers solver = cc q in
      let n : s'.total_solvers ≡ some (solver_count s - 1) = cc q in
      let b : s'.bond_token ≡ s.bond_token = cc q in
      let a : s'.admin ≡ s.admin = cc q in
      record {
        keys = ground (arith, l, no_repeat-remove s.solvers solver inv.keys);
        counted = ground (arith, l, n, p, one, inv.counted);
        first = λ h. cc (b, inv.first (cc (h, a)));
        unset = λ h. elim paid [
          | inl (z, c) ↦ ground (arith, l, c, p, less, one, inv.unset (cc (h, b)))
          | inr (token, t, c) ↦ absurd (ground (arith, t, b, h))
        ];
        balanced = λ tok h. elim paid [
          | inl (z, c) ↦ ground (arith, l, c, p, z, less, inv.balanced tok (cc (h, b)))
          | inr (token, t, c) ↦ ground (arith, l, c, p, t, b, less, inv.balanced tok (cc (h, b)))
        ];
      }

  -- A solver has a bond in the token that is set.
  token_set :
      (solver : ℕ) (r : SolverRecord)
      → get s.solvers solver ≡ some r
      → (token : ℕ) × (s.bond_token ≡ some token)
  token_set solver r p = elim (Option-cases s.bond_token) [
    | inr (token, t) ↦ (token, t)
    | inl t ↦
        let (c, z, nobody) = inv.unset t in
        absurd (ground (arith, nobody, p, sum_by-weight (λ (x : SolverRecord). 1) s.solvers solver))
  ]

  Written-IsBacked :
      (action intent solver : ℕ) (e : Host)
      → e.this ≡ this
      → Written action intent solver e s s'
      → IsBacked this s'
  unfolding paid_in paid_out
  Written-IsBacked action intent solver e here_ w =
      let l : s'.solvers ≡ put s.solvers solver w.after = cc w.written in
      let b : s'.bond_token ≡ s.bond_token = cc w.written in
      let m : s'.total_solvers ≡ s.total_solvers = cc w.written in
      let a : s'.admin ≡ s.admin = cc w.written in
      let (token, t) = token_set solver w.before w.found in
      let moves = bonds-changed token solver w.before w.after t w.found l b m a in
      let balance = inv.balanced token t in
      IsBacked-changed token solver w.before w.after t w.found l b m a (elim w.paid [
        | inl (k, c) ↦ ground (arith, c, k, moves, balance)
        | inr (token', recipient, n, t', f, small, k, c) ↦
            let same : token' ≡ token = ground (arith, t, t') in
            ground (arith, c, k, small, same, here_, moves, balance)
      ])

  Change-IsBacked : Change this s s' → IsBacked this s'
  unfolding paid_in paid_out
  Change-IsBacked (configured admin token recipient f q) =
      let b : s'.bond_token ≡ some token = cc q in
      let a : s'.admin ≡ some admin = cc q in
      let l : s'.solvers ≡ s.solvers = cc q in
      let c : s'.calls ≡ s.calls = cc q in
      let n : s'.total_solvers ≡ some 0 = cc q in
      let (none_yet, nothing, nobody) = inv.unset (inv.first f) in
      record {
        keys = ground (arith, l, inv.keys);
        counted = ground (arith, l, n, nobody);
        first = λ h. absurd (ground (arith, a, h));
        unset = λ h. absurd (ground (arith, b, h));
        balanced = λ tok h. ground (arith, l, c, none_yet, nothing);
      }
  Change-IsBacked (administered k) =
      let (a, was) = k.is in
      IsBacked-kept k.same_solvers k.same_total k.same_token k.same_calls
        (λ h. absurd (ground (arith, was, h)))
  Change-IsBacked (tuned k) =
      let a : s'.admin ≡ s.admin = cc k.after in
      IsBacked-kept (cc k.after) (cc k.after) (cc k.after) (cc k.after) (λ h. cc (h, a))
  Change-IsBacked (joined token solver r t p other q) = joined-IsBacked token solver r t p other q
  Change-IsBacked (raised token n solver r t p other q) =
      let new : SolverRecord = record r { bond_amount = r.bond_amount + n } in
      let l : s'.solvers ≡ put s.solvers solver new = cc q in
      let b : s'.bond_token ≡ s.bond_token = cc q in
      let m : s'.total_solvers ≡ s.total_solvers = cc q in
      let a : s'.admin ≡ s.admin = cc q in
      let c : s'.calls ≡ moved token solver this n ∷ s.calls = cc q in
      let moves = bonds-changed token solver r new t p l b m a in
      IsBacked-changed token solver r new t p l b m a
        (ground (arith, c, other, moves, inv.balanced token t))
  Change-IsBacked (lowered token n solver r t p small q) =
      let new : SolverRecord = record r { bond_amount = r.bond_amount - n } in
      let l : s'.solvers ≡ put s.solvers solver new = cc q in
      let b : s'.bond_token ≡ s.bond_token = cc q in
      let m : s'.total_solvers ≡ s.total_solvers = cc q in
      let a : s'.admin ≡ s.admin = cc q in
      let c : s'.calls ≡ moved token this solver n ∷ s.calls = cc q in
      let moves = bonds-changed token solver r new t p l b m a in
      IsBacked-changed token solver r new t p l b m a
        (ground (arith, c, small, moves, inv.balanced token t))
  Change-IsBacked (left solver r p q paid) = left-IsBacked solver r p q paid
  Change-IsBacked (written action intent solver e here_ w) =
      Written-IsBacked action intent solver e here_ w
  Change-IsBacked (nothing_done q) = subst (IsBacked this) (sym q) inv
  Change-IsBacked (taken solver intent f q) =
      let a : s'.admin ≡ s.admin = cc q in
      IsBacked-kept (cc q) (cc q) (cc q) (cc q) (λ h. cc (h, a))
  Change-IsBacked (given_up solver intent f q) =
      let a : s'.admin ≡ s.admin = cc q in
      IsBacked-kept (cc q) (cc q) (cc q) (cc q) (λ h. cc (h, a))

-- Along every sequence of successful calls from an untouched solver registry, which is itself no
-- solver: the bond tokens paid in are the bond tokens paid out plus the bonds of the registered
-- solvers, and the count of solvers is their number.
pub Reach-backed :
    (this token : ℕ) {s t : Staking}
    → s.admin ≡ none
    → s.bond_token ≡ none
    → s.total_solvers ≡ none
    → s.solvers ≡ []
    → s.calls ≡ []
    → Reach this s t
    → t.bond_token ≡ some token
    → (bonds t + paid_out this token t.calls ≡ paid_in this token t.calls)
      × (solver_count t ≡ registered_solvers t)
Reach-backed this token {s} a b n l c r h = ((backed r).balanced token h, (backed r).counted)
  where
    backed : {t : Staking} → Reach this s t → IsBacked this t
    backed here = record {
      keys = unfold no_repeat in ground (arith, l);
      counted = unfold sum_by in ground (arith, l, n);
      first = λ _. b;
      unset = λ _. (c, unfold sum_by in ground (arith, l), unfold sum_by in ground (arith, l));
      balanced = λ tok k. absurd (ground (arith, b, k));
    }
    backed (next {t} {u} r w) = Change-IsBacked this t u (backed r) (Step-Change w)
