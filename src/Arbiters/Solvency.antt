-- ===== src/Arbiters/Solvency.antt =====
-- The bond tokens that the panel holds are the bonds of its arbiters.
use vortex_contracts.Base.{
  ℕ, ◌+◌, ◌≡◌, subst, true, none, some, [], arith, inl, inr, Bool-cases, ◌==◌, length, min,
}
use vortex_contracts.Base.Dict.{
  get, put, get-put, no_repeat, no_repeat-put, no_repeat-remove, sum_by, sum_by-put, sum_by-remove,
}
use vortex_contracts.Base.Token.{paid_in, paid_out}
use vortex_contracts.Arbiters.State.{ArbiterRecord, Round, Panel}
use vortex_contracts.Arbiters.Rounds.{settle}
use vortex_contracts.Arbiters.Success.{bonds, draw_panel-Drawn}
use vortex_contracts.Arbiters.Runs.{
  Step, initialized, registered, deregistered, opened, voted, tallied, Reach, here, next, new_round,
  initialize_lem, register_lem, deregister_lem, deregister_pays, vote_lem, open_vote_lem,
}
use vortex_contracts.Arbiters.Verdicts.{
  IsRound, new_round-IsRound, scaled_positive, vote-IsRound, tally-bonds, tally-Kept,
}

pub record IsSolvent (this : ℕ) (s : Panel) : Type 0 where
  pub keys : no_repeat s.records ≡ true
  pub sound : (i : ℕ) (r : Round) → get s.rounds i ≡ some r → IsRound r
  pub first : s.admin ≡ none → s.bond_token ≡ none
  pub unset : s.bond_token ≡ none → (s.calls ≡ []) × (bonds s ≡ 0)
  pub balanced :
      (token : ℕ)
      → s.bond_token ≡ some token
      → bonds s + paid_out this token s.calls ≡ paid_in this token s.calls

module _ (this : ℕ) (s s' : Panel) (inv : IsSolvent this s) where
  rounds_written :
      (intent : ℕ) (r : Round)
      → IsRound r
      → s'.rounds ≡ put s.rounds intent r
      → (i : ℕ) (x : Round) → get s'.rounds i ≡ some x
      → IsRound x
  rounds_written intent r v p i x h = elim (Bool-cases (intent == i)) [
    | inl q ↦ subst IsRound (ground (arith, h, p, get-put s.rounds intent i r)) v
    | inr q ↦ inv.sound i x (ground (arith, h, p, get-put s.rounds intent i r))
  ]

  -- An operation that moves no token.
  IsSolvent-unpaid :
      (sound : (i : ℕ) (r : Round) → get s'.rounds i ≡ some r → IsRound r)
      → (no_repeat s.records ≡ true → no_repeat s'.records ≡ true)
      → s'.admin ≡ s.admin
      → s'.bond_token ≡ s.bond_token
      → s'.calls ≡ s.calls
      → bonds s' ≡ bonds s
      → IsSolvent this s'
  IsSolvent-unpaid sound keys a t c b = record {
    keys = keys inv.keys;
    sound = sound;
    first = λ h. cc (t, inv.first (cc (h, a)));
    unset = λ h. ground (arith, c, b, inv.unset (cc (h, t)));
    balanced = λ token h. ground (arith, c, b, inv.balanced token (cc (h, t)));
  }

  Step-IsSolvent : Step this s s' → IsSolvent this s'
  unfolding paid_in paid_out settle
  Step-IsSolvent (initialized admin settlement bond_token bond_amount panel_size threshold h) =
      let (f, a, t, p, q, c) =
        initialize_lem s admin settlement bond_token bond_amount panel_size threshold h in
      let (none_yet, nothing) = inv.unset (inv.first f) in
      record {
        keys = ground (arith, p, inv.keys);
        sound = λ i r k. inv.sound i r (cc (k, q));
        first = λ k. absurd (ground (arith, a, k));
        unset = λ k. absurd (ground (arith, t, k));
        balanced = λ token k. ground (arith, p, c, none_yet, nothing);
      }
  Step-IsSolvent (registered e arbiter this_ other h) =
      let (bond, token, t, f, p, c, q, u, a) = register_lem s e arbiter h in
      let new : ArbiterRecord = record { bond = bond; open_votes = 0 } in
      let grown = sum_by-put (λ (r : ArbiterRecord). r.bond) s.records arbiter new in
      record {
        keys = ground (arith, p, no_repeat-put s.records arbiter new inv.keys);
        sound = λ i r k. inv.sound i r (cc (k, q));
        first = λ k. cc (u, inv.first (cc (k, a)));
        unset = λ k. absurd (ground (arith, t, u, k));
        balanced = λ tok k.
            ground (arith, p, c, f, grown, this_, other, t, u, inv.balanced tok (cc (k, u)));
      }
  Step-IsSolvent (deregistered e arbiter this_ h) =
      let (rec, f, _, p, q, u, a) = deregister_lem s e arbiter h in
      let less = sum_by-remove (λ (r : ArbiterRecord). r.bond) s.records arbiter inv.keys in
      record {
        keys = ground (arith, p, no_repeat-remove s.records arbiter inv.keys);
        sound = λ i r k. inv.sound i r (cc (k, q));
        first = λ k. cc (u, inv.first (cc (k, a)));
        unset = λ k. elim (deregister_pays s e arbiter rec h f) [
          | inl (z, c) ↦ ground (arith, less, f, p, z, c, inv.unset (cc (k, u)))
          | inr (token, t, c) ↦ absurd (ground (arith, t, u, k))
        ];
        balanced = λ tok k. elim (deregister_pays s e arbiter rec h f) [
          | inl (z, c) ↦ ground (arith, less, f, p, z, c, inv.balanced tok (cc (k, u)))
          | inr (token, t, c) ↦
              ground (arith, less, f, p, c, t, u, this_, inv.balanced tok (cc (k, u)))
        ];
      }
  Step-IsSolvent (opened e intent panel h) =
      let (n, m, t, l, u, f, _, _, _, d, z, w) = open_vote_lem s e intent h in
      let x = draw_panel-Drawn e intent (min n (length l)) 0 l s d in
      IsSolvent-unpaid
        (rounds_written intent (new_round panel t e.at.now)
          (new_round-IsRound panel t e.at.now (scaled_positive m (min n (length l)) n z))
          (ground (arith, w, x.kept.same_rounds)))
        (λ k. ground (arith, w, x.kept.keys k)) (ground (arith, w, x.kept.same_admin))
        (ground (arith, w, x.kept.same_token)) (ground (arith, w, x.kept.same_calls))
        (ground (arith, w, x.same_bonds))
  Step-IsSolvent (voted e arbiter intent v h) =
      let (r, f, _, _, m, _, _, z) = vote_lem s e arbiter intent v h in
      IsSolvent-unpaid
        (rounds_written intent (record r { votes = put r.votes arbiter v })
          (vote-IsRound r arbiter v (inv.sound intent r f) m) (ground (arith, z)))
        (λ k. ground (arith, z, k)) (ground (arith, z)) (ground (arith, z)) (ground (arith, z))
        (ground (arith, z))
  Step-IsSolvent (tallied e intent o h) =
      let (r, f, k) = tally-Kept e intent s h in
      let (_, b, c) = tally-bonds e intent s r f (inv.sound intent r f) h in
      let v = inv.sound intent r f in
      let done : IsRound (record r { settled = true }) = record {
        asked = v.asked;
        once = v.once;
        of_members = v.of_members;
      } in
      IsSolvent-unpaid (rounds_written intent (record r { settled = true }) done k.same_rounds)
        k.keys k.same_admin k.same_token c b

-- Along every sequence of successful calls from an empty panel, where the panel itself is no
-- arbiter: the bond tokens paid in are the bond tokens paid out plus the bonds of the registered
-- arbiters, slashes and their redistribution included.
pub Reach-solvent :
    (this token : ℕ) {s t : Panel}
    → s.admin ≡ none
    → s.bond_token ≡ none
    → s.records ≡ []
    → s.rounds ≡ []
    → s.calls ≡ []
    → Reach this s t
    → t.bond_token ≡ some token
    → bonds t + paid_out this token t.calls ≡ paid_in this token t.calls
Reach-solvent this token {s} a b c d f r h = (solvent r).balanced token h
  where
    solvent : {t : Panel} → Reach this s t → IsSolvent this t
    solvent here = record {
      keys = unfold no_repeat in ground (arith, c);
      sound = λ i x k. absurd (unfold get in ground (arith, d, k));
      first = λ _. b;
      unset = λ _. (f, unfold sum_by in ground (arith, c));
      balanced = λ tok k. absurd (ground (arith, b, k));
    }
    solvent (next {t} {u} r w) = Step-IsSolvent this t u (solvent r) w
