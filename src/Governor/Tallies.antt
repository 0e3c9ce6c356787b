-- ===== src/Governor/Tallies.antt =====
-- The counts of a proposal along the runs of the governor, and what an executed proposal has passed.
use vortex_contracts.Base.{
  ℕ, ◌+◌, ◌≡◌, ◌≢◌, ◌≤◌, ◌<◌, refl, subst, true, false, none, some, [], arith, ok, inl, inr,
  Bool-cases, ◌==◌, ==_iff, sym, ap, ◌∙◌, get_or,
}
use vortex_contracts.Base.Dict.{Dict, get, put, get-put, sum_by, sum_by-put}
use vortex_contracts.Governor.Power.{VoteType, Proposal, Governor, Env}
use vortex_contracts.Governor.Proposals.{new_proposal, cast_vote}
use vortex_contracts.Governor.Runs.{
  Step, initialized, updated, synced, proposed, canceled, voted, queued, executed, Reach, here,
  next,
}
use vortex_contracts.Governor.Success.{
  all_votes, initialize_lem, update_config_lem, sync_power_lem, propose_lem, cancel_lem,
  cast_vote_lem, queue_lem, execute_lem,
}

-- A proposal at the ledger `t`: its counts are those of its votes, and it is queued or executed
-- only after the end of the vote and with a majority.
pub record IsTallied (t : ℕ) (p : Proposal) (votes : Dict ℕ) : Type 0 where
  pub counted : all_votes p ≡ sum_by (λ n. n) votes
  pub passed : p.eta ≢ 0 → (p.against_votes < p.for_votes) × (p.deadline < t)
  pub done : p.executed ≡ true → (p.eta ≢ 0) × (p.eta ≤ t)

pub record AreTallied (t : ℕ) (s : Governor) : Type 0 where
  pub unset : s.config ≡ none → get_or s.count 0 ≡ 0
  pub unused : (i : ℕ) → get_or s.count 0 ≤ i → (get s.proposals i ≡ none) × (s.votes i ≡ [])
  pub tallied : (i : ℕ) (p : Proposal) → get s.proposals i ≡ some p → IsTallied t p (s.votes i)

later :
    (t t' : ℕ) (p : Proposal) (votes : Dict ℕ) → t ≤ t' → IsTallied t p votes → IsTallied t' p votes
later t t' p votes l w = record {
  counted = w.counted;
  passed = λ h. omega (arith, l, w.passed h);
  done = λ h. ((w.done h).0, omega (arith, l, (w.done h).1));
}

module _ (t t' : ℕ) (s s' : Governor) (inv : AreTallied t s) (l : t ≤ t') where
  -- Where no proposal, vote or count is written.
  tallied_same :
      s'.proposals ≡ s.proposals
      → s'.votes ≡ s.votes
      → get_or s'.count 0 ≡ get_or s.count 0
      → (s'.config ≡ none → s.config ≡ none)
      → AreTallied t' s'
  tallied_same p v c u = record {
    unset = λ h. ground (arith, c, inv.unset (u h));
    unused = λ i h. ground (arith, p, v, inv.unused i (omega (arith, h, c)));
    tallied = λ i x h.
        subst (λ (f : ℕ → Dict ℕ). IsTallied t' x (f i)) (sym v)
          (later t t' x (s.votes i) l (inv.tallied i x (cc (h, p))));
  }

  -- Where one stored proposal is rewritten, with its votes.
  tallied_write :
      (id : ℕ) (p p' : Proposal)
      → get s.proposals id ≡ some p
      → IsTallied t' p' (s'.votes id)
      → ((i : ℕ) → id ≢ i → s'.votes i ≡ s.votes i)
      → s'.proposals ≡ put s.proposals id p'
      → s'.count ≡ s.count
      → s'.config ≡ s.config
      → AreTallied t' s'
  tallied_write id p p' f w v q c k = record {
    unset = λ h. ground (arith, c, inv.unset (cc (h, k)));
    unused = λ i h.
        let (a, b) = inv.unused i (ground (arith, h, c)) in
        let other : id ≢ i = λ z. absurd (ground (arith, f, a, z)) in
        (ground (arith, a, q, get-put s.proposals id i p', ==_iff id i, other), cc (b, v i other));
    tallied = λ i x h. elim (Bool-cases (id == i)) [
      | inl z ↦
          let same : id ≡ i = ground arith in
          let is : p' ≡ x = ground (arith, h, q, get-put s.proposals id i p', z) in
          subst (λ (j : ℕ). IsTallied t' x (s'.votes j)) same
            (subst (λ (y : Proposal). IsTallied t' y (s'.votes id)) is w)
      | inr z ↦
          let other : id ≢ i = λ y. absurd (ground arith) in
          subst (λ (d : Dict ℕ). IsTallied t' x d) (sym (v i other))
            (later t t' x (s.votes i) l
              (inv.tallied i x (ground (arith, h, q, get-put s.proposals id i p', z))))
    ];
  }

  tallied_propose :
      (id : ℕ) (p : Proposal)
      → id ≡ get_or s.count 0
      → all_votes p ≡ 0
      → p.eta ≡ 0
      → p.executed ≡ false
      → s.config ≢ none
      → s'.proposals ≡ put s.proposals id p
      → s'.votes ≡ s.votes
      → s'.count ≡ some (id + 1)
      → s'.config ≡ s.config
      → AreTallied t' s'
  unfolding sum_by
  tallied_propose id p e z a x n q v c k =
      let (_, empty) = inv.unused id (omega (arith, e)) in
      record {
        unset = λ h. absurd (n (cc (h, k)));
        unused = λ i h.
            let (f, g) = inv.unused i (ground (arith, h, c, e)) in
            (ground (arith, f, q, get-put s.proposals id i p, c, h), cc (g, v));
        tallied = λ i y h. elim (Bool-cases (id == i)) [
          | inl w ↦
              let same : id ≡ i = ground arith in
              let is : p ≡ y = ground (arith, h, q, get-put s.proposals id i p, w) in
              record {
                counted = ground (arith, is, z, v, empty, same);
                passed = λ u. absurd (ground (arith, is, a, u));
                done = λ u. absurd (ground (arith, is, x, u));
              }
          | inr w ↦
              subst (λ (f : ℕ → Dict ℕ). IsTallied t' y (f i)) (sym v)
                (later t t' y (s.votes i) l
                  (inv.tallied i y (ground (arith, h, q, get-put s.proposals id i p, w))))
        ];
      }

module _ (t : ℕ) (e : Env) (s s' : Governor) (inv : AreTallied t s) (l : t ≤ e.at.now) where
  vote-AreTallied :
      (voter id n : ℕ) (v : VoteType)
      → cast_vote e voter id v s ≡ ok (n, s')
      → AreTallied e.at.now s'
  vote-AreTallied voter id n v h =
      let (c, p, p', q₁, q₂, q₃, q₄, q₅, q₆, q₇, sum, k, w) = cast_vote_lem e s voter id v h in
      let old = inv.tallied id p q₂ in
      let more = sum_by-put (λ (m : ℕ). m) (s.votes id) voter n in
      tallied_write t e.at.now s s' inv l id p p' q₂
        (record {
          counted = ground (arith, w, old.counted, sum, more, q₆);
          passed = λ u. absurd (ground (arith, old.passed, k.same_eta, u, q₃, l));
          done = λ u. absurd (ground (arith, old.done, old.passed, k.same_executed, u, q₃, l));
        })
        (λ i o. ground (arith, w, o, ==_iff i id)) (ground (arith, w)) (ground (arith, w))
        (ground (arith, w))

  -- A write of the mark of cancellation, of the time of a queued call, or of the execution.
  marked-AreTallied :
      (id : ℕ) (p p' : Proposal)
      → get s.proposals id ≡ some p
      → all_votes p' ≡ all_votes p
      → (p'.eta ≢ 0 → (p'.against_votes < p'.for_votes) × (p'.deadline < e.at.now))
      → (p'.executed ≡ true → (p'.eta ≢ 0) × (p'.eta ≤ e.at.now))
      → s' ≡ record s { proposals = put s.proposals id p' }
      → AreTallied e.at.now s'
  marked-AreTallied id p p' f a u d w =
      tallied_write t e.at.now s s' inv l id p p' f
        (record {
          counted = ground (arith, w, a, (inv.tallied id p f).counted);
          passed = u;
          done = d;
        })
        (λ i o. ground (arith, w)) (ground (arith, w)) (ground (arith, w)) (ground (arith, w))

  Step-AreTallied : Step e s s' → AreTallied e.at.now s'
  Step-AreTallied (initialized admin config h) =
      let (f, c, p, v, _, k) = initialize_lem e s admin config h in
      tallied_same t e.at.now s s' inv l p v (ground (arith, c, inv.unset f))
        (λ u. absurd (ground (arith, k, u)))
  Step-AreTallied (updated config h) =
      let w = update_config_lem e s config h in
      tallied_same t e.at.now s s' inv l (ground (arith, w)) (ground (arith, w)) (ground (arith, w))
        (λ u. absurd (ground (arith, w, u)))
  Step-AreTallied (synced account n h) =
      let (c, q, _, w) = sync_power_lem e s account h in
      tallied_same t e.at.now s s' inv l (ap (λ (g : Governor). g.proposals) w)
        (ap (λ (g : Governor). g.votes) w) (ap (λ (g : Governor). get_or g.count 0) w)
        (λ u. ap (λ (g : Governor). g.config) (sym w) ∙ u)
  Step-AreTallied (proposed proposer target function calldata id h) =
      let (c, d, q, _, i, p, n, v, k, _) = propose_lem e s proposer target function calldata h in
      tallied_propose t e.at.now s s' inv l id
        (new_proposal proposer e.at.now d target function calldata) i (omega arith) refl refl
        (λ u. absurd (ground (arith, q, u))) p v n k
  Step-AreTallied (canceled caller id h) =
      let (p, f, _, _, w) = cancel_lem e s caller id h in
      let old = later t e.at.now p (s.votes id) l (inv.tallied id p f) in
      marked-AreTallied id p (record p { canceled = true }) f refl old.passed old.done w
  Step-AreTallied (voted voter id n v h) = vote-AreTallied voter id n v h
  Step-AreTallied (queued id h) =
      let (c, p, _, f, _, x, d, m, _, w) = queue_lem e s id h in
      marked-AreTallied id p (record p { eta = e.at.now + c.voting_delay }) f refl (λ _. (m, d))
        (λ u. absurd (ground (arith, x, u))) w
  Step-AreTallied (executed id h) =
      let (c, p, _, f, _, z, b, _, w) = execute_lem e s id h in
      let old = later t e.at.now p (s.votes id) l (inv.tallied id p f) in
      marked-AreTallied id p (record p { executed = true }) f refl old.passed (λ _. (z, b)) w

Reach-AreTallied :
    {s u : Governor} {t : ℕ}
    → s.config ≡ none
    → s.count ≡ none
    → s.proposals ≡ []
    → ((i : ℕ) → s.votes i ≡ [])
    → Reach s t u
    → AreTallied t u
unfolding get
Reach-AreTallied a b c d here = record {
  unset = λ _. ground (arith, b);
  unused = λ i _. (ground (arith, c), d i);
  tallied = λ i p h. absurd (ground (arith, c, h));
}
Reach-AreTallied a b c d (next {t} {t'} {u} {v} e r q l w) =
    subst (λ (n : ℕ). AreTallied n v) q
      (Step-AreTallied t e u v (Reach-AreTallied a b c d r) (omega (arith, l, q)) w)

-- Along every such sequence the votes for, against and abstaining of a stored proposal add up to
-- the powers recorded for its voters, one for each.
pub Reach-counted :
    {s u : Governor} {t : ℕ} (id : ℕ) (p : Proposal)
    → s.config ≡ none
    → s.count ≡ none
    → s.proposals ≡ []
    → ((i : ℕ) → s.votes i ≡ [])
    → Reach s t u
    → get u.proposals id ≡ some p
    → all_votes p ≡ sum_by (λ n. n) (u.votes id)
Reach-counted id p a b c d r f = ((Reach-AreTallied a b c d r).tallied id p f).counted

-- Along every sequence of successful calls at ledgers that do not go back, from a governor
-- without configuration and proposals, an executed proposal has more votes for it than against
-- it, its vote ended before, and it was queued with a time that has come.
pub Reach-passed :
    {s u : Governor} {t : ℕ} (id : ℕ) (p : Proposal)
    → s.config ≡ none
    → s.count ≡ none
    → s.proposals ≡ []
    → ((i : ℕ) → s.votes i ≡ [])
    → Reach s t u
    → get u.proposals id ≡ some p
    → p.executed ≡ true
    → (p.against_votes < p.for_votes) × (p.deadline < t) × (p.eta ≢ 0) × (p.eta ≤ t)
Reach-passed id p a b c d r f x =
    let w = (Reach-AreTallied a b c d r).tallied id p f in
    let (z, y) = w.done x in let (m, n) = w.passed z in (m, n, z, y)
