-- ===== src/Arbiters/Release.antt =====
-- What a tally does to the locks and the bonds of a panel.
use vortex_contracts.Base.{
  ℕ, suc, ◌+◌, ◌-◌, ◌*◌, ◌/◌, ◌≡◌, ◌≤◌, ◌<◌, subst, true, ◌||◌, Option, none, some, List, [], ◌∷◌,
  ◌++◌, arith, ok, inl, inr, Call-cases, Bool-cases, Option-cases, ◌==◌, if◌then◌else◌, length,
}
use vortex_contracts.Base.Dict.{Dict, get}
use vortex_contracts.Base.Division.{div_mul_le, mul_div_le}
use vortex_contracts.Base.Lists.{length-append}
use vortex_contracts.Arbiters.State.{
  DisputeResolution, ArbiterRecord, Panel, save_arbiter, slash_bps,
}
use vortex_contracts.Arbiters.Rounds.{
  Release, release_record, release_all, wins, share_out, redistribute,
}
use vortex_contracts.Arbiters.Success.{
  count, open_of, bonds, Kept, Kept-refl, Kept-trans, Kept-save, open_of-save, open_of-found,
  bonds-save,
}

release_record_lem :
    (o v : Option DisputeResolution) (rec : ArbiterRecord) {x : ArbiterRecord × ℕ}
    → release_record o v rec ≡ ok x
    → (x.0.open_votes ≡ rec.open_votes - 1) × (x.0.bond + x.1 ≡ rec.bond) × (o ≡ none → x.1 ≡ 0)
unfolding release_record
release_record_lem none v rec h = (ground arith, ground arith, λ _. ground arith)
release_record_lem (some o) v rec h = (
  ground arith,
  ground (arith, mul_div_le rec.bond slash_bps 10_000 (omega arith)),
  λ k. absurd (ground arith),
)

abbrev next_release :
    Option DisputeResolution → Option DisputeResolution → ℕ → ArbiterRecord × ℕ → Release → Release
next_release o v a x r = record {
  winners = if wins o v then r.winners ++ a ∷ [] else r.winners;
  slashed_total = r.slashed_total + x.1;
  after = save_arbiter a x.0 r.after;
}

module _ (o : Option DisputeResolution) (votes : Dict DisputeResolution) where
  release_all_step :
      (a : ℕ) (panel : List ℕ) (r : Release) {r' : Release}
      → release_all o votes (a ∷ panel) r ≡ ok r'
      → (rec : ArbiterRecord) × (x : ArbiterRecord × ℕ) × (get r.after.records a ≡ some rec)
        × (release_record o (get votes a) rec ≡ ok x)
        × (release_all o votes panel (next_release o (get votes a) a x r) ≡ ok r')
  unfolding release_all
  release_all_step a panel r h = elim (Option-cases (get r.after.records a)) [
    | inl p ↦ absurd (ground arith)
    | inr (rec, p) ↦ elim (Call-cases (release_record o (get votes a) rec)) [
      | inr f ↦ absurd (ground arith)
      | inl (x, q) ↦ (rec, x, p, q, ground arith)
    ]
  ]

  pub record Released (panel : List ℕ) (r r' : Release) : Type 0 where
    pub kept : Kept r.after r'.after
    pub locks : (a : ℕ) → open_of r'.after a ≡ open_of r.after a - count a panel
    pub conserved : bonds r'.after + r'.slashed_total ≡ bonds r.after + r.slashed_total
    pub unslashed : o ≡ none → r'.slashed_total ≡ r.slashed_total
    pub more_winners : length r.winners ≤ length r'.winners
    pub won : (a : ℕ) → wins o (get votes a) ≡ true → 0 < count a panel → 0 < length r'.winners

  pub release_all-Released :
      (panel : List ℕ) (r : Release) {r' : Release}
      → release_all o votes panel r ≡ ok r'
      → Released panel r r'
  unfolding count
  release_all-Released [] r {r'} h =
      let p : r ≡ r' = unfold release_all in ground arith in
      record {
        kept = subst (λ (t : Release). Kept r.after t.after) p (Kept-refl r.after);
        locks = λ a. ground (arith, p);
        conserved = ground (arith, p);
        unslashed = λ _. ground (arith, p);
        more_winners = ground (arith, p);
        won = λ a _ k. absurd (omega (arith, k));
      }
  release_all-Released (b ∷ panel) r h =
      let (old, x, f, q, w) = release_all_step b panel r h in
      let (l, c, n) = release_record_lem o (get votes b) old q in
      let d = release_all-Released panel (next_release o (get votes b) b x r) w in
      let grown : length r.winners ≤ length (next_release o (get votes b) b x r).winners =
        ground (arith, length-append r.winners (b ∷ [])) in
      record {
        kept = Kept-trans (Kept-save r.after b old x.0 f) d.kept;
        locks = λ a. ground (
          arith,
          d.locks a,
          l,
          open_of-save r.after b old x.0 f a,
          open_of-found r.after b old x.0 f a,
        );
        conserved = ground (arith, d.conserved, c, bonds-save r.after b old x.0 f);
        unslashed = λ e. ground (arith, d.unslashed e, n e);
        more_winners = omega (arith, grown, d.more_winners);
        won = λ a v k. ground (arith, d.won a v, d.more_winners, length-append r.winners (b ∷ []));
      }

-- What the winners get in all.
abbrev given : ℕ → ℕ → List ℕ → ℕ
given share dust [] = 0
given share dust (a ∷ winners) = share + dust + share * length winners

given_undusted : (share : ℕ) (winners : List ℕ) → given share 0 winners ≡ share * length winners
given_undusted share [] = omega arith
given_undusted share (a ∷ winners) = grind arith

share_out_step :
    (share dust a : ℕ) (winners : List ℕ) (s : Panel) {s' : Panel}
    → share_out share dust (a ∷ winners) s ≡ ok s'
    → (rec : ArbiterRecord) × (get s.records a ≡ some rec)
      × (share_out share 0 winners
            (save_arbiter a (record rec { bond = rec.bond + (share + dust) }) s)
          ≡ ok s')
unfolding share_out
share_out_step share dust a winners s h = elim (Option-cases (get s.records a)) [
  | inl p ↦ absurd (ground arith)
  | inr (rec, p) ↦ (rec, p, ground arith)
]

pub record Shared (n : ℕ) (s s' : Panel) : Type 0 where
  pub kept : Kept s s'
  pub locks : (a : ℕ) → open_of s' a ≡ open_of s a
  pub raised : bonds s' ≡ bonds s + n

share_out-Shared :
    (share dust : ℕ) (winners : List ℕ) (s : Panel) {s' : Panel}
    → share_out share dust winners s ≡ ok s'
    → Shared (given share dust winners) s s'
share_out-Shared share dust [] s {s'} h =
    let p : s ≡ s' = unfold share_out in ground arith in
    record {
      kept = subst (Kept s) p (Kept-refl s);
      locks = λ a. ground (arith, p);
      raised = ground (arith, p);
    }
share_out-Shared share dust (b ∷ winners) s h =
    let (old, f, w) = share_out_step share dust b winners s h in
    let new : ArbiterRecord = record old { bond = old.bond + (share + dust) } in
    let d = share_out-Shared share 0 winners (save_arbiter b new s) w in
    record {
      kept = Kept-trans (Kept-save s b old new f) d.kept;
      locks = λ a.
          ground (arith, d.locks a, open_of-save s b old new f a, open_of-found s b old new f a);
      raised = ground (arith, d.raised, given_undusted share winners, bonds-save s b old new f);
    }

-- The shares and the dust are the whole.
given_all :
    (total : ℕ) (winners : List ℕ)
    → 0 < length winners
    → given (total / length winners) (total - (total / length winners) * length winners) winners
      ≡ total
given_all total [] h = absurd (omega (arith, h))
given_all total (a ∷ winners) h = grind (arith, div_mul_le total (suc (length winners)))

-- All that was cut goes to the winners, if there are any.
abbrev pub redistributed : Release → ℕ
redistributed r = if length r.winners == 0 then 0 else r.slashed_total

Shared-same :
    (r : Release) {s' : Panel}
    → r.after ≡ s'
    → redistributed r ≡ 0
    → Shared (redistributed r) r.after s'
Shared-same r q z = record {
  kept = subst (Kept r.after) q (Kept-refl r.after);
  locks = λ a. ground (arith, q);
  raised = ground (arith, q, z);
}

pub redistribute-Shared :
    (r : Release) {s' : Panel} → redistribute r ≡ ok s' → Shared (redistributed r) r.after s'
unfolding redistribute
redistribute-Shared r {s'} h = elim (Bool-cases (length r.winners == 0 || r.slashed_total == 0)) [
  | inl p ↦ Shared-same r (ground (arith, p)) (ground (arith, p))
  | inr p ↦
      let share = r.slashed_total / length r.winners in
      let dust = r.slashed_total - share * length r.winners in
      let d : Shared (given share dust r.winners) r.after s' =
        share_out-Shared share dust r.winners r.after (ground (arith, p)) in
      let whole : given share dust r.winners ≡ redistributed r =
        ground (arith, given_all r.slashed_total r.winners, p) in
      subst (λ (n : ℕ). Shared n r.after s') whole d
]
