-- ===== src/Governor/Snapshots.antt =====
-- The histories of voting power, and the power at an earlier ledger.
use vortex_contracts.Base.{
  ℕ, zero, suc, ◌+◌, ◌-◌, ◌≡◌, ◌⊎◌, ◌≤◌, ◌<◌, refl, sym, subst, ap, ◌∙◌, List, [], ◌∷◌, ◌++◌, arith,
  ok, inl, inr, Bool-cases, leb, ◌==◌, if◌then◌else◌, get_or, length, unwrap,
}
use vortex_contracts.Base.Int.{ℤ, pos}
use vortex_contracts.Base.Dict.{Dict, get, get-put}
use vortex_contracts.Base.Lists.{drop, length-append, length-drop}
use vortex_contracts.Governor.Power.{
  Checkpoint, Governor, Env, appended, checkpoints_of, sync_power, voting_power,
}
use vortex_contracts.Governor.Search.{power_at, ledger_at, IsSorted, search-power_at}
use vortex_contracts.Governor.Success.{
  initialize_lem, update_config_lem, sync_power_lem, propose_lem, cancel_lem, cast_vote_lem,
  queue_lem, execute_lem,
}
use vortex_contracts.Governor.Runs.{
  Step, initialized, updated, synced, proposed, canceled, voted, queued, executed, Reach, here,
  next,
}

ledger_at-append :
    (l : List Checkpoint) (c : Checkpoint) (i : ℕ)
    → i ≤ length l
    → ledger_at (l ++ c ∷ []) i ≡ (if i == length l then c.ledger else ledger_at l i)
unfolding ledger_at
ledger_at-append [] c zero h = refl
ledger_at-append [] c (suc i) h = absurd (omega (arith, h))
ledger_at-append (d ∷ l) c zero h = ground arith
ledger_at-append (d ∷ l) c (suc i) h = ground (arith, ledger_at-append l c i)

ledger_at-drop :
    (n : ℕ) (l : List Checkpoint) (i : ℕ) → ledger_at (drop n l) i ≡ ledger_at l (n + i)
unfolding ledger_at
ledger_at-drop zero l i = ap (ledger_at l) (omega arith)
ledger_at-drop (suc n) [] i = refl
ledger_at-drop (suc n) (c ∷ l) i =
    ledger_at-drop n l i ∙ ap (ledger_at (c ∷ l)) {x = suc (n + i)} (omega arith)

-- A history at the ledger `t`: bounded, in order, and of the past.
pub record IsHistory (t : ℕ) (l : List Checkpoint) : Type 0 where
  pub few : length l ≤ 64
  pub sorted : IsSorted l
  pub past : (i : ℕ) → i < length l → ledger_at l i ≤ t

appended-IsHistory :
    (t : ℕ) (c : Checkpoint) (l : List Checkpoint)
    → IsHistory t l
    → t ≤ c.ledger
    → IsHistory c.ledger (appended c l)
unfolding appended
appended-IsHistory t c l h p =
    let all = l ++ c ∷ [] in
    let n = length all - 64 in
    let long : length all ≡ length l + 1 = omega (arith, length-append l (c ∷ [])) in
    let ordered : (i j : ℕ) → i ≤ j → j < length all → ledger_at all i ≤ ledger_at all j =
      λ i j a b. ground (
        arith,
        ledger_at-append l c i,
        ledger_at-append l c j,
        h.sorted i j,
        h.past i,
        long,
        p,
        a,
        b,
      ) in
    record {
      few = omega (arith, length-drop n all, h.few, long);
      sorted = λ i j a b. ground (
        arith,
        ledger_at-drop n all i,
        ledger_at-drop n all j,
        ordered (n + i) (n + j),
        length-drop n all,
        a,
        b,
      );
      past = λ i a. ground (
        arith,
        ledger_at-drop n all i,
        length-drop n all,
        ledger_at-append l c (n + i),
        h.past (n + i),
        long,
        p,
        a,
      );
    }

-- A synchronisation adds one checkpoint to one history.
sync_checkpoints :
    (e : Env) (s : Governor) (account : ℕ) {n : ℤ} {s' : Governor} (registry a : ℕ)
    → sync_power e account s ≡ ok (n, s')
    → (checkpoints_of registry a s' ≡ checkpoints_of registry a s)
      ⊎ (checkpoints_of registry a s'
          ≡ appended (record { ledger = e.at.now; power = n }) (checkpoints_of registry a s))
sync_checkpoints e s account {n} registry a h =
    let (c, _, _, w) = sync_power_lem e s account h in
    let new =
      appended (record { ledger = e.at.now; power = n }) (checkpoints_of c.registry account s) in
    let same = ap (λ (g : Governor). get_or (get (g.checkpoints registry) a) []) w in
    let law = get-put (s.checkpoints registry) account a new in
    elim (Bool-cases (registry == c.registry)) [
      | inr p ↦ inl (ground (arith, same, p))
      | inl p ↦ elim (Bool-cases (account == a)) [
        | inr q ↦ inl (ground (arith, same, law, p, q))
        | inl q ↦
            let r : registry ≡ c.registry = ground (arith, p) in
            let b : account ≡ a = ground (arith, q) in inr (ground (arith, same, law, p, q, r, b))
      ]
    ]

-- Every history of the governor.
abbrev pub HasHistories : ℕ → Governor → Type 0
HasHistories t s = (registry account : ℕ) → IsHistory t (checkpoints_of registry account s)

module _ (t : ℕ) (e : Env) (s s' : Governor) (inv : HasHistories t s) (l : t ≤ e.at.now) where
  histories_same : s'.checkpoints ≡ s.checkpoints → HasHistories e.at.now s'
  histories_same p registry account =
      let h = inv registry account in
      let later : IsHistory e.at.now (checkpoints_of registry account s) = record {
        few = h.few;
        sorted = h.sorted;
        past = λ i a. omega (arith, l, h.past i a);
      } in
      subst
        (λ (f : ℕ → Dict (List Checkpoint)).
          IsHistory e.at.now (get_or (get (f registry) account) []))
        (sym p) later

  sync-HasHistories :
      (account : ℕ) {n : ℤ} → sync_power e account s ≡ ok (n, s') → HasHistories e.at.now s'
  sync-HasHistories account {n} h registry a =
      let old = inv registry a in
      let later : IsHistory e.at.now (checkpoints_of registry a s) = record {
        few = old.few;
        sorted = old.sorted;
        past = λ i b. omega (arith, l, old.past i b);
      } in
      let c : Checkpoint = record { ledger = e.at.now; power = n } in
      elim (sync_checkpoints e s account registry a h) [
        | inl p ↦ subst (IsHistory e.at.now) (sym p) later
        | inr p ↦
            subst (IsHistory e.at.now) (sym p)
              (appended-IsHistory t c (checkpoints_of registry a s) old l)
      ]

  Step-HasHistories : Step e s s' → HasHistories e.at.now s'
  Step-HasHistories (initialized admin config h) =
      let (_, _, _, _, p, _) = initialize_lem e s admin config h in histories_same p
  Step-HasHistories (updated config h) =
      histories_same (ground (arith, update_config_lem e s config h))
  Step-HasHistories (synced account n h) = sync-HasHistories account h
  Step-HasHistories (proposed proposer target function calldata id h) =
      let (_, _, _, _, _, _, _, _, _, p) = propose_lem e s proposer target function calldata h in
      histories_same p
  Step-HasHistories (canceled caller id h) =
      let (_, _, _, _, w) = cancel_lem e s caller id h in histories_same (ground (arith, w))
  Step-HasHistories (voted voter id n v h) =
      let (_, _, _, _, _, _, _, _, _, _, _, _, w) = cast_vote_lem e s voter id v h in
      histories_same (ap (λ (g : Governor). g.checkpoints) w)
  Step-HasHistories (queued id h) =
      let (_, _, _, _, _, _, _, _, _, w) = queue_lem e s id h in histories_same (ground (arith, w))
  Step-HasHistories (executed id h) =
      let (_, _, _, _, _, _, _, _, w) = execute_lem e s id h in histories_same (ground (arith, w))

Reach-HasHistories :
    {s u : Governor} {t : ℕ}
    → ((registry : ℕ) → s.checkpoints registry ≡ [])
    → Reach s t u
    → HasHistories t u
unfolding get
Reach-HasHistories {s} b here = λ registry account.
    subst (λ (d : Dict (List Checkpoint)). IsHistory 0 (get_or (get d account) []))
      (sym (b registry))
      (record {
        few = omega arith;
        sorted = λ i j p q. absurd (omega (arith, q));
        past = λ i p. absurd (omega (arith, p));
      })
Reach-HasHistories b (next {t} {t'} {u} {v} e r q l w) =
    subst (λ (n : ℕ). HasHistories n v) q
      (Step-HasHistories t e u v (Reach-HasHistories b r) (omega (arith, l, q)) w)

-- In every state that a run at ledgers that do not go back reaches from one without checkpoints,
-- the voting power of any account at any ledger is defined, and is that of a scan of its history.
pub Reach-voting_power :
    {s u : Governor} {t : ℕ} (registry account ledger : ℕ)
    → ((r : ℕ) → s.checkpoints r ≡ [])
    → Reach s t u
    → voting_power registry account ledger u
      ≡ ok (power_at (pos 0) (checkpoints_of registry account u) ledger)
unfolding voting_power
Reach-voting_power {s} {u} registry account ledger b r =
    let l = checkpoints_of registry account u in
    ap unwrap (search-power_at l ledger (Reach-HasHistories b r registry account).sorted)

power_at-append :
    (latest : ℤ) (l : List Checkpoint) (c : Checkpoint) (ledger : ℕ)
    → ledger < c.ledger
    → power_at latest (l ++ c ∷ []) ledger ≡ power_at latest l ledger
unfolding power_at
power_at-append latest [] c ledger h = ground arith
power_at-append latest (d ∷ l) c ledger h =
    power_at-append (if leb d.ledger ledger then d.power else latest) l c ledger h

-- In every such state, recording a power changes no voting power at a ledger before the current
-- one, of any account whose history has fewer than 64 checkpoints.
pub sync_power-snapshot :
    {s u v : Governor} {t : ℕ} (e : Env) (who registry account ledger : ℕ) {n : ℤ}
    → ((r : ℕ) → s.checkpoints r ≡ [])
    → Reach s t u
    → t ≤ e.at.now
    → ledger < e.at.now
    → length (checkpoints_of registry account u) < 64
    → sync_power e who u ≡ ok (n, v)
    → voting_power registry account ledger v ≡ voting_power registry account ledger u
sync_power-snapshot {s} {u} {v} {t} e who registry account ledger {n} b r l before room h =
    let r' : Reach s e.at.now v = next e r refl l (synced who n h) in
    let c : Checkpoint = record { ledger = e.at.now; power = n } in
    let old = checkpoints_of registry account u in
    let same : power_at (pos 0) (checkpoints_of registry account v) ledger
        ≡ power_at (pos 0) old ledger =
      elim (sync_checkpoints e u who registry account h) [
        | inl p ↦ ap (λ (k : List Checkpoint). power_at (pos 0) k ledger) p
        | inr p ↦
            ap (λ (k : List Checkpoint). power_at (pos 0) k ledger) (p ∙ appended_room c old room)
            ∙ power_at-append (pos 0) old c ledger before
      ] in
    Reach-voting_power registry account ledger b r'
    ∙ ap ok same
    ∙ sym (Reach-voting_power registry account ledger b r)
  where
    appended_room :
        (c : Checkpoint) (l : List Checkpoint) → length l < 64 → appended c l ≡ l ++ c ∷ []
    appended_room c l h =
        unfold appended in
        ap (λ (k : ℕ). drop k (l ++ c ∷ [])) {y = 0} (omega (arith, length-append l (c ∷ []), h))
