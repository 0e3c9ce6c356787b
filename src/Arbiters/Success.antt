-- ===== src/Arbiters/Success.antt =====
-- What the loops over arbiters do to the locks and the bonds when they succeed.
use vortex_contracts.Base.{
  ℕ, zero, suc, ◌+◌, ◌-◌, ◌≡◌, refl, subst, true, some, List, [], ◌∷◌, arith, ok, inl, inr,
  Call-cases, Option-cases, ◌==◌, if◌then◌else◌, get_elem?, length,
}
use vortex_contracts.Base.Dict.{get, get-put, sum_by, sum_by-put, weight, no_repeat, no_repeat-put}
use vortex_contracts.Base.Lists.{set}
use vortex_contracts.Arbiters.State.{ArbiterRecord, Panel, Env, save_arbiter}
use vortex_contracts.Arbiters.Rounds.{draw_panel, lock}

-- How often an arbiter sits in a panel.
unfoldable pub count : ℕ → List ℕ → ℕ
count a [] = 0
count a (x ∷ xs) = (if x == a then 1 else 0) + count a xs

-- The locks of an arbiter, and the bonds of all.
abbrev pub open_of : Panel → ℕ → ℕ
open_of s a = weight (λ r. r.open_votes) (get s.records a)

abbrev pub bonds : Panel → ℕ
bonds s = sum_by (λ r. r.bond) s.records

-- What the loops leave alone.
pub record Kept (s s' : Panel) : Type 0 where
  pub same_admin : s'.admin ≡ s.admin
  pub same_token : s'.bond_token ≡ s.bond_token
  pub same_settlement : s'.settlement ≡ s.settlement
  pub same_rounds : s'.rounds ≡ s.rounds
  pub same_calls : s'.calls ≡ s.calls
  pub keys : no_repeat s.records ≡ true → no_repeat s'.records ≡ true

pub Kept-refl : (s : Panel) → Kept s s
Kept-refl s = record {
  same_admin = refl;
  same_token = refl;
  same_settlement = refl;
  same_rounds = refl;
  same_calls = refl;
  keys = λ h. h;
}

pub Kept-trans : {s t u : Panel} → Kept s t → Kept t u → Kept s u
Kept-trans p q = record {
  same_admin = cc (p.same_admin, q.same_admin);
  same_token = cc (p.same_token, q.same_token);
  same_settlement = cc (p.same_settlement, q.same_settlement);
  same_rounds = cc (p.same_rounds, q.same_rounds);
  same_calls = cc (p.same_calls, q.same_calls);
  keys = λ h. q.keys (p.keys h);
}

module _ (s : Panel) (b : ℕ) (old new : ArbiterRecord) (found : get s.records b ≡ some old) where
  pub Kept-save : Kept s (save_arbiter b new s)
  Kept-save = record {
    same_admin = refl;
    same_token = refl;
    same_settlement = refl;
    same_rounds = refl;
    same_calls = refl;
    keys = no_repeat-put s.records b new;
  }

  pub open_of-save :
      (a : ℕ) → open_of (save_arbiter b new s) a ≡ (if b == a then new.open_votes else open_of s a)
  open_of-save a = ground (arith, get-put s.records b a new)

  pub bonds-save : bonds (save_arbiter b new s) + old.bond ≡ bonds s + new.bond
  bonds-save = ground (arith, sum_by-put (λ (r : ArbiterRecord). r.bond) s.records b new)

  pub open_of-found : (a : ℕ) → b ≡ a → open_of s a ≡ old.open_votes
  open_of-found a h = ground arith

-- One draw, and the draws after it.
draw_panel_step :
    (e : Env) (intent k i : ℕ) (eligible : List ℕ) (s : Panel) {panel : List ℕ} {s' : Panel}
    → draw_panel e intent (suc k) i eligible s ≡ ok (panel, s')
    → (b : ℕ) × (old : ArbiterRecord) × (rest next : List ℕ) × (get s.records b ≡ some old)
      × (draw_panel e intent k (i + 1) next (lock b old (old.open_votes + 1) s) ≡ ok (rest, s'))
      × (panel ≡ b ∷ rest)
unfolding draw_panel
draw_panel_step e intent k i eligible s h =
    let j = e.gen_range intent i (length eligible - 1) in
    elim (Option-cases (get_elem? eligible i)) [
      | inl p ↦ absurd (ground arith)
      | inr (a, p) ↦ elim (Option-cases (get_elem? eligible j)) [
        | inl q ↦ absurd (ground arith)
        | inr (b, q) ↦ elim (Option-cases (get s.records b)) [
          | inl r ↦ absurd (ground arith)
          | inr (old, r) ↦
              let next = set (set eligible i b) j a in
              let locked = lock b old (old.open_votes + 1) s in
              elim (Call-cases (draw_panel e intent k (i + 1) next locked)) [
                | inr f ↦ absurd (ground arith)
                | inl (v, w) ↦ (b, old, v.0, next, r, ground arith, ground arith)
              ]
        ]
      ]
    ]

-- A draw locks every member once for each place, and moves no bond.
pub record Drawn (panel : List ℕ) (s s' : Panel) : Type 0 where
  pub kept : Kept s s'
  pub locks : (a : ℕ) → open_of s' a ≡ open_of s a + count a panel
  pub same_bonds : bonds s' ≡ bonds s

pub draw_panel-Drawn :
    (e : Env) (intent k i : ℕ) (eligible : List ℕ) (s : Panel) {panel : List ℕ} {s' : Panel}
    → draw_panel e intent k i eligible s ≡ ok (panel, s')
    → Drawn panel s s'
unfolding count
draw_panel-Drawn e intent zero i eligible s {panel} {s'} h =
    let p : ([] ≡ panel) × (s ≡ s') = unfold draw_panel in ground arith in
    record {
      kept = subst (Kept s) p.1 (Kept-refl s);
      locks = λ a. ground (arith, p.0, p.1);
      same_bonds = ground (arith, p.1);
    }
draw_panel-Drawn e intent (suc k) i eligible s h =
    let (b, old, rest, next, f, w, p) = draw_panel_step e intent k i eligible s h in
    let new : ArbiterRecord = record old { open_votes = old.open_votes + 1 } in
    let d = draw_panel-Drawn e intent k (i + 1) next (save_arbiter b new s) w in
    record {
      kept = Kept-trans (Kept-save s b old new f) d.kept;
      locks = λ a.
          ground (arith, p, d.locks a, open_of-save s b old new f a, open_of-found s b old new f a);
      same_bonds = ground (arith, d.same_bonds, bonds-save s b old new f);
    }
