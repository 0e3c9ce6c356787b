-- ===== src/Settlement/Index.antt =====
-- intent_settlement/src/lib.rs: the list of the intents that a solver holds, with the position
-- of each, and the pages of a user's intents.
use vortex_contracts.Base.{
  ℕ, zero, suc, ◌-◌, ◌/◌, Option, none, some, List, [], ◌∷◌, ◌++◌, ◌==◌, if◌then◌else◌, get_or,
  length, get_elem?, ltb, ok, ◌>>=◌, ◌>>◌, unwrap, host,
}
use vortex_contracts.Base.Checked.{add_u32}
use vortex_contracts.Settlement.Const
use vortex_contracts.Settlement.State.{SolverIndex, UserPages, Call, update, update₂}

-- `list.set(i, v)` and the removal of the last element.
abbrev pub set : List ℕ → ℕ → ℕ → List ℕ
set [] i v = []
set (x ∷ xs) zero v = v ∷ xs
set (x ∷ xs) (suc i) v = x ∷ set xs i v

abbrev pub drop_last : List ℕ → List ℕ
drop_last [] = []
drop_last (x ∷ []) = []
drop_last (x ∷ y ∷ xs) = x ∷ drop_last (y ∷ xs)

unfoldable pub solver_intents_add : SolverIndex → ℕ → ℕ → SolverIndex
solver_intents_add x solver id =
    let list = get_or (x.solver_intents solver) [] in
    elim (x.solver_intent_idx solver id) [
      | some _ ↦ x
      | none ↦ record {
        solver_intents = update x.solver_intents solver (some (list ++ id ∷ []));
        solver_intent_idx = update₂ x.solver_intent_idx solver id (some (length list));
      }
    ]

-- The last element moves into the gap. A position past the end traps in the host's vector.
swap_remove : SolverIndex → ℕ → ℕ → ℕ → List ℕ → Call SolverIndex
swap_remove x solver id pos list =
    let last = length list - 1 in
    let shorter = λ (l : List ℕ) (idx : ℕ → ℕ → Option ℕ).
      let y : SolverIndex = record {
        solver_intents = update x.solver_intents solver (some (drop_last l));
        solver_intent_idx = update₂ idx solver id none;
      } in
      y in
    if pos == last then ok (shorter list x.solver_intent_idx) else (do
      tail ← unwrap (get_elem? list last)
      host (ltb pos (length list))
      ok (shorter (set list pos tail) (update₂ x.solver_intent_idx solver tail (some pos))))

unfoldable pub solver_intents_remove : SolverIndex → ℕ → ℕ → Call SolverIndex
unfolding swap_remove
solver_intents_remove x solver id = elim (x.solver_intent_idx solver id) [
  | none ↦ ok x
  | some pos ↦ elim (x.solver_intents solver) [
    | none ↦ ok x
    | some list ↦ swap_remove x solver id pos list
  ]
]

unfoldable pub user_intents_append : UserPages → ℕ → ℕ → Call UserPages
user_intents_append p user id = do
  let count = p.user_intent_count user
  let bucket = count / Const.user_intent_bucket_size
  count' ← add_u32 count 1
  ok (record {
    user_intents = update₂ p.user_intents user bucket (p.user_intents user bucket ++ some id ∷ []);
    user_intent_count = update p.user_intent_count user count';
  })
