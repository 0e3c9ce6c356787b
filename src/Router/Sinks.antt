-- ===== src/Router/Sinks.antt =====
-- The sink sets that `validate_sinks` accepts.
use vortex_contracts.Base.{
  ℕ, ◌+◌, ◌≡◌, ◌≤◌, ◌<◌, ◌↔◌, refl, Bool, true, not, ◌&&◌, List, [], ◌∷◌, arith, ok, inl, inr,
  Call-cases, leb, length,
}
use vortex_contracts.Base.Checked.{u32_bound}
use vortex_contracts.Router.Model.{Sink, is_listed, sat_add_u32, sum_weights, validate_sinks}

unfoldable pub weights : List Sink → ℕ
weights [] = 0
weights (s ∷ sinks) = s.weight_bps + weights sinks

-- No account occurs twice.
unfoldable pub distinct : List Sink → Bool
distinct [] = true
distinct (s ∷ sinks) = not (is_listed s.account sinks) && distinct sinks

-- Every account is at most 64 bytes long.
unfoldable pub short : (ℕ → ℕ) → List Sink → Bool
short account_len [] = true
short account_len (s ∷ sinks) = leb (account_len s.account) 64 && short account_len sinks

pub record IsSinkSet (account_len : ℕ → ℕ) (sinks : List Sink) : Type 0 where
  pub not_empty : 0 < length sinks
  pub few : length sinks ≤ 16
  pub are_short : short account_len sinks ≡ true
  pub are_distinct : distinct sinks ≡ true
  pub whole : weights sinks ≡ 10_000

-- No sink has an account of those seen.
fresh : List Sink → List Sink → Bool
fresh seen [] = true
fresh seen (s ∷ sinks) = not (is_listed s.account seen) && fresh seen sinks

fresh_cons :
    (t : Sink) (seen sinks : List Sink)
    → fresh (t ∷ seen) sinks ≡ (not (is_listed t.account sinks) && fresh seen sinks)
unfolding fresh
fresh_cons t seen [] = refl
fresh_cons t seen (s ∷ sinks) = ground (arith, fresh_cons t seen sinks)

fresh_nil : (sinks : List Sink) → fresh [] sinks ≡ true
unfolding fresh
fresh_nil [] = refl
fresh_nil (s ∷ sinks) = fresh_nil sinks

-- The tests of the loop, together.
accepted : (ℕ → ℕ) → List Sink → List Sink → Bool
unfolding fresh short distinct
accepted account_len seen sinks = short account_len sinks && (distinct sinks && fresh seen sinks)

accepted_step :
    (account_len : ℕ → ℕ) (seen sinks : List Sink) (s : Sink)
    → accepted account_len seen (s ∷ sinks) ≡ (
        leb (account_len s.account) 64
        && (not (is_listed s.account seen) && accepted account_len (s ∷ seen) sinks))
unfolding accepted
accepted_step account_len seen sinks s = ground (arith, fresh_cons s seen sinks)

saturated : (a b c : ℕ) → sat_add_u32 (sat_add_u32 a b) c ≡ sat_add_u32 a (b + c)
saturated a b c = omega arith

sum_weights-eq-ok :
    (account_len : ℕ → ℕ) (seen : List Sink) (sum : ℕ) (sinks : List Sink) {v : ℕ}
    → sum < u32_bound
    → sum_weights account_len seen sum sinks ≡ ok v
    → (accepted account_len seen sinks ≡ true) × (v ≡ sat_add_u32 sum (weights sinks))
unfolding sum_weights weights accepted
sum_weights-eq-ok account_len seen sum [] h k = (refl, ground arith)
sum_weights-eq-ok account_len seen sum (s ∷ sinks) {v} h k = ground (
  arith,
  accepted_step account_len seen sinks s,
  sum_weights-eq-ok account_len (s ∷ seen) (sat_add_u32 sum s.weight_bps) sinks {v = v},
)

sum_weights-accepts :
    (account_len : ℕ → ℕ) (seen : List Sink) (sum : ℕ) (sinks : List Sink)
    → sum < u32_bound
    → accepted account_len seen sinks ≡ true
    → sum_weights account_len seen sum sinks ≡ ok (sat_add_u32 sum (weights sinks))
unfolding sum_weights weights
sum_weights-accepts account_len seen sum [] h k = ground arith
sum_weights-accepts account_len seen sum (s ∷ sinks) h k = ground (
  arith,
  accepted_step account_len seen sinks s,
  sum_weights-accepts account_len (s ∷ seen) (sat_add_u32 sum s.weight_bps) sinks,
)

-- validate_sinks accepts exactly the sets of 1 to 16 sinks with distinct accounts of at most 64
-- bytes whose weights add up to 10000, although its sum saturates.
pub validate_sinks_iff :
    (account_len : ℕ → ℕ) (sinks : List Sink)
    → (validate_sinks account_len sinks ≡ ok tt) ↔ IsSinkSet account_len sinks
unfolding validate_sinks accepted
validate_sinks_iff account_len sinks = (
  λ h. elim (Call-cases (sum_weights account_len [] 0 sinks)) [
    | inr f ↦ absurd (ground arith)
    | inl (v, p) ↦
        let (a, b) = sum_weights-eq-ok account_len [] 0 sinks (omega arith) p in ground arith
  ],
  λ w. ground (arith, fresh_nil sinks, sum_weights-accepts account_len [] 0 sinks),
)
