-- ===== src/Base/Dict.antt =====
-- Contract storage under one kind of key. Addresses, tokens and identifiers are compared and
-- nothing more, so they are numbers. A sum over the entries moves by the one that is written.
use Prim.Native.Nat.{ℕ, ◌+◌, ◌≤◌}
use mathlib.Core.Path.{◌≡◌, refl}
use mathlib.Core.Option.{Option, none, some}
use mathlib.Core.Bool.{Bool, true, false, not, ◌&&◌}
use mathlib.Core.List.{List, [], ◌∷◌}
use native.Mathlib.Omega.{arith}
use vortex_contracts.Base.Tests.{◌==◌, if◌then◌else◌}

abbrev pub Dict : Type 0 → Type 0
Dict V = List (ℕ × V)

module _ {V : Type 0} where
  unfoldable pub get : Dict V → ℕ → Option V
  get [] k = none
  get ((j, v) ∷ d) k = if j == k then some v else get d k

  unfoldable pub put : Dict V → ℕ → V → Dict V
  put [] k v = (k, v) ∷ []
  put ((j, w) ∷ d) k v = if j == k then (k, v) ∷ d else (j, w) ∷ put d k v

  unfoldable pub remove : Dict V → ℕ → Dict V
  remove [] k = []
  remove ((j, w) ∷ d) k = let rest = remove d k in if j == k then rest else (j, w) ∷ rest

  pub get-put :
      (d : Dict V) (k j : ℕ) (v : V) → get (put d k v) j ≡ (if k == j then some v else get d j)
  unfolding get put
  get-put [] k j v = refl
  get-put ((i, w) ∷ d) k j v = ground (arith, get-put d k j v)

  -- The sum of a weight over the entries.
  unfoldable pub sum_by : (V → ℕ) → Dict V → ℕ
  sum_by f [] = 0
  sum_by f ((j, v) ∷ d) = f v + sum_by f d

  abbrev pub weight : (V → ℕ) → Option V → ℕ
  weight f none = 0
  weight f (some v) = f v

  pub sum_by-put :
      (f : V → ℕ) (d : Dict V) (k : ℕ) (v : V)
      → sum_by f (put d k v) + weight f (get d k) ≡ sum_by f d + f v
  unfolding sum_by get put
  sum_by-put f [] k v = omega arith
  sum_by-put f ((j, w) ∷ d) k v = ground (arith, sum_by-put f d k v)

  -- One entry weighs at most as much as all of them.
  pub sum_by-weight : (f : V → ℕ) (d : Dict V) (k : ℕ) → weight f (get d k) ≤ sum_by f d
  unfolding sum_by get
  sum_by-weight f [] k = omega arith
  sum_by-weight f ((j, w) ∷ d) k = ground (arith, sum_by-weight f d k)

  pub get-remove : (d : Dict V) (k j : ℕ) → get (remove d k) j ≡ (if k == j then none else get d j)
  unfolding get remove
  get-remove [] k j = ground arith
  get-remove ((i, w) ∷ d) k j = ground (arith, get-remove d k j)

  -- No key has two entries.
  abbrev pub has : Dict V → ℕ → Bool
  has d k = elim (get d k) [ none ↦ false | some _ ↦ true ]

  unfoldable pub no_repeat : Dict V → Bool
  no_repeat [] = true
  no_repeat ((j, v) ∷ d) = not (has d j) && no_repeat d

  pub no_repeat-put :
      (d : Dict V) (k : ℕ) (v : V) → no_repeat d ≡ true → no_repeat (put d k v) ≡ true
  unfolding no_repeat put
  no_repeat-put [] k v h = unfold get in refl
  no_repeat-put ((j, w) ∷ d) k v h = ground (arith, get-put d k j v, no_repeat-put d k v)

  pub no_repeat-remove : (d : Dict V) (k : ℕ) → no_repeat d ≡ true → no_repeat (remove d k) ≡ true
  unfolding no_repeat remove
  no_repeat-remove [] k h = refl
  no_repeat-remove ((j, w) ∷ d) k h = ground (arith, get-remove d k j, no_repeat-remove d k)

  sum_by-remove-none :
      (f : V → ℕ) (d : Dict V) (k : ℕ) → get d k ≡ none → sum_by f (remove d k) ≡ sum_by f d
  unfolding get remove sum_by
  sum_by-remove-none f [] k h = refl
  sum_by-remove-none f ((j, w) ∷ d) k h = ground (arith, sum_by-remove-none f d k)

  pub sum_by-remove :
      (f : V → ℕ) (d : Dict V) (k : ℕ)
      → no_repeat d ≡ true
      → sum_by f (remove d k) + weight f (get d k) ≡ sum_by f d
  unfolding get remove sum_by no_repeat
  sum_by-remove f [] k h = refl
  sum_by-remove f ((j, w) ∷ d) k h = ground (arith, sum_by-remove f d k, sum_by-remove-none f d k)
