-- ===== src/Streams/Ids.antt =====
-- The identifiers of the stored streams are below the next one.
use vortex_contracts.Base.{
  ℕ, ◌+◌, ◌≡◌, ◌<◌, refl, Bool, true, false, Option, none, some, [], ◌∷◌, arith, ◌&&◌, ltb,
}
use vortex_contracts.Base.Dict.{Dict, get, put}
use vortex_contracts.Streams.Model.{Stream}

-- Every stored identifier is below a number.
unfoldable pub ids_below : Dict Stream → ℕ → Bool
ids_below [] n = true
ids_below ((j, x) ∷ d) n = ltb j n && ids_below d n

pub below_none : (d : Dict Stream) (n : ℕ) → ids_below d n ≡ true → get d n ≡ none
unfolding ids_below get
below_none [] n h = refl
below_none ((j, x) ∷ d) n h = ground (arith, below_none d n)

pub below_next : (d : Dict Stream) (n : ℕ) → ids_below d n ≡ true → ids_below d (n + 1) ≡ true
unfolding ids_below
below_next [] n h = refl
below_next ((j, x) ∷ d) n h = ground (arith, below_next d n)

pub below_put :
    (d : Dict Stream) (n k : ℕ) (x : Stream)
    → ids_below d n ≡ true
    → k < n
    → ids_below (put d k x) n ≡ true
unfolding ids_below put
below_put [] n k x h l = ground arith
below_put ((j, y) ∷ d) n k x h l = ground (arith, below_put d n k x)

pub below_get :
    (d : Dict Stream) (n k : ℕ) (x : Stream) → ids_below d n ≡ true → get d k ≡ some x → k < n
unfolding ids_below get
below_get [] n k x h g = absurd (ground arith)
below_get ((j, y) ∷ d) n k x h g = ground (arith, below_get d n k x)

abbrev pub has_some : Option ℕ → Bool
has_some none = false
has_some (some n) = true

abbrev pub is_empty : Dict Stream → Bool
is_empty [] = true
is_empty (x ∷ d) = false

pub empty_below : (d : Dict Stream) (n : ℕ) → is_empty d ≡ true → ids_below d n ≡ true
unfolding ids_below
empty_below [] n h = refl
empty_below (x ∷ d) n h = absurd (ground arith)

pub not_empty : (d : Dict Stream) (k : ℕ) {x : Stream} → get d k ≡ some x → is_empty d ≡ false
unfolding get
not_empty [] k g = absurd (ground arith)
not_empty (y ∷ d) k g = refl
