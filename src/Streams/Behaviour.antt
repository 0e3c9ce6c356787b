-- ===== src/Streams/Behaviour.antt =====
-- What a withdrawal, a cancellation and an extension do to what a stream owes; the pages.
use vortex_contracts.Base.{
  ℕ, zero, suc, ◌+◌, ◌-◌, ◌*◌, ◌/◌, min, ◌≡◌, ◌≤◌, ◌<◌, refl, sym, ap, ◌∙◌, Option-cases,
  Bool-cases, true, some, List, [], ◌∷◌, length, get_elem?, arith, ok, inl, inr, leb, ◌==◌, ◌||◌,
}
use vortex_contracts.Base.Int.{pos, ◌-ℤ◌}
use vortex_contracts.Base.Dict.{get, put, get-put}
use vortex_contracts.Base.Division.{div_antimono, mul_div_le}
use vortex_contracts.Base.Lists.{take, drop, take_all, length-drop, drop_all, take_nil}
use vortex_contracts.Base.Token.{Host}
use vortex_contracts.Streams.Model.{
  Stream, Treasury, withdraw, balance_of, load_stream, vested_amount, extend, paginate, page_from,
}
use vortex_contracts.Streams.Success.{withdraw-eq-ok, extend-eq-ok}

written : (s : Treasury) (id : ℕ) (x : Stream) → get (put s.streams id x) id ≡ some x
written s id x = ground (arith, get-put s.streams id id x)

some_inj : {x y : Stream} → some x ≡ some y → x ≡ y
some_inj p = ground arith

-- The balance of a stream that is stored.
balance_found :
    (e : Host) (id : ℕ) (s : Treasury) (x : Stream) (v : ℕ)
    → get s.streams id ≡ some x
    → vested_amount x e.now ≡ ok v
    → balance_of e id s ≡ ok (pos v -ℤ pos x.withdrawn)
unfolding balance_of load_stream
balance_found e id s x v g h = ground arith

vested_keeps :
    (x : Stream) (now n : ℕ) → vested_amount (record x { withdrawn = n }) now ≡ vested_amount x now
unfolding vested_amount
vested_keeps x now n = refl

sub_self : (v : ℕ) → pos v -ℤ pos v ≡ pos 0
unfolding ◌-ℤ◌
sub_self v = ground arith

-- A successful withdrawal pays exactly the balance of the stream at that time, which is positive,
-- and leaves a balance of 0.
pub withdraw-balance :
    (e : Host) (id : ℕ) (s s' : Treasury) {n : ℕ}
    → withdraw e id s ≡ ok (n, s')
    → (balance_of e id s ≡ ok (pos n)) × (0 < n) × (balance_of e id s' ≡ ok (pos 0))
unfolding ◌-ℤ◌
withdraw-balance e id s s' h =
    let (x, v, g, k, l, m, w) = withdraw-eq-ok e s id h in
    let x' = record x { withdrawn = v } in
    (
      ground (arith, balance_found e id s x v g k),
      ground arith,
      balance_found e id s' x' v (ap (λ (u : Treasury). get u.streams id) w ∙ written s id x')
            (vested_keeps x e.now v ∙ k)
          ∙ ap ok (sub_self v),
    )

extended_le :
    (x : Stream) (new_end now : ℕ) {v w : ℕ}
    → x.end ≤ new_end
    → vested_amount x now ≡ ok v
    → vested_amount (record x { end = new_end }) now ≡ ok w
    → w ≤ v
unfolding vested_amount
extended_le x new_end now p h k =
    ground (arith, mul_div_le x.total (now - x.start) (new_end - x.start), longer)
  where
    longer :
        0 < x.end - x.start
        → (x.total * (now - x.start)) / (new_end - x.start)
          ≤ (x.total * (now - x.start)) / (x.end - x.start)
    longer q =
        div_antimono (x.total * (now - x.start)) (x.end - x.start) (new_end - x.start) q
          (omega (arith, p))

-- After a successful extension, the vested amount of the stream at any time at which both are
-- defined is at most what it was before the extension.
pub extend-lowers :
    (e : Host) (id new_end now : ℕ) (s s' : Treasury) {x x' : Stream} {v w : ℕ}
    → extend e id new_end s ≡ ok s'
    → get s.streams id ≡ some x
    → get s'.streams id ≡ some x'
    → vested_amount x now ≡ ok v
    → vested_amount x' now ≡ ok w
    → w ≤ v
extend-lowers e id new_end now s s' h g g' k k' =
    let (y, f, p, q) = extend-eq-ok e s id new_end h in
    let found = some_inj (sym g ∙ f) in
    let found' = some_inj (
      sym g'
      ∙ ap (λ (u : Treasury). get u.streams id) q
      ∙ written s id (record y { end = new_end })) in
    extended_le y new_end now p (sym (ap (λ (z : Stream). vested_amount z now) found) ∙ k)
      (sym (ap (λ (z : Stream). vested_amount z now) found') ∙ k')

page_from_tail : (x : ℕ) (xs : List ℕ) (i n : ℕ) → page_from (x ∷ xs) (suc i) n ≡ page_from xs i n
page_from_tail x xs i zero = refl
page_from_tail x xs i (suc n) = elim (Option-cases (get_elem? xs i)) [
  | inl p ↦ ground (arith, p)
  | inr (y, p) ↦ ground (arith, p, page_from_tail x xs (suc i) n)
]

page_from-take : (ids : List ℕ) (i n : ℕ) → page_from ids i n ≡ take n (drop i ids)
page_from-take ids i zero = refl
page_from-take [] zero (suc n) = refl
page_from-take (x ∷ xs) zero (suc n) =
    ap (λ (l : List ℕ). x ∷ l) (page_from_tail x xs 0 n ∙ page_from-take xs 0 n)
page_from-take [] (suc i) (suc n) = refl
page_from-take (x ∷ xs) (suc i) (suc n) =
    page_from_tail x xs i (suc n) ∙ page_from-take xs i (suc n)

-- Past the end, and within the list.
past_end :
    (ids : List ℕ) (start limit : ℕ)
    → (leb (length ids) start || limit == 0) ≡ true
    → take limit (drop start ids) ≡ []
past_end ids start zero h = refl
past_end ids start (suc n) h =
    ap (take (suc n)) (drop_all start ids (ground arith)) ∙ take_nil (suc n)

within :
    (ids : List ℕ) (start limit : ℕ)
    → start < length ids
    → length ids < 4294967296
    → take (min (min (start + limit) 4294967295) (length ids) - start) (drop start ids)
      ≡ take limit (drop start ids)
within ids start limit p h = elim (Bool-cases (leb (start + limit) (length ids))) [
  | inl q ↦ ap (λ (n : ℕ). take n (drop start ids)) (ground (arith, p, h))
  | inr q ↦
      take_all _ (drop start ids) (ground (arith, p, h, length-drop start ids))
      ∙ sym (take_all limit (drop start ids) (ground (arith, length-drop start ids)))
]

-- On a list whose length fits 32 bits, a page is the list without its first start elements, cut
-- to the limit, also past the end and for a limit of 0.
pub paginate-take :
    (ids : List ℕ) (start limit : ℕ)
    → length ids < 4294967296
    → paginate ids start limit ≡ take limit (drop start ids)
unfolding paginate
paginate-take ids start limit h = elim (Bool-cases (leb (length ids) start || limit == 0)) [
  | inl p ↦ ground (arith, p, past_end ids start limit p)
  | inr p ↦ ground (
    arith,
    p,
    page_from-take ids start (min (min (start + limit) 4294967295) (length ids) - start),
    within ids start limit (ground arith) h,
  )
]
