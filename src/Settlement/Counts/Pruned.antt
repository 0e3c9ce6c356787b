-- ===== src/Settlement/Counts/Pruned.antt =====
-- The deletion of an intent keeps the counts exact: an intent that has ended is neither open nor
-- held.
use vortex_contracts.Base.{ℕ, ◌≡◌, true, arith, ok}
use vortex_contracts.Base.Dict.{no_repeat, sum_by-remove}
use vortex_contracts.Settlement.State.{Env, Storage}
use vortex_contracts.Settlement.Prune.{close_intent}
use vortex_contracts.Settlement.Success.Pruned.{close_intent-eq-ok}
use vortex_contracts.Settlement.Counts.Moves.{IsCounted, open_weight, held_weight}

pub close_intent-IsCounted :
    (e : Env) (s : Storage)
    → no_repeat s.intents ≡ true
    → IsCounted s
    → (id : ℕ) {s' : Storage} → close_intent e id s ≡ ok s'
    → IsCounted s'
close_intent-IsCounted e s k c id h =
    let (i, x, p, w) = close_intent-eq-ok e s id h in
    record {
      open_exact = ground (
        arith,
        w,
        c.open_exact,
        p.intent_found,
        p.has_ended,
        sum_by-remove open_weight s.intents id k,
      );
      active_exact = λ a. ground (
        arith,
        w,
        c.active_exact a,
        p.intent_found,
        p.has_ended,
        sum_by-remove (held_weight a) s.intents id k,
      );
    }
