-- ===== src/Settlement/Counts/Extended.antt =====
-- The extension of a deadline keeps the counts exact: it changes no state and no solver.
use vortex_contracts.Base.{ℕ, ◌≡◌, refl, sym, subst, ok}
use vortex_contracts.Settlement.State.{Env, Storage, save_intent}
use vortex_contracts.Settlement.Extend.{request_extension}
use vortex_contracts.Settlement.Success.Extended.{request_extension-eq-ok}
use vortex_contracts.Settlement.Counts.Moves.{IsCounted, Counted-keep}

pub request_extension-IsCounted :
    (e : Env) (s : Storage)
    → IsCounted s
    → (solver id : ℕ) {s' : Storage} → request_extension e solver id s ≡ ok s'
    → IsCounted s'
unfolding save_intent
request_extension-IsCounted e s c solver id h =
    let (i, u, d, p, w) = request_extension-eq-ok e s solver id h in
    subst IsCounted (sym w) (Counted-keep c id i _ p.intent_found refl (λ _. refl))
