-- ===== src/Streams/Examples/Claims.antt =====
-- The theorems of the streams, each at a concrete run.
use vortex_contracts.Base.{ℕ, ◌+◌, ◌≡◌, refl, arith, ok}
use vortex_contracts.Base.Dict.{sum_by}
use vortex_contracts.Base.Token.{paid_out, paid_in}
use vortex_contracts.Streams.Books.{
  total_of, withdrawn_of, initialized, created, withdrawn, Reach, here, next, IsInitial,
  Reach-books,
}
use vortex_contracts.Streams.Examples.Core.{
  host_at, empty, schedule, stream, governed_runs, created__runs, drawn, drawn_runs,
}
use vortex_contracts.Streams.Model.{vested_amount}
use vortex_contracts.Streams.Vesting.{curve, vested_amount-curve}

abbrev init : IsInitial empty
init = record { no_governor = refl; no_streams = refl; no_calls = refl }

not_own : ◌≡◌ {A = ℕ} 30 99 → ⊥
not_own p = omega (arith, p)

abbrev reached : Reach 99 empty drawn
reached =
    next
      (next (next here (initialized (host_at 90) 10 governed_runs))
        (created (host_at 90) 30 40 60 schedule 0 refl not_own created__runs))
      (withdrawn (host_at 150) 0 500 refl drawn_runs)

Reach-books_example :
    paid_in 99 60 drawn.calls + sum_by (withdrawn_of 60) drawn.streams
    ≡ paid_out 99 60 drawn.calls + sum_by (total_of 60) drawn.streams
Reach-books_example = Reach-books 99 60 init reached

vested_amount-curve_example : vested_amount stream 150 ≡ ok (curve stream 150)
vested_amount-curve_example =
    vested_amount-curve stream 150
      (record { lasts = omega arith; cliff_after = omega arith; cliff_before = omega arith })
      (omega arith)
