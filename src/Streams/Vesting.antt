-- ===== src/Streams/Vesting.antt =====
-- The vesting curve of a stream.
use vortex_contracts.Base.{ℕ, ◌-◌, ◌*◌, ◌/◌, ◌≡◌, ◌≤◌, ◌<◌, arith, ok, if◌then◌else◌, ltb, leb}
use vortex_contracts.Base.Checked.{i128_bound}
use vortex_contracts.Base.Division.{mul_div_le, div_mono, mul_le_mul}
use vortex_contracts.Streams.Model.{Stream, vested_amount}

-- What `create_stream` checks of a schedule.
pub record HasSchedule (x : Stream) : Type 0 where
  pub lasts : x.start < x.end
  pub cliff_after : x.start ≤ x.cliff
  pub cliff_before : x.cliff ≤ x.end

-- The vested amount, where it is defined, is at most the total of the stream.
pub vested_amount-le : (x : Stream) (now : ℕ) {v : ℕ} → vested_amount x now ≡ ok v → v ≤ x.total
unfolding vested_amount
vested_amount-le x now h = ground (arith, mul_div_le x.total (now - x.start) (x.end - x.start))

-- Where both are defined, the vested amount at a later time is at least the amount at an earlier
-- time.
pub vested_amount_mono :
    (x : Stream) (now later : ℕ) {v w : ℕ}
    → now ≤ later
    → vested_amount x now ≡ ok v
    → vested_amount x later ≡ ok w
    → v ≤ w
unfolding vested_amount
vested_amount_mono x now later p h k =
    ground (arith, mul_div_le x.total (now - x.start) (x.end - x.start), later_share x now later p)
  where
    later_share :
        (x : Stream) (now later : ℕ)
        → now ≤ later
        → (x.total * (now - x.start)) / (x.end - x.start)
          ≤ (x.total * (later - x.start)) / (x.end - x.start)
    later_share x now later p =
        div_mono (x.total * (now - x.start)) (x.total * (later - x.start)) (x.end - x.start)
          (mul_le_mul x.total (now - x.start) (later - x.start) (omega (arith, p)))

-- The curve that the documentation gives: nothing before the cliff, everything from the end on,
-- and in between the share of the time that has passed, rounded down.
pub curve : Stream → ℕ → ℕ
curve x now =
    if ltb now x.cliff
    then 0
    else (if leb x.end now then x.total else (x.total * (now - x.start)) / (x.end - x.start))

-- For a stream whose start is before its end with the cliff between them, and whose total times
-- its duration fits i128, the vested amount is defined, and is the documented curve: nothing
-- before the cliff, the total from the end on, and in between the total times the elapsed share
-- of the duration, rounded down.
pub vested_amount-curve :
    (x : Stream) (now : ℕ)
    → HasSchedule x
    → x.total * (x.end - x.start) < i128_bound
    → vested_amount x now ≡ ok (curve x now)
unfolding vested_amount curve
vested_amount-curve x now p b = ground (arith, p.lasts, p.cliff_after, no_overflow)
  where
    no_overflow : now < x.end → x.total * (now - x.start) ≤ x.total * (x.end - x.start)
    no_overflow q = mul_le_mul x.total (now - x.start) (x.end - x.start) (omega (arith, q))
