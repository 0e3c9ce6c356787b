-- ===== src/Streams/Model.antt =====
-- treasury_streams/src/lib.rs: payment streams that vest linearly, with a governor. Time-to-live
-- and events are left out. A storage entry that is missing reads as its default.
use vortex_contracts.Base.{
  ℕ, zero, suc, ◌+◌, ◌-◌, ◌/◌, min, Bool, true, false, not, ◌||◌, Option, none, some, List, [], ◌∷◌,
  ◌++◌, ltb, leb, ◌==◌, if◌then◌else◌, length, get_elem?, Result, ok, err, ◌>>=◌, ◌>>◌, or_err,
  fail_if, host,
}
use vortex_contracts.Base.Checked.{add_u64, add_i128, sub_u64, checked_mul}
use vortex_contracts.Base.Int.{ℤ, pos, negsuc, ◌-ℤ◌}
use vortex_contracts.Base.Dict.{Dict, get, put}
use vortex_contracts.Base.Token.{Transfer, Host}

pub record Stream : Type 0 where
  pub sender : ℕ
  pub recipient : ℕ
  pub token : ℕ
  pub total : ℕ
  pub start : ℕ
  pub cliff : ℕ
  pub end : ℕ
  pub withdrawn : ℕ
  pub cancelled : Bool

pub data Error : Type 0 where
  not_initialized already_initialized unauthorized stream_not_found invalid_schedule : Error
  invalid_amount nothing_to_withdraw already_cancelled arithmetic_overflow : Error
  no_pending_governor paused_ not_paused : Error

pub record Treasury : Type 0 where
  pub governor : Option ℕ
  pub pending_governor : Option ℕ
  pub paused : Bool
  pub next_id : ℕ
  pub stream_count : ℕ
  pub streams : Dict Stream
  pub sender_streams : ℕ → List ℕ
  pub recipient_streams : ℕ → List ℕ
  -- The token calls made so far, the last one first.
  pub calls : List Transfer

abbrev pub Call : Type 0 → Type 0
Call A = Result Error A

unfoldable pub initialize : Host → ℕ → Treasury → Call Treasury
initialize e governor s = elim s.governor [
  | some _ ↦ err Error.already_initialized
  | none ↦ do
    host (e.auth governor)
    ok (record s { governor = some governor; next_id = 0; paused = false })
]

unfoldable pub require_governor : Host → Treasury → Call ℕ
require_governor e s = do
  governor ← or_err s.governor Error.not_initialized
  host (e.auth governor)
  ok governor

unfoldable pub propose_governor_transfer : Host → ℕ → Treasury → Call Treasury
unfolding require_governor
propose_governor_transfer e new_governor s = do
  _ ← require_governor e s
  ok (record s { pending_governor = some new_governor })

unfoldable pub accept_governor_transfer : Host → Treasury → Call Treasury
accept_governor_transfer e s = do
  pending ← or_err s.pending_governor Error.no_pending_governor
  host (e.auth pending)
  ok (record s { governor = some pending; pending_governor = none })

unfoldable pub pause : Host → Treasury → Call Treasury
unfolding require_governor
pause e s = do
  _ ← require_governor e s
  fail_if s.paused Error.paused_
  ok (record s { paused = true })

unfoldable pub unpause : Host → Treasury → Call Treasury
unfolding require_governor
unpause e s = do
  _ ← require_governor e s
  fail_if (not s.paused) Error.not_paused
  ok (record s { paused = false })

-- A token call that fails makes the whole call trap.
unfoldable pub transfer : Host → Transfer → Treasury → Call Treasury
transfer e t s = do host (e.token_ok t); ok (record s { calls = t ∷ s.calls })

-- The subtractions are of `u64`; the duration is positive on every stream that is stored.
unfoldable pub vested_amount : Stream → ℕ → Call ℕ
vested_amount x now =
    if ltb now x.cliff
    then ok 0
    else (if leb x.end now then ok x.total else (do
      duration ← sub_u64 x.end x.start
      elapsed ← sub_u64 now x.start
      n ← or_err (checked_mul x.total elapsed) Error.arithmetic_overflow
      fail_if (duration == 0) Error.arithmetic_overflow
      ok (n / duration)))

-- The arguments of `create_stream` after the sender, the recipient and the token.
pub record Schedule : Type 0 where
  pub total : ℤ
  pub start : ℕ
  pub cliff : ℕ
  pub end : ℕ

abbrev pub positive : ℤ → Call ℕ
positive (pos (suc n)) = ok (suc n)
positive (pos zero) = err Error.invalid_amount
positive (negsuc n) = err Error.invalid_amount

unfoldable pub create_checks : Host → Schedule → Treasury → Call ℕ
unfolding require_governor
create_checks e q s = do
  _ ← require_governor e s
  fail_if s.paused Error.paused_
  total ← positive q.total
  fail_if (leb q.end q.start || ltb q.cliff q.start || ltb q.end q.cliff) Error.invalid_schedule
  ok total

abbrev pub write : (ℕ → List ℕ) → ℕ → List ℕ → ℕ → List ℕ
write f k v j = if k == j then v else f j

unfoldable pub new_stream : ℕ → ℕ → ℕ → ℕ → Schedule → Stream
new_stream sender recipient token total q = record {
  sender = sender;
  recipient = recipient;
  token = token;
  total = total;
  start = q.start;
  cliff = q.cliff;
  end = q.end;
  withdrawn = 0;
  cancelled = false;
}

unfoldable pub create_stream : Host → ℕ → ℕ → ℕ → Schedule → Treasury → Call (ℕ × Treasury)
unfolding create_checks transfer new_stream
create_stream e sender recipient token q s = do
  total ← create_checks e q s
  s1 ← transfer e (record { token = token; from = sender; to = e.this; amount = total }) s
  next ← add_u64 s1.next_id 1
  count ← add_u64 s1.stream_count 1
  let id = s1.next_id
  ok (
    id,
    record s1 {
      streams = put s1.streams id (new_stream sender recipient token total q);
      next_id = next;
      stream_count = count;
      sender_streams = write s1.sender_streams sender (s1.sender_streams sender ++ id ∷ []);
      recipient_streams =
          write s1.recipient_streams recipient (s1.recipient_streams recipient ++ id ∷ []);
    },
  )

unfoldable pub load_stream : ℕ → Treasury → Call Stream
load_stream id s = or_err (get s.streams id) Error.stream_not_found

-- The stream and what has vested, when something can be claimed.
unfoldable pub withdraw_checks : Host → ℕ → Treasury → Call (Stream × ℕ)
unfolding load_stream
withdraw_checks e id s = do
  fail_if s.paused Error.paused_
  x ← load_stream id s
  host (e.auth x.recipient)
  vested ← vested_amount x e.now
  fail_if (leb vested x.withdrawn) Error.nothing_to_withdraw
  ok (x, vested)

unfoldable pub withdraw : Host → ℕ → Treasury → Call (ℕ × Treasury)
unfolding withdraw_checks transfer
withdraw e id s = do
  found ← withdraw_checks e id s
  let (x, vested) = found
  let claimable = vested - x.withdrawn
  s1 ←
      transfer e (record { token = x.token; from = e.this; to = x.recipient; amount = claimable })
        (record s { streams = put s.streams id (record x { withdrawn = vested }) })
  ok (claimable, s1)

-- The governor's guards of `cancel`, `top_up` and `extend`.
unfoldable pub load_live : Host → ℕ → Treasury → Call Stream
unfolding load_stream require_governor
load_live e id s = do
  _ ← require_governor e s
  x ← load_stream id s
  fail_if x.cancelled Error.already_cancelled
  ok x

unfoldable pub cancel_checks : Host → ℕ → Treasury → Call (Stream × ℕ)
unfolding load_live
cancel_checks e id s = do x ← load_live e id s; vested ← vested_amount x e.now; ok (x, vested)

-- What has not vested goes back; what has vested is at most the total.
unfoldable pub cancel : Host → ℕ → Treasury → Call Treasury
unfolding cancel_checks transfer
cancel e id s = do
  found ← cancel_checks e id s
  let (x, vested) = found
  let s1 : Treasury = record s {
    streams = put s.streams id (record x { cancelled = true; total = vested });
  }
  let refund : Transfer = record {
    token = x.token;
    from = e.this;
    to = x.sender;
    amount = x.total - vested;
  }
  if ltb vested x.total then transfer e refund s1 else ok s1

unfoldable pub top_up_checks : Host → ℕ → ℤ → Treasury → Call (Stream × ℕ)
unfolding load_live
top_up_checks e id additional s = do
  x ← load_live e id s
  amount ← positive additional
  ok (x, amount)

unfoldable pub top_up : Host → ℕ → ℤ → Treasury → Call Treasury
unfolding top_up_checks transfer
top_up e id additional s = do
  found ← top_up_checks e id additional s
  let (x, amount) = found
  s1 ← transfer e (record { token = x.token; from = x.sender; to = e.this; amount = amount }) s
  total ← add_i128 x.total amount
  ok (record s1 { streams = put s1.streams id (record x { total = total }) })

unfoldable pub extend_checks : Host → ℕ → ℕ → Treasury → Call Stream
unfolding load_live
extend_checks e id new_end s = do
  x ← load_live e id s
  fail_if (leb new_end x.start || ltb new_end x.end) Error.invalid_schedule
  ok x

unfoldable pub extend : Host → ℕ → ℕ → Treasury → Call Treasury
unfolding extend_checks
extend e id new_end s = do
  x ← extend_checks e id new_end s
  ok (record s { streams = put s.streams id (record x { end = new_end }) })

-- The balance is negative when less has vested than was withdrawn.
unfoldable pub balance_of : Host → ℕ → Treasury → Call ℤ
unfolding load_stream
balance_of e id s = do
  x ← load_stream id s
  vested ← vested_amount x e.now
  ok (pos vested -ℤ pos x.withdrawn)

-- The loop of `paginate`: `n` elements from position `i`, as far as there are any.
abbrev pub page_from : List ℕ → ℕ → ℕ → List ℕ
page_from ids i zero = []
page_from ids i (suc n) = elim (get_elem? ids i) [
  | none ↦ []
  | some x ↦ x ∷ page_from ids (suc i) n
]

-- `start` and `limit` are `u32`, and so is the length.
unfoldable pub paginate : List ℕ → ℕ → ℕ → List ℕ
paginate ids start limit =
    let stop = min (min (start + limit) 4294967295) (length ids) in
    if leb (length ids) start || limit == 0 then [] else page_from ids start (stop - start)

unfoldable pub list_streams_by_sender : Treasury → ℕ → ℕ → ℕ → List ℕ
unfolding paginate
list_streams_by_sender s sender start limit = paginate (s.sender_streams sender) start limit

unfoldable pub list_streams_by_recipient : Treasury → ℕ → ℕ → ℕ → List ℕ
unfolding paginate
list_streams_by_recipient s recipient start limit =
    paginate (s.recipient_streams recipient) start limit
