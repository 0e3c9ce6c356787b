-- ===== src/Streams/Examples/Core.antt =====
-- A run of the treasury: a stream of a thousand units, half of it withdrawn, or extended.
use vortex_contracts.Base.{ℕ, ◌≡◌, refl, true, false, none, some, [], ok}
use vortex_contracts.Base.Dict.{get, put}
use vortex_contracts.Base.Int.{pos}
use vortex_contracts.Base.Token.{Host}
use vortex_contracts.Streams.Model.{
  Stream, Treasury, Call, initialize, require_governor, propose_governor_transfer,
  accept_governor_transfer, pause, unpause, transfer, vested_amount, Schedule, create_checks,
  new_stream, create_stream, load_stream, withdraw_checks, withdraw, load_live, cancel_checks,
  cancel, top_up_checks, top_up, extend_checks, extend, balance_of, paginate,
  list_streams_by_sender, list_streams_by_recipient,
}

abbrev pub host_at : ℕ → Host
host_at now = record { now = now; this = 99; auth = λ _. true; token_ok = λ _. true }

abbrev pub empty : Treasury
empty = record {
  governor = none;
  pending_governor = none;
  paused = false;
  next_id = 0;
  stream_count = 0;
  streams = [];
  sender_streams = λ _. [];
  recipient_streams = λ _. [];
  calls = [];
}

abbrev pub after : Call Treasury → Treasury
after (ok s) = s
after _ = empty

abbrev pub after₂ : Call (ℕ × Treasury) → Treasury
after₂ (ok (n, s)) = s
after₂ _ = empty

-- A thousand units over a hundred seconds, with a cliff after ten.
abbrev pub schedule : Schedule
schedule = record { total = pos 1_000; start = 100; cliff = 110; end = 200 }

abbrev pub stream : Stream
stream = record {
  sender = 30;
  recipient = 40;
  token = 60;
  total = 1_000;
  start = 100;
  cliff = 110;
  end = 200;
  withdrawn = 0;
  cancelled = false;
}

abbrev pub governed : Treasury
governed = after (initialize (host_at 90) 10 empty)

pub governed_runs : initialize (host_at 90) 10 empty ≡ ok governed
unfolding initialize require_governor propose_governor_transfer accept_governor_transfer pause
    unpause transfer vested_amount create_checks new_stream create_stream load_stream
    withdraw_checks withdraw load_live cancel_checks cancel top_up_checks top_up extend_checks
    extend balance_of paginate list_streams_by_sender list_streams_by_recipient get put
governed_runs = refl

abbrev pub created_ : Treasury
created_ = after₂ (create_stream (host_at 90) 30 40 60 schedule governed)

pub created__runs : create_stream (host_at 90) 30 40 60 schedule governed ≡ ok (0, created_)
unfolding initialize require_governor propose_governor_transfer accept_governor_transfer pause
    unpause transfer vested_amount create_checks new_stream create_stream load_stream
    withdraw_checks withdraw load_live cancel_checks cancel top_up_checks top_up extend_checks
    extend balance_of paginate list_streams_by_sender list_streams_by_recipient get put
created__runs = refl

abbrev pub drawn : Treasury
drawn = after₂ (withdraw (host_at 150) 0 created_)

pub drawn_runs : withdraw (host_at 150) 0 created_ ≡ ok (500, drawn)
unfolding initialize require_governor propose_governor_transfer accept_governor_transfer pause
    unpause transfer vested_amount create_checks new_stream create_stream load_stream
    withdraw_checks withdraw load_live cancel_checks cancel top_up_checks top_up extend_checks
    extend balance_of paginate list_streams_by_sender list_streams_by_recipient get put
drawn_runs = refl

abbrev pub extended_ : Treasury
extended_ = after (extend (host_at 150) 0 300 created_)

pub extended__runs : extend (host_at 150) 0 300 created_ ≡ ok extended_
unfolding initialize require_governor propose_governor_transfer accept_governor_transfer pause
    unpause transfer vested_amount create_checks new_stream create_stream load_stream
    withdraw_checks withdraw load_live cancel_checks cancel top_up_checks top_up extend_checks
    extend balance_of paginate list_streams_by_sender list_streams_by_recipient get put
extended__runs = refl

pub stream_found : get created_.streams 0 ≡ some stream
unfolding initialize require_governor propose_governor_transfer accept_governor_transfer pause
    unpause transfer vested_amount create_checks new_stream create_stream load_stream
    withdraw_checks withdraw load_live cancel_checks cancel top_up_checks top_up extend_checks
    extend balance_of paginate list_streams_by_sender list_streams_by_recipient get put
stream_found = refl

pub extended_found : get extended_.streams 0 ≡ some (record stream { end = 300 })
unfolding initialize require_governor propose_governor_transfer accept_governor_transfer pause
    unpause transfer vested_amount create_checks new_stream create_stream load_stream
    withdraw_checks withdraw load_live cancel_checks cancel top_up_checks top_up extend_checks
    extend balance_of paginate list_streams_by_sender list_streams_by_recipient get put
extended_found = refl

pub vested_at_150 : vested_amount stream 150 ≡ ok 500
unfolding initialize require_governor propose_governor_transfer accept_governor_transfer pause
    unpause transfer vested_amount create_checks new_stream create_stream load_stream
    withdraw_checks withdraw load_live cancel_checks cancel top_up_checks top_up extend_checks
    extend balance_of paginate list_streams_by_sender list_streams_by_recipient get put
vested_at_150 = refl

pub vested_at_160 : vested_amount stream 160 ≡ ok 600
unfolding initialize require_governor propose_governor_transfer accept_governor_transfer pause
    unpause transfer vested_amount create_checks new_stream create_stream load_stream
    withdraw_checks withdraw load_live cancel_checks cancel top_up_checks top_up extend_checks
    extend balance_of paginate list_streams_by_sender list_streams_by_recipient get put
vested_at_160 = refl

pub extended_at_150 : vested_amount (record stream { end = 300 }) 150 ≡ ok 250
unfolding initialize require_governor propose_governor_transfer accept_governor_transfer pause
    unpause transfer vested_amount create_checks new_stream create_stream load_stream
    withdraw_checks withdraw load_live cancel_checks cancel top_up_checks top_up extend_checks
    extend balance_of paginate list_streams_by_sender list_streams_by_recipient get put
extended_at_150 = refl
