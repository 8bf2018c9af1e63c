-- ===== src/Examples/Streams.antt =====
-- The theorems on the multiplexer at concrete inputs: a stream of version 2 with bytes to send.
use shimakaze.Common.{◌+◌, ◌≤◌, true, false, List, [], ◌∷◌, ◌++◌, none, length, ◌≡◌, refl, arith}
use shimakaze.Qpp.Stream.{QppStream, fresh_rand}
use shimakaze.Examples.Data.{sample, toy_primitives, toy_snappy}
use shimakaze.Smux.State.{Stream, psh, make_stream}
use shimakaze.Smux.Outbound.{try_flush_outbound, available_peer_window}
use shimakaze.Smux.Flow.{Flushed}
use shimakaze.Smux.Flush.{
  Idle, try_flush_outbound-Flushed, try_flush_outbound-window, try_flush_outbound-Idle,
}
use shimakaze.Smux.Stream.{mark_payload_consumed, done, ended}
use shimakaze.Smux.Events.{Event, run, started_client, read, fin_arrived, timer, closed_by_session}
use shimakaze.Smux.Once.{total, fin_of, frame_of, end_of}
use shimakaze.Smux.Life.{run-once, run-closed}
use shimakaze.Smux.Frame.{frame, make_frame, read_frame, command_byte}
use shimakaze.Smux.Parse.{read_frame-make_frame}
use shimakaze.Smux.Fragments.{consume_stream_bytes-append, consume_stream_bytes-bounded}
use shimakaze.Smux.Reports.{IsReported, last_report, mark_payload_consumed-IsReported}
use shimakaze.Smux.Session.{Session, consume_stream_bytes, Core, make_session}
use shimakaze.Smux.Ids.{IsChain, open_all, open_all-IsChain}

abbrev no_pad : QppStream
no_pad = record { pad = none; write_rand = fresh_rand; read_rand = fresh_rand }

-- Five bytes to send, with room for four.
abbrev waiting : Stream
waiting = record (make_stream 3 sample no_pad) {
  tcp_ready = true;
  peer_window = 4;
  pending_outbound = record { bytes = 1 ∷ 2 ∷ 3 ∷ 4 ∷ 5 ∷ []; offset = 0 } ∷ [];
}

try_flush_outbound-Flushed_example : Flushed sample waiting (try_flush_outbound waiting)
unfolding make_stream
try_flush_outbound-Flushed_example = try_flush_outbound-Flushed waiting refl

try_flush_outbound-window_example :
    (f : Flushed sample waiting (try_flush_outbound waiting)) × (length f.sent
        + available_peer_window (try_flush_outbound waiting)
      ≤ available_peer_window waiting)
unfolding make_stream
try_flush_outbound-window_example =
    try_flush_outbound-window waiting refl refl (omega arith) (omega arith)

try_flush_outbound-Idle_example : Idle sample (try_flush_outbound waiting)
unfolding make_stream
try_flush_outbound-Idle_example = try_flush_outbound-Idle waiting refl refl

abbrev life : List Event
life =
    started_client false
    ∷ read done (1 ∷ 2 ∷ [])
    ∷ fin_arrived
    ∷ read ended []
    ∷ timer false
    ∷ closed_by_session
    ∷ []

run-once_example :
    (total fin_of (run life (make_stream 3 sample no_pad)).effects ≤ 1)
    × (total end_of (run life (make_stream 3 sample no_pad)).effects ≤ 1)
run-once_example = run-once life 3 sample no_pad

abbrev ended_stream : Stream
ended_stream = record (make_stream 3 sample no_pad) { closed = true }

run-closed_example :
    ((run life ended_stream).closed ≡ true)
    × (total frame_of (run life ended_stream).effects ≡ total frame_of ended_stream.effects)
run-closed_example = run-closed life ended_stream refl

read_frame-make_frame_example :
    read_frame sample (make_frame sample psh 3 (1 ∷ 2 ∷ []) ++ 2 ∷ [])
    ≡ frame (command_byte psh) 3 (1 ∷ 2 ∷ []) (2 ∷ [])
read_frame-make_frame_example =
    read_frame-make_frame sample psh 3 (1 ∷ 2 ∷ []) (2 ∷ []) (omega arith) (omega arith)

abbrev client_core : Core
client_core = (make_session sample true none 0).core

open_all-IsChain_example :
    IsChain client_core.next_stream_id (open_all 3 toy_snappy toy_primitives client_core)
unfolding make_session
open_all-IsChain_example = open_all-IsChain 3 toy_snappy toy_primitives client_core (omega arith)

abbrev client : Session
client = make_session sample true none 0

-- A frame that keeps the connection alive, cut in the middle of its header.
consume_stream_bytes-append_example :
    consume_stream_bytes toy_snappy toy_primitives
      ((2 ∷ 3 ∷ 0 ∷ 0 ∷ []) ++ (0 ∷ 0 ∷ 0 ∷ 0 ∷ []))
      client
    ≡ consume_stream_bytes toy_snappy toy_primitives
        (0 ∷ 0 ∷ 0 ∷ 0 ∷ [])
        (consume_stream_bytes toy_snappy toy_primitives (2 ∷ 3 ∷ 0 ∷ 0 ∷ []) client)
unfolding make_session
consume_stream_bytes-append_example =
    consume_stream_bytes-append toy_snappy toy_primitives (2 ∷ 3 ∷ 0 ∷ 0 ∷ []) (0 ∷ 0 ∷ 0 ∷ 0 ∷ [])
      client (omega arith)

consume_stream_bytes-bounded_example :
    length (consume_stream_bytes toy_snappy toy_primitives (2 ∷ 3 ∷ 0 ∷ []) client).receive_buffer
    ≤ 4194304
unfolding make_session
consume_stream_bytes-bounded_example =
    consume_stream_bytes-bounded toy_snappy toy_primitives (2 ∷ 3 ∷ 0 ∷ []) client (omega arith)

mark_payload_consumed-IsReported_example :
    IsReported sample (mark_payload_consumed 100 (make_stream 3 sample no_pad))
unfolding make_stream last_report
mark_payload_consumed-IsReported_example =
    mark_payload_consumed-IsReported sample (make_stream 3 sample no_pad) 100 refl
      (record { total = omega arith; pending = omega arith })
