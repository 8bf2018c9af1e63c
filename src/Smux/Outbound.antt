-- ===== src/Smux/Outbound.antt =====
-- `SmuxStream`, from the socket to the peer: the reads, the queue of what they read, and the loop
-- that sends it in frames as far as the window of the peer allows.
use shimakaze.Common.{
  ℕ, zero, suc, ◌+◌, ◌-◌, ◌^◌, min, not, ◌||◌, leb, ◌==◌, if◌then◌else◌, List, [], ◌∷◌, ◌++◌,
  Option, none, some, length, take, drop,
}
use shimakaze.Common.Int.{at_least_one, is}
use shimakaze.Config.Base.{BaseConfig}
use shimakaze.Qpp.Stream as Qpp
use shimakaze.Smux.State.{
  Pending, Stream, send_frame, async_read, psh, emit, u32, inflight, is_empty, has_pending_outbound,
}

unfoldable pub start_tcp_read : Stream → Stream
start_tcp_read s =
    if s.closed || not s.tcp_ready || s.local_fin_sent || has_pending_outbound s
    then s
    else emit async_read s

unfoldable pub queue_outbound : List ℕ → Stream → Stream
queue_outbound payload s = if is_empty payload then s else record s {
  pending_outbound = s.pending_outbound ++ (record { bytes = payload; offset = 0 } ∷ []);
}

-- The only caller asks whether the difference is positive and for its value then, so a negative one
-- is 0 here.
unfoldable pub available_peer_window : Stream → ℕ
available_peer_window s = if leb (2 ^ 31) (inflight s) then 0 else s.peer_window - inflight s

-- The part of the loop of `try_flush_outbound` behind the guards: one frame of `chunk_size` bytes
-- from the front buffer.
unfoldable pub send_chunk : ℕ → Pending → List Pending → Stream → Stream
send_chunk chunk_size front rest s =
    let chunk = take chunk_size (drop front.offset front.bytes) in
    let (payload, qpp) = if Qpp.enabled s.qpp then Qpp.encrypt chunk s.qpp else (chunk, s.qpp) in
    emit (send_frame psh s.id payload) (record s {
      qpp = qpp;
      pending_outbound = record front { offset = front.offset + chunk_size } ∷ rest;
      num_written = u32 (s.num_written + chunk_size);
    })

-- The chunk that a round may send of `remaining` bytes; 0 where the window of a version 2 peer is shut.
unfoldable pub chunk_size : BaseConfig → Stream → ℕ → ℕ
chunk_size session s remaining =
    let max_frame = at_least_one session.framesize in
    let allowed =
      if is session.smuxver 2 then min remaining (available_peer_window s) else remaining in
    min allowed max_frame

-- The loop, with fuel for its rounds.
unfoldable pub flush_loop : ℕ → BaseConfig → List Pending → Stream → Stream
flush_loop zero session pending s = s
flush_loop (suc fuel) session [] s = s
flush_loop (suc fuel) session (front ∷ rest) s =
    let remaining = length front.bytes - front.offset in
    let size = chunk_size session s remaining in
    let popped = flush_loop fuel session rest (record s { pending_outbound = rest }) in
    let s' = send_chunk size front rest s in
    let sent = flush_loop fuel session (record front { offset = front.offset + size } ∷ rest) s' in
    if remaining == 0 then popped else if size == 0 then s else sent

-- A round sends a byte at least or drops a buffer.
abbrev pub flush_fuel : List Pending → ℕ
flush_fuel [] = 1
flush_fuel (p ∷ ps) = suc (length p.bytes - p.offset) + flush_fuel ps

abbrev pub flush_by : Option BaseConfig → Stream → Stream
flush_by none s = s
flush_by (some session) s =
    if s.closed then s else flush_loop (flush_fuel s.pending_outbound) session s.pending_outbound s

unfoldable pub try_flush_outbound : Stream → Stream
try_flush_outbound s = flush_by s.session s
