-- ===== src/Smux/Stream.antt =====
-- `SmuxStream`: the handlers. The completion handler of an asynchronous call is a function of its
-- own, which runs when the event loop delivers the completion.
use shimakaze.Common.{
  ℕ, ◌+◌, Bool, true, false, not, ◌&&◌, ◌||◌, leb, ◌==◌, if◌then◌else◌, List, [], ◌∷◌, ◌++◌, none,
  some,
}
use shimakaze.Common.Int.{at_least_zero, at_least_one, at_least_one_half, is}
use shimakaze.Qpp.Stream as Qpp
use shimakaze.Smux.State.{
  Stream, send_frame, send_update, async_resolve, async_connect, async_write, shutdown_send,
  start_close_timer, cancel_timers, close_socket, stream_closed, fin, u32, emit, when, is_empty,
  has_pending_outbound,
}
use shimakaze.Smux.Outbound.{start_tcp_read, queue_outbound, try_flush_outbound}

unfoldable pub send_local_fin : Stream → Stream
send_local_fin s = if s.local_fin_sent || s.closed then s else elim s.session [
  | none ↦ record s { local_fin_sent = true }
  | some session ↦ emit (send_frame fin s.id []) (record s { local_fin_sent = true })
]

unfoldable pub schedule_close_after_fin : Stream → Stream
schedule_close_after_fin s = emit (start_close_timer (at_least_zero s.config.closewait)) s

unfoldable pub maybe_finish : Stream → Stream
unfolding schedule_close_after_fin
maybe_finish s =
    if s.closed
    then s
    else if s.local_fin_sent
        && s.remote_fin_received
        && is_empty s.pending_tcp_writes
        && not s.tcp_write_active
        && is_empty s.pending_outbound
    then schedule_close_after_fin s
    else s

-- `session->stream_closed(id_)` is the last call, where there is a session.
unfoldable pub close : Stream → Stream
unfolding send_local_fin
close s =
    if s.closed
    then s
    else (let s' = send_local_fin s in
        let s'' = emit cancel_timers (record s' { closed = true }) in
        let s3 = when s''.socket_open (emit close_socket) (record s'' { socket_open = false }) in
        elim s.session [ none ↦ s3 | some session ↦ emit (stream_closed s'.id) s3 ])

unfoldable pub fail_and_close : Stream → Stream
unfolding close
fail_and_close s = close s

unfoldable pub shutdown_tcp_send_if_ready : Stream → Stream
shutdown_tcp_send_if_ready s =
    if not s.remote_fin_received
      || s.tcp_write_active
      || not (is_empty s.pending_tcp_writes)
      || not s.tcp_ready
    then s
    else when s.socket_open (emit shutdown_send) s

unfoldable pub flush_tcp_writes : Stream → Stream
flush_tcp_writes s =
    if s.closed || not s.tcp_ready || s.tcp_write_active then s else elim s.pending_tcp_writes [
      | [] ↦ s
      | front ∷ rest ↦ emit (async_write front) (record s { tcp_write_active = true })
    ]

unfoldable pub enqueue_tcp_write : List ℕ → Stream → Stream
unfolding flush_tcp_writes
enqueue_tcp_write payload s =
    flush_tcp_writes (record s { pending_tcp_writes = s.pending_tcp_writes ++ (payload ∷ []) })

unfoldable pub on_data : List ℕ → Stream → Stream
unfolding enqueue_tcp_write
on_data payload s =
    if s.closed || is_empty payload
    then s
    else (let (decoded, qpp) = Qpp.decrypt payload s.qpp in
        enqueue_tcp_write decoded (record s { qpp = qpp }))

unfoldable pub mark_payload_consumed : ℕ → Stream → Stream
mark_payload_consumed bytes s = elim s.session [
  | none ↦ s
  | some session ↦
      if not (is session.smuxver 2) || (bytes == 0)
      then s
      else (let num_read = u32 (s.num_read + u32 bytes) in
          let incr = u32 (s.incr + u32 bytes) in
          if leb (at_least_one_half session.streambuf) incr || (num_read == u32 bytes)
          then emit (send_update s.id num_read (at_least_one session.streambuf))
              (record s { num_read = num_read; incr = 0 })
          else record s { num_read = num_read; incr = incr })
]

unfoldable pub on_fin : Stream → Stream
unfolding shutdown_tcp_send_if_ready maybe_finish
on_fin s =
    if s.remote_fin_received
    then s
    else maybe_finish (shutdown_tcp_send_if_ready (record s { remote_fin_received = true }))

unfoldable pub on_update : ℕ → ℕ → Stream → Stream
unfolding start_tcp_read
on_update consumed window s =
    let s' = try_flush_outbound (record s { peer_consumed = consumed; peer_window = window }) in
    if has_pending_outbound s' then s' else start_tcp_read s'

-- The outcomes that the handlers tell apart. For a read `ended` is end of file, a reset or an
-- abort; for a write it is an abort, a reset or a broken pipe.
pub data Outcome : Type 0 where
  done : Outcome
  ended : Outcome
  broken : Outcome

-- The completion of `async_read_some` with the bytes it read.
unfoldable pub on_read : Outcome → List ℕ → Stream → Stream
unfolding queue_outbound start_tcp_read send_local_fin maybe_finish fail_and_close
on_read done bytes s =
    let s' = try_flush_outbound (queue_outbound bytes s) in
    if has_pending_outbound s' then s' else start_tcp_read s'
on_read ended bytes s = maybe_finish (send_local_fin s)
on_read broken bytes s = fail_and_close s

abbrev pub tail_of {ℓ} : {A : Type ℓ} → List A → List A
tail_of [] = []
tail_of (x ∷ xs) = xs

-- The completion of `async_write` with the number of bytes it wrote.
unfoldable pub on_written : Outcome → ℕ → Stream → Stream
unfolding send_local_fin maybe_finish fail_and_close mark_payload_consumed flush_tcp_writes
    shutdown_tcp_send_if_ready
on_written done bytes s =
    let s' = record s {
      tcp_write_active = false;
      pending_tcp_writes = tail_of s.pending_tcp_writes;
    } in
    maybe_finish (shutdown_tcp_send_if_ready (flush_tcp_writes (mark_payload_consumed bytes s')))
on_written ended bytes s = maybe_finish (send_local_fin (record s { tcp_write_active = false }))
on_written broken bytes s = fail_and_close (record s { tcp_write_active = false })

-- The completion of the close timer.
unfoldable pub on_close_timer : Bool → Stream → Stream
unfolding close
on_close_timer error s = if error then s else close s

-- Where `remote_endpoint()` throws, as it does of a TCP socket whose peer is `gone`, the log call does, and the rest
-- is not done. A quiet stream does not log, and a Unix socket is not asked.
unfoldable pub start_client : Bool → Stream → Stream
unfolding flush_tcp_writes start_tcp_read
start_client gone s =
    let s' = record s { socket_open = true; tcp_ready = true } in
    if gone && not s.config.quiet then s' else start_tcp_read (flush_tcp_writes s')

-- `start_server` asks for the resolution of the target; `start_server_unix` connects at once.
unfoldable pub start_server : Stream → Stream
start_server s = emit async_resolve (record s { server_connecting = true })

unfoldable pub start_server_unix : Stream → Stream
start_server_unix s = emit async_connect (record s { server_connecting = true; socket_open = true })

unfoldable pub on_resolved : Bool → Stream → Stream
unfolding fail_and_close
on_resolved error s =
    if error then fail_and_close s else emit async_connect (record s { socket_open = true })

-- Here the same exception leaves the event loop: nothing more happens after it.
unfoldable pub on_connected : Bool → Bool → Stream → Stream
unfolding fail_and_close flush_tcp_writes start_tcp_read shutdown_tcp_send_if_ready
on_connected error gone s =
    let s' = record s { server_connecting = false } in
    let ready = record s' { tcp_ready = true } in
    if error
    then fail_and_close s'
    else if gone && not s.config.quiet
    then ready
    else shutdown_tcp_send_if_ready (start_tcp_read (flush_tcp_writes ready))
