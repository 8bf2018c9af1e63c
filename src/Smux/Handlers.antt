-- ===== src/Smux/Handlers.antt =====
-- Every handler of a `SmuxStream` is a step.
use shimakaze.Common.{
  ◌&&◌, ℕ, ◌+◌, true, false, not, ◌||◌, if◌then◌else◌, List, [], ◌∷◌, ◌++◌, Option, none, some,
  refl, leb, ◌==◌,
}
use shimakaze.Common.Int.{at_least_one, at_least_one_half, is}
use shimakaze.Config.Base.{BaseConfig}
use shimakaze.Qpp.Stream.{QppStream}
use shimakaze.Qpp.Stream as Qpp
use shimakaze.Smux.State.{
  Stream, send_update, async_write, async_connect, async_resolve, shutdown_send, emit, is_empty,
  has_pending_outbound, u32,
}
use shimakaze.Smux.Outbound.{start_tcp_read, queue_outbound, try_flush_outbound}
use shimakaze.Smux.Stream.{
  send_local_fin, maybe_finish, shutdown_tcp_send_if_ready, flush_tcp_writes, enqueue_tcp_write,
  on_data, mark_payload_consumed, on_fin, on_update, Outcome, done, ended, broken, on_read,
  on_written, on_close_timer, start_client, start_server, start_server_unix, tail_of, on_resolved,
  on_connected,
}
use shimakaze.Smux.Events.{
  Event, handle, started_client, started_server, started_server_unix, resolved, connected,
  data_arrived, fin_arrived, update_arrived, read, written, timer, closed_by_session, session_gone,
}
use shimakaze.Smux.Once.{Step, stay, join, quiet, ask, if-Step}
use shimakaze.Smux.Ending.{
  start_tcp_read-Step, queue_outbound-Step, send_local_fin-Step, maybe_finish-Step,
  try_flush_outbound-Step, close-Step, fail_and_close-Step,
}

shutdown_tcp_send_if_ready-Step : (s : Stream) → Step s (shutdown_tcp_send_if_ready s)
unfolding shutdown_tcp_send_if_ready
shutdown_tcp_send_if_ready-Step s =
    if-Step
      (not s.remote_fin_received
        || s.tcp_write_active
        || not (is_empty s.pending_tcp_writes)
        || not s.tcp_ready)
      s s _ (λ h. stay s)
      (λ h. if-Step s.socket_open s _ s (λ a. ask shutdown_send s refl refl refl) (λ a. stay s))

flush_tcp_writes-Step : (s : Stream) → Step s (flush_tcp_writes s)
unfolding flush_tcp_writes
flush_tcp_writes-Step s =
    if-Step (s.closed || not s.tcp_ready || s.tcp_write_active) s s _ (λ h. stay s)
      (λ h. go s.pending_tcp_writes)
  where
    busy : Stream
    busy = record s { tcp_write_active = true }

    go :
        (writes : List (List ℕ))
        → Step s (elim writes [
          | [] ↦ s
          | front ∷ rest ↦ emit (async_write front) (record s { tcp_write_active = true })
        ])
    go [] = stay s
    go (front ∷ rest) =
        join s busy _ (quiet s busy refl refl refl) (ask (async_write front) busy refl refl refl)

enqueue_tcp_write-Step : (payload : List ℕ) (s : Stream) → Step s (enqueue_tcp_write payload s)
unfolding enqueue_tcp_write
enqueue_tcp_write-Step payload s =
    join s queued _ (quiet s queued refl refl refl) (flush_tcp_writes-Step queued)
  where
    queued : Stream
    queued = record s { pending_tcp_writes = s.pending_tcp_writes ++ (payload ∷ []) }

on_data-Step : (payload : List ℕ) (s : Stream) → Step s (on_data payload s)
unfolding on_data
on_data-Step payload s =
    if-Step (s.closed || is_empty payload) s s _ (λ h. stay s)
      (λ h.
        join s decoded _ (quiet s decoded refl refl refl)
          (enqueue_tcp_write-Step (Qpp.decrypt payload s.qpp).0 decoded))
  where
    decoded : Stream
    decoded = record s { qpp = (Qpp.decrypt payload s.qpp).1 }

mark_payload_consumed-Step : (bytes : ℕ) (s : Stream) → Step s (mark_payload_consumed bytes s)
unfolding mark_payload_consumed
mark_payload_consumed-Step bytes s = go s.session
  where
    num_read : ℕ
    num_read = u32 (s.num_read + u32 bytes)

    incr : ℕ
    incr = u32 (s.incr + u32 bytes)

    reset : Stream
    reset = record s { num_read = num_read; incr = 0 }

    go :
        (o : Option BaseConfig)
        → Step s (elim o [
          | none ↦ s
          | some session ↦
              if not (is session.smuxver 2) || (bytes == 0)
              then s
              else if leb (at_least_one_half session.streambuf) incr || (num_read == u32 bytes)
              then emit (send_update s.id num_read (at_least_one session.streambuf)) reset
              else record s { num_read = num_read; incr = incr }
        ])
    go none = stay s
    go (some session) =
        if-Step (not (is session.smuxver 2) || (bytes == 0)) s s _ (λ h. stay s)
          (λ h.
            if-Step (leb (at_least_one_half session.streambuf) incr || (num_read == u32 bytes)) s _
              _ (λ a. join s reset _ (quiet s reset refl refl refl) (ask _ reset refl refl refl))
              (λ a. quiet s _ refl refl refl))

on_fin-Step : (s : Stream) → Step s (on_fin s)
unfolding on_fin
on_fin-Step s =
    if-Step s.remote_fin_received s s _ (λ h. stay s)
      (λ h. join s got _ (quiet s got refl refl refl) (
        join got (shutdown_tcp_send_if_ready got) _ (shutdown_tcp_send_if_ready-Step got)
          (maybe_finish-Step (shutdown_tcp_send_if_ready got))))
  where
    got : Stream
    got = record s { remote_fin_received = true }

-- A flush and, if that emptied the queue, the next read.
flush_read-Step :
    (s : Stream)
    → let s' = try_flush_outbound s in
      Step s (if has_pending_outbound s' then s' else start_tcp_read s')
flush_read-Step s =
    join s s' _ (try_flush_outbound-Step s)
      (if-Step (has_pending_outbound s') s' s' _ (λ h. stay s') (λ h. start_tcp_read-Step s'))
  where
    s' : Stream
    s' = try_flush_outbound s

on_update-Step : (consumed window : ℕ) (s : Stream) → Step s (on_update consumed window s)
unfolding on_update
on_update-Step consumed window s =
    join s told _ (quiet s told refl refl refl) (flush_read-Step told)
  where
    told : Stream
    told = record s { peer_consumed = consumed; peer_window = window }

fin_finish-Step : (s : Stream) → Step s (maybe_finish (send_local_fin s))
fin_finish-Step s =
    join s (send_local_fin s) _ (send_local_fin-Step s) (maybe_finish-Step (send_local_fin s))

on_read-Step : (outcome : Outcome) (bytes : List ℕ) (s : Stream) → Step s (on_read outcome bytes s)
unfolding on_read
on_read-Step done bytes s =
    join s (queue_outbound bytes s) _ (queue_outbound-Step bytes s)
      (flush_read-Step (queue_outbound bytes s))
on_read-Step ended bytes s = fin_finish-Step s
on_read-Step broken bytes s = fail_and_close-Step s

on_written-Step : (outcome : Outcome) (bytes : ℕ) (s : Stream) → Step s (on_written outcome bytes s)
unfolding on_written
on_written-Step done bytes s = join s popped _ (quiet s popped refl refl refl) (
    join popped marked _ (mark_payload_consumed-Step bytes popped) (
      join marked flushed _ (flush_tcp_writes-Step marked) (
        join flushed (shutdown_tcp_send_if_ready flushed) _
          (shutdown_tcp_send_if_ready-Step flushed)
          (maybe_finish-Step (shutdown_tcp_send_if_ready flushed)))))
  where
    popped : Stream
    popped = record s {
      tcp_write_active = false;
      pending_tcp_writes = tail_of s.pending_tcp_writes;
    }

    marked : Stream
    marked = mark_payload_consumed bytes popped

    flushed : Stream
    flushed = flush_tcp_writes marked
on_written-Step ended bytes s =
    join s (record s { tcp_write_active = false }) _ (quiet s _ refl refl refl) (fin_finish-Step _)
on_written-Step broken bytes s =
    join s (record s { tcp_write_active = false }) _ (quiet s _ refl refl refl)
      (fail_and_close-Step _)

started-Step : (s : Stream) → Step s (start_tcp_read (flush_tcp_writes s))
started-Step s =
    join s (flush_tcp_writes s) _ (flush_tcp_writes-Step s)
      (start_tcp_read-Step (flush_tcp_writes s))

pub handle-Step : (e : Event) (s : Stream) → Step s (handle e s)
unfolding handle start_client start_server start_server_unix on_resolved on_connected on_close_timer
handle-Step (started_client gone) s =
    join s ready _ (quiet s ready refl refl refl)
      (if-Step (gone && not s.config.quiet) ready _ _ (λ h. stay ready) (λ h. started-Step ready))
  where
    ready : Stream
    ready = record s { socket_open = true; tcp_ready = true }
handle-Step started_server s =
    join s (record s { server_connecting = true }) _ (quiet s _ refl refl refl)
      (ask async_resolve _ refl refl refl)
handle-Step started_server_unix s =
    join s (record s { server_connecting = true; socket_open = true }) _ (quiet s _ refl refl refl)
      (ask async_connect _ refl refl refl)
handle-Step (resolved error) s =
    if-Step error s _ _ (λ h. fail_and_close-Step s)
      (λ h.
        join s (record s { socket_open = true }) _ (quiet s _ refl refl refl)
          (ask async_connect _ refl refl refl))
handle-Step (connected error gone) s = join s arrived _ (quiet s arrived refl refl refl) (
    if-Step error arrived _ _ (λ h. fail_and_close-Step arrived)
      (λ h. join arrived ready _ (quiet arrived ready refl refl refl) (
        if-Step (gone && not s.config.quiet) ready _ _ (λ h. stay ready)
          (λ h.
            join ready (start_tcp_read (flush_tcp_writes ready)) _ (started-Step ready)
              (shutdown_tcp_send_if_ready-Step _)))))
  where
    arrived : Stream
    arrived = record s { server_connecting = false }

    ready : Stream
    ready = record arrived { tcp_ready = true }
handle-Step (data_arrived payload) s = on_data-Step payload s
handle-Step fin_arrived s = on_fin-Step s
handle-Step (update_arrived consumed window) s = on_update-Step consumed window s
handle-Step (read outcome bytes) s = on_read-Step outcome bytes s
handle-Step (written outcome bytes) s = on_written-Step outcome bytes s
handle-Step (timer error) s = if-Step error s s _ (λ h. stay s) (λ h. close-Step s)
handle-Step closed_by_session s = close-Step s
handle-Step session_gone s = quiet s _ refl refl refl
