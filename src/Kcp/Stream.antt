-- ===== src/Kcp/Stream.antt =====
-- `KcpSession`: the TCP side, the frames it sends, and its end. The completion handler of an asynchronous
-- call is a function of its own.
use shimakaze.Common.{
  ℕ, ◌+◌, ◌-◌, Bool, true, false, not, ◌&&◌, ◌||◌, ltb, if◌then◌else◌, List, [], ◌∷◌, ◌++◌, Option,
  none, some, length, take,
}
use shimakaze.Common.Int.{at_least_zero, at_least_one, below}
use shimakaze.Config.Base.{BaseConfig}
use shimakaze.Crypto.Packet.{Library, PacketCrypt, encrypt, make_crypt, overhead}
use shimakaze.Smux.State.{is_empty}
use shimakaze.Smux.Stream.{Outcome, done, ended, broken, tail_of}
use shimakaze.Kcp.State.{
  Ikcp, async_resolve, async_connect, async_read, async_write, send_to, start_update_timer,
  start_close_timer, cancel_timers, cancel_resolver, shutdown_send, close_socket, close_handler,
  FrameType, data', fin, Core, emit, when, ◌>>=◌,
}
use shimakaze.Kcp.Frame.{max_frame_payload, make_frame}

-- `tcp_read_buffer_` has 32 * 1024 bytes.
abbrev pub read_size : ℕ
read_size = 32768

module _ {K : Type 0} (crypto : Library) (ikcp : Ikcp K) where
  -- `configure_kcp`: `none` is its exception.
  unfoldable pub configure_kcp : BaseConfig → PacketCrypt → K → Option K
  configure_kcp config crypt kcp =
      let tuned =
        ikcp.wndsize config.sndwnd config.rcvwnd
          (ikcp.nodelay config.nodelay config.interval config.resend config.nc kcp) in
      let fitted : Option K = elim (ikcp.setmtu (at_least_zero config.mtu - overhead crypt) tuned) [
        | none ↦ none
        | some kcp' ↦ some (ikcp.stream_mode kcp')
      ] in
      if below config.mtu (50 + overhead crypt) then none else fitted

  unfoldable pub fresh_core : ℕ → BaseConfig → PacketCrypt → K → (ℕ → List ℕ) → Core K
  fresh_core conv config crypt kcp draw = record {
    conv = conv;
    config = config;
    crypt = crypt;
    kcp = kcp;
    draw = draw;
    drawn = 0;
    socket_open = false;
    pending_tcp_writes = [];
    tcp_write_active = false;
    tcp_ready = false;
    closing = false;
    local_fin_sent = false;
    remote_fin_received = false;
    server_connecting = false;
    effects = [];
  }

  -- The constructor, from the key and the method that the configuration names: a `none` is an exception.
  unfoldable pub make_session : ℕ → BaseConfig → (ℕ → List ℕ) → Option (Core K)
  unfolding configure_kcp fresh_core
  make_session conv config draw = do
    crypt ← make_crypt crypto config.key config.crypt
    created ← ikcp.create conv
    kcp ← configure_kcp config crypt created
    some (fresh_core conv config crypt kcp draw)

  -- A packet from the output callback. Where `encrypt` throws, the packet is dropped here; in the source the
  -- exception leaves the event loop, so that nothing more happens.
  unfoldable pub send_udp : List ℕ → Core K → Core K
  send_udp packet s =
      let drawn = record s { drawn = s.drawn + 1 } in
      let sent : Core K = elim (encrypt crypto s.crypt (s.draw s.drawn) packet) [
        | none ↦ drawn
        | some payload ↦ emit (send_to payload) drawn
      ] in
      if s.closing || is_empty packet then s else sent

  unfoldable pub output : List (List ℕ) → Core K → Core K
  unfolding send_udp
  output [] s = s
  output (packet ∷ packets) s = output packets (send_udp packet s)

  unfoldable pub flush_kcp : Core K → Core K
  unfolding output
  flush_kcp s = let (packets, kcp) = ikcp.flush s.kcp in output packets (record s { kcp = kcp })

  -- No caller passes more than `read_size` bytes, so the exception of an oversized payload never comes.
  unfoldable pub send_frame : FrameType → List ℕ → Core K → Core K
  unfolding flush_kcp make_frame
  send_frame type payload s =
      let (result, kcp) = ikcp.send (make_frame type payload) s.kcp in
      let s' = record s { kcp = kcp } in
      if s.closing || ltb max_frame_payload (length payload)
      then s
      else if below result 0
      then s'
      else flush_kcp s'

  unfoldable pub send_local_fin : Core K → Core K
  unfolding send_frame
  send_local_fin s =
      if s.local_fin_sent || s.closing
      then s
      else send_frame fin [] (record s { local_fin_sent = true })

  unfoldable pub schedule_close_after_fin : Core K → Core K
  schedule_close_after_fin s = emit (start_close_timer (at_least_zero s.config.closewait)) s

  unfoldable pub maybe_finish : Core K → Core K
  unfolding schedule_close_after_fin
  maybe_finish s =
      if s.closing
      then s
      else if s.local_fin_sent
          && s.remote_fin_received
          && is_empty s.pending_tcp_writes
          && not s.tcp_write_active
      then schedule_close_after_fin s
      else s

  unfoldable pub close : Core K → Core K
  close s =
      let cancelled = emit cancel_resolver (emit cancel_timers (record s { closing = true })) in
      let closed =
        when cancelled.socket_open (emit close_socket) (record cancelled { socket_open = false }) in
      if s.closing then s else emit (close_handler s.conv) closed

  unfoldable pub fail_and_close : Core K → Core K
  unfolding close
  fail_and_close s = close s

  unfoldable pub start_tcp_read : Core K → Core K
  start_tcp_read s =
      if s.closing || not s.tcp_ready || s.local_fin_sent then s else emit async_read s

  unfoldable pub on_read : Outcome → List ℕ → Core K → Core K
  unfolding send_frame start_tcp_read send_local_fin maybe_finish fail_and_close
  on_read done bytes s = start_tcp_read (send_frame data' (take read_size bytes) s)
  on_read ended bytes s = maybe_finish (send_local_fin s)
  on_read broken bytes s = fail_and_close s

  unfoldable pub flush_tcp_writes : Core K → Core K
  flush_tcp_writes s =
      if s.closing || not s.tcp_ready || s.tcp_write_active then s else elim s.pending_tcp_writes [
        | [] ↦ s
        | front ∷ rest ↦ emit (async_write front) (record s { tcp_write_active = true })
      ]

  unfoldable pub enqueue_tcp_write : List ℕ → Core K → Core K
  unfolding flush_tcp_writes
  enqueue_tcp_write bytes s =
      flush_tcp_writes (record s { pending_tcp_writes = s.pending_tcp_writes ++ (bytes ∷ []) })

  unfoldable pub on_written : Outcome → Core K → Core K
  unfolding send_local_fin maybe_finish fail_and_close flush_tcp_writes
  on_written done s = maybe_finish (
      flush_tcp_writes
        (record s { tcp_write_active = false; pending_tcp_writes = tail_of s.pending_tcp_writes }))
  on_written ended s = maybe_finish (send_local_fin (record s { tcp_write_active = false }))
  on_written broken s = fail_and_close (record s { tcp_write_active = false })

  unfoldable pub handle_data_frame : List ℕ → Core K → Core K
  unfolding enqueue_tcp_write
  handle_data_frame payload s = if is_empty payload then s else enqueue_tcp_write payload s

  unfoldable pub handle_fin_frame : Core K → Core K
  unfolding maybe_finish
  handle_fin_frame s =
      let s' = record s { remote_fin_received = true } in
      if s.remote_fin_received
      then s
      else maybe_finish (when s'.socket_open (emit shutdown_send) s')

  unfoldable pub start_timer : Core K → Core K
  start_timer s =
      if s.closing then s else emit (start_update_timer (at_least_one s.config.interval)) s

  -- Where the peer of the TCP socket is `gone`, the `remote_endpoint()` of the log call throws, and the rest is not
  -- done.
  unfoldable pub start_client : Bool → Core K → Core K
  unfolding start_tcp_read start_timer
  start_client gone s =
      let s' = record s { socket_open = true; tcp_ready = true } in
      if gone then s' else start_timer (start_tcp_read s')

  unfoldable pub start_server : Core K → Core K
  unfolding start_timer
  start_server s = start_timer (emit async_resolve (record s { server_connecting = true }))

  unfoldable pub on_resolved : Bool → Core K → Core K
  unfolding fail_and_close
  on_resolved ok s =
      if ok then emit async_connect (record s { socket_open = true }) else fail_and_close s

  -- Here the same exception leaves the event loop.
  unfoldable pub on_connected : Bool → Bool → Core K → Core K
  unfolding fail_and_close flush_tcp_writes start_tcp_read
  on_connected ok gone s =
      let s' = record s { server_connecting = false } in
      let ready = record s' { tcp_ready = true } in
      if not ok
      then fail_and_close s'
      else if gone
      then ready
      else start_tcp_read (flush_tcp_writes ready)
