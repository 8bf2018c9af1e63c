-- ===== src/Kcp/Session.antt =====
-- `KcpSession`: the packets that come in, the loops that take frames out of the KCP stream, and the timers.
use shimakaze.Common.{
  ℕ, zero, suc, ◌==◌, ◌||◌, Bool, true, false, if◌then◌else◌, List, ◌++◌, none, some, length,
}
use shimakaze.Common.Int.{at_least_zero}
use shimakaze.Crypto.Packet.{Library}
use shimakaze.Smux.State.{is_empty}
use shimakaze.Kcp.State.{Ikcp, Core, Session}
use shimakaze.Kcp.Frame.{Received, incomplete, oversized, frame, read_frame}
use shimakaze.Kcp.Stream.{
  close, handle_data_frame, handle_fin_frame, start_timer, output, flush_kcp,
}

module _ {K : Type 0} (crypto : Library) (ikcp : Ikcp K) where
  -- What a frame of a type does, and whether the loop goes on.
  unfoldable pub handle_frame : ℕ → List ℕ → Core K → Bool × Core K
  unfolding handle_data_frame handle_fin_frame close
  handle_frame type payload s =
      if◌then◌else◌ {A = Bool × Core K} (type == 1) (true, handle_data_frame crypto ikcp payload s)
        (if◌then◌else◌ {A = Bool × Core K} (type == 2) (true, handle_fin_frame crypto ikcp s)
          (false, close crypto ikcp s))

  -- A round of the loop on what it finds, with the rounds that follow.
  unfoldable pub round :
      (List ℕ → Core K → List ℕ × Core K) → List ℕ → Core K → Received → List ℕ × Core K
  unfolding handle_frame close
  round next buffer s incomplete = (buffer, s)
  round next buffer s oversized = (buffer, close crypto ikcp s)
  round next buffer s (frame type payload rest) =
      let (go_on, s') = handle_frame type payload s in
      if◌then◌else◌ {A = List ℕ × Core K} go_on (next rest s') (buffer, s')

  -- The loop, with fuel for its rounds.
  unfoldable pub parse_loop : ℕ → List ℕ → Core K → List ℕ × Core K
  unfolding round read_frame
  parse_loop zero buffer s = (buffer, s)
  parse_loop (suc fuel) buffer s =
      if◌then◌else◌ {A = List ℕ × Core K} s.closing (buffer, s)
        (round (parse_loop fuel) buffer s (read_frame buffer))

  -- `parse_frames`, with a round for each byte.
  unfoldable pub parse_frames : Session K → Session K
  unfolding parse_loop
  parse_frames s =
      let (buffer, core) = parse_loop (suc (length s.stream_buffer)) s.stream_buffer s.core in
      record { core = core; stream_buffer = buffer }

  -- What `ikcp_recv` gave joins the buffer.
  unfoldable pub receive : List ℕ → Session K → Session K
  unfolding parse_frames
  receive bytes s = parse_frames (record s { stream_buffer = s.stream_buffer ++ bytes })

  -- The loop of `drain_kcp`, with fuel for the messages that wait.
  unfoldable pub drain_loop : ℕ → Session K → Session K
  unfolding receive
  drain_loop zero s = s
  drain_loop (suc fuel) s =
      let size = at_least_zero (ikcp.peeksize (s.core).kcp) in
      let (received, kcp) = ikcp.recv size (s.core).kcp in
      let s' = record s { core = record (s.core) { kcp = kcp } } in
      let later : Session K = elim received [
        | none ↦ s'
        | some bytes ↦ drain_loop fuel (receive bytes s')
      ] in
      if (s.core).closing || (size == 0) then s else later

  unfoldable pub input : ℕ → List ℕ → Session K → Session K
  unfolding drain_loop flush_kcp
  input fuel packet s =
      let taken : Session K = elim (ikcp.input packet (s.core).kcp) [
        | none ↦ s
        | some kcp ↦
            (let s' = drain_loop fuel (record s { core = record (s.core) { kcp = kcp } }) in
              if (s'.core).config.acknodelay
              then record s' { core = flush_kcp crypto ikcp s'.core }
              else s')
      ] in
      if (s.core).closing || is_empty packet then s else taken

  -- `update_kcp` at the clock's `now`.
  unfoldable pub update_kcp : ℕ → ℕ → Session K → Session K
  unfolding drain_loop output start_timer
  update_kcp fuel now s =
      let (packets, kcp) = ikcp.update now (s.core).kcp in
      let s' =
        drain_loop fuel
          (record s { core = output crypto ikcp packets (record (s.core) { kcp = kcp }) }) in
      if (s.core).closing then s else record s' { core = start_timer crypto ikcp s'.core }
