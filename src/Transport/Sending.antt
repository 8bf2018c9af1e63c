-- ===== src/Transport/Sending.antt =====
-- `KcpTransport`, towards the network: `send`, the output of KCP, and the queue under a rate limit.
use shimakaze.Common.{
  ℕ, zero, suc, ◌+◌, ◌*◌, ◌/◌, max, not, ◌||◌, Bool, true, false, if◌then◌else◌, List, [], ◌∷◌,
  ◌++◌, none, some, length, drop,
}
use shimakaze.Common.Int.{at_least_zero, at_least_one, below}
use shimakaze.Crypto.Packet.{Library, encrypt}
use shimakaze.Fec.Codec
use shimakaze.Smux.State.{is_empty}
use shimakaze.Kcp.State.{Ikcp}
use shimakaze.Transport.State.{Transport, send_to, start_rate_timer, emit, close}

module _ {K O : Type 0} where
  unfoldable pub schedule_rate_limited_send : ℕ → Transport K O → Transport K O
  schedule_rate_limited_send now s =
      let start = max s.next_tx_time now in
      if s.closing || (s.rate_send_active || is_empty s.pending_udp)
      then s
      else emit (start_rate_timer start)
          (record s { rate_send_active = true; next_tx_time = start })

  -- The time from a packet of `size` bytes to the next one, in microseconds.
  unfoldable pub delay_us : Transport K O → ℕ → ℕ
  delay_us s size = size * 1000000 / at_least_one s.config.ratelimit

  -- The completion of the wait of `rate_timer_`.
  unfoldable pub on_rate_timer : Bool → ℕ → Transport K O → Transport K O
  unfolding schedule_rate_limited_send delay_us
  on_rate_timer ok now s =
      let idle = record s { rate_send_active = false } in
      let next : Transport K O = elim s.pending_udp [
        | [] ↦ idle
        | payload ∷ rest ↦ schedule_rate_limited_send now (
            emit (send_to payload) (record idle {
              pending_udp = rest;
              next_tx_time = max s.next_tx_time now + max 1 (delay_us s (length payload));
            }))
      ] in
      if not ok || s.closing then idle else next

  unfoldable pub enqueue_udp_packet : ℕ → List ℕ → Transport K O → Transport K O
  unfolding schedule_rate_limited_send
  enqueue_udp_packet now payload s =
      if below s.config.ratelimit 1
      then emit (send_to payload) s
      else schedule_rate_limited_send now
          (record s { pending_udp = s.pending_udp ++ (payload ∷ []) })

-- The loop of `send`, with fuel for the bytes: whether ikcp took them all.
unfoldable pub send_loop : {K : Type 0} → Ikcp K → ℕ → List ℕ → K → Bool × K
send_loop ikcp zero bytes kcp = (is_empty bytes, kcp)
send_loop {K = K} ikcp (suc fuel) bytes kcp =
    let (result, kcp') = ikcp.send bytes kcp in
    let later = send_loop ikcp fuel (drop (at_least_zero result) bytes) kcp' in
    if◌then◌else◌ {A = Bool × K} (is_empty bytes) (true, kcp)
      (if◌then◌else◌ {A = Bool × K} (below result 1) (false, kcp') later)

module _ {K O : Type 0} (crypto : Library) (ikcp : Ikcp K) where
  -- The loop over the packets of the codec: an exception of `encrypt` closes.
  unfoldable pub send_packets : ℕ → List (List ℕ) → Transport K O → Transport K O
  unfolding enqueue_udp_packet close
  send_packets now [] s = s
  send_packets now (packet ∷ packets) s =
      let drawn = record s { drawn = s.drawn + 1 } in
      elim (encrypt crypto s.crypt (s.draw s.drawn) packet) [
        | none ↦ close drawn
        | some payload ↦ send_packets now packets (enqueue_udp_packet now payload drawn)
      ]

  -- A packet from the output callback, at the clocks' `now` and `millis`.
  unfoldable pub send_udp : ℕ → ℕ → List ℕ → Transport K O → Transport K O
  unfolding send_packets
  send_udp now millis packet s =
      let (packets, fec) = Codec.encode millis packet s.fec in
      if s.closing || is_empty packet then s else send_packets now packets (record s { fec = fec })

  unfoldable pub output : ℕ → ℕ → List (List ℕ) → Transport K O → Transport K O
  unfolding send_udp
  output now millis [] s = s
  output now millis (packet ∷ packets) s = output now millis packets (send_udp now millis packet s)

  unfoldable pub flush_kcp : ℕ → ℕ → Transport K O → Transport K O
  unfolding output
  flush_kcp now millis s =
      let (packets, kcp) = ikcp.flush s.kcp in output now millis packets (record s { kcp = kcp })

  unfoldable pub send : ℕ → ℕ → List ℕ → Transport K O → Transport K O
  unfolding send_loop flush_kcp
  send now millis bytes s =
      let (all, kcp) = send_loop ikcp (length bytes) bytes s.kcp in
      let s' = record s { kcp = kcp } in
      if s.closing || is_empty bytes then s else if all then flush_kcp now millis s' else s'
