-- ===== src/Transport/Receiving.antt =====
-- `KcpTransport`, from the network: `input`, the loop over the messages, and the update. The read handler is a
-- parameter.
use shimakaze.Common.{ℕ, zero, suc, ◌==◌, ◌||◌, if◌then◌else◌, List, [], ◌∷◌, Option, none, some}
use shimakaze.Common.Int.{at_least_zero}
use shimakaze.Crypto.Packet.{Library}
use shimakaze.Fec.Decoder
use shimakaze.Smux.State.{is_empty}
use shimakaze.Kcp.State.{Ikcp}
use shimakaze.Transport.State.{Transport, start_timer}
use shimakaze.Transport.Sending.{output, flush_kcp}

module _ {K O : Type 0} (crypto : Library) (ikcp : Ikcp K)
    (read_handler : List ℕ → Transport K O → Transport K O) where
  -- The loop of `drain_kcp`, with fuel for the messages that wait.
  unfoldable pub drain_loop : ℕ → Transport K O → Transport K O
  drain_loop zero s = s
  drain_loop (suc fuel) s =
      let size = at_least_zero (ikcp.peeksize s.kcp) in
      let (received, kcp) = ikcp.recv size s.kcp in
      let s' = record s { kcp = kcp } in
      let later : Transport K O = elim received [
        | none ↦ s'
        | some bytes ↦ drain_loop fuel (read_handler bytes s')
      ] in
      if s.closing || (size == 0) then s else later

  -- The loop over the packets of the codec; a packet that ikcp refuses is passed over.
  unfoldable pub input_packets : ℕ → List (List ℕ) → Transport K O → Transport K O
  unfolding drain_loop
  input_packets fuel [] s = s
  input_packets fuel (packet ∷ packets) s =
      input_packets fuel packets (elim (ikcp.input packet s.kcp) [
        | none ↦ s
        | some kcp ↦ drain_loop fuel (record s { kcp = kcp })
      ])

  -- Where the codec throws, the exception leaves `input`: `none`.
  unfoldable pub input : ℕ → ℕ → ℕ → List ℕ → Transport K O → Option (Transport K O)
  unfolding input_packets flush_kcp
  input fuel now millis packet s =
      let (packets, fec) = Decoder.decode packet s.fec in
      let given : Option (Transport K O) = elim packets [
        | none ↦ none
        | some kcp_packets ↦
            (let s' = input_packets fuel kcp_packets (record s { fec = fec }) in
              some (if s'.config.acknodelay then flush_kcp crypto ikcp now millis s' else s'))
      ] in
      if s.closing || is_empty packet then some s else given

  unfoldable pub update_kcp : ℕ → ℕ → ℕ → ℕ → Transport K O → Transport K O
  unfolding output drain_loop start_timer
  update_kcp fuel now millis clock s =
      let (packets, kcp) = ikcp.update clock s.kcp in
      let s' = drain_loop fuel (output crypto ikcp now millis packets (record s { kcp = kcp })) in
      if s.closing then s else start_timer s'
