-- ===== src/Transport/Keeps.antt =====
-- A transport keeps its conversation, whatever it does, and stays closed.
use shimakaze.Common.{
  ℕ, ◌+◌, max, ◌++◌, length, ◌||◌, not, Bool, true, false, List, [], ◌∷◌, Option, none, some, ◌≡◌,
  refl, ◌∙◌, arith, either,
}
use shimakaze.Common.Int.{below}
use shimakaze.Smux.State.{is_empty}
use shimakaze.Crypto.Packet.{Library, encrypt}
use shimakaze.Kcp.State.{Ikcp}
use shimakaze.Transport.State.{Transport, close, start_timer, emit, send_to}
use shimakaze.Transport.Sending.{
  schedule_rate_limited_send, delay_us, on_rate_timer, enqueue_udp_packet, send_packets, send_udp,
  output, flush_kcp, send_loop, send,
}

-- Two steps, on the fields.
infixl 30 ◌after◌
pub ◌after◌ :
    {a b c : ℕ} {p q r : Bool}
    → (c ≡ b) × (q ≡ true → r ≡ true)
    → (b ≡ a) × (p ≡ true → q ≡ true)
    → (c ≡ a) × (p ≡ true → r ≡ true)
k after j = (k.0 ∙ j.0, λ e. k.1 (j.1 e))

module _ {K O : Type 0} where
  -- The same conversation, and closed where it was.
  abbrev pub Keeps : Transport K O → Transport K O → Type 0
  Keeps s t = (t.conv ≡ s.conv) × (s.closing ≡ true → t.closing ≡ true)

  pub close-Keeps : (s : Transport K O) → Keeps s (close s)
  unfolding close
  close-Keeps s = (ground arith, λ e. ground (arith, e))

  pub start_timer-Keeps : (s : Transport K O) → Keeps s (start_timer s)
  unfolding start_timer
  start_timer-Keeps s = (ground arith, λ e. ground (arith, e))

  schedule-Keeps : (now : ℕ) (s : Transport K O) → Keeps s (schedule_rate_limited_send now s)
  unfolding schedule_rate_limited_send
  schedule-Keeps now s = (ground arith, λ e. ground (arith, e))

  enqueue-Keeps :
      (now : ℕ) (payload : List ℕ) (s : Transport K O) → Keeps s (enqueue_udp_packet now payload s)
  unfolding enqueue_udp_packet
  enqueue-Keeps now payload s =
      either (Keeps s) (below s.config.ratelimit 1) (emit (send_to payload) s) _ (refl, λ e. e)
        (schedule-Keeps now (record s { pending_udp = s.pending_udp ++ (payload ∷ []) }))

  pub on_rate_timer-Keeps :
      (ok : Bool) (now : ℕ) (s : Transport K O) → Keeps s (on_rate_timer ok now s)
  unfolding on_rate_timer
  on_rate_timer-Keeps ok now s =
      either (Keeps s) (not ok || s.closing) idle _ idle-Keeps (next s.pending_udp)
    where
      idle : Transport K O
      idle = record s { rate_send_active = false }

      idle-Keeps : Keeps s idle
      idle-Keeps = (refl, λ e. e)

      sent : List ℕ → List (List ℕ) → Transport K O
      sent payload rest = emit (send_to payload) (record idle {
        pending_udp = rest;
        next_tx_time = max s.next_tx_time now + max 1 (delay_us s (length payload));
      })

      next :
          (queue : List (List ℕ))
          → Keeps s (elim queue as (λ x. Transport K O) [
            | [] ↦ idle
            | payload ∷ rest ↦ schedule_rate_limited_send now (sent payload rest)
          ])
      next [] = idle-Keeps
      next (payload ∷ rest) = schedule-Keeps now (sent payload rest)

module _ {K O : Type 0} (crypto : Library) (ikcp : Ikcp K) where
  send_packets-Keeps :
      (now : ℕ) (packets : List (List ℕ)) (s : Transport K O)
      → Keeps s (send_packets crypto ikcp now packets s)
  unfolding send_packets
  send_packets-Keeps now [] s = (refl, λ e. e)
  send_packets-Keeps now (packet ∷ packets) s =
      go (encrypt crypto s.crypt (s.draw s.drawn) packet) (send_packets-Keeps now packets)
    where
      drawn : Transport K O
      drawn = record s { drawn = s.drawn + 1 }

      go :
          (o : Option (List ℕ))
          → ((t : Transport K O) → Keeps t (send_packets crypto ikcp now packets t))
          → Keeps s (elim o as (λ x. Transport K O) [
            | none ↦ close drawn
            | some payload ↦
                send_packets crypto ikcp now packets (enqueue_udp_packet now payload drawn)
          ])
      go none ih = close-Keeps drawn
      go (some payload) ih =
          ih (enqueue_udp_packet now payload drawn) after enqueue-Keeps now payload drawn

  send_udp-Keeps :
      (now millis : ℕ) (packet : List ℕ) (s : Transport K O)
      → Keeps s (send_udp crypto ikcp now millis packet s)
  unfolding send_udp
  send_udp-Keeps now millis packet s =
      either (Keeps s) (s.closing || is_empty packet) s _ (refl, λ e. e)
        (send_packets-Keeps now _ _)

  pub output-Keeps :
      (now millis : ℕ) (packets : List (List ℕ)) (s : Transport K O)
      → Keeps s (output crypto ikcp now millis packets s)
  unfolding output
  output-Keeps now millis [] s = (refl, λ e. e)
  output-Keeps now millis (packet ∷ packets) s =
      output-Keeps now millis packets (send_udp crypto ikcp now millis packet s)
      after send_udp-Keeps now millis packet s

  pub flush_kcp-Keeps :
      (now millis : ℕ) (s : Transport K O) → Keeps s (flush_kcp crypto ikcp now millis s)
  unfolding flush_kcp
  flush_kcp-Keeps now millis s =
      output-Keeps now millis (ikcp.flush s.kcp).0 (record s { kcp = (ikcp.flush s.kcp).1 })

  pub send-Keeps :
      (now millis : ℕ) (bytes : List ℕ) (s : Transport K O)
      → Keeps s (send crypto ikcp now millis bytes s)
  unfolding send
  send-Keeps now millis bytes s =
      either IsOf (s.closing || is_empty bytes) s _ (refl, λ e. e)
        (either IsOf (send_loop ikcp (length bytes) bytes s.kcp).0 _ _
          (flush_kcp-Keeps now millis _) (refl, λ e. e))
    where
      IsOf : Transport K O → Type 0
      IsOf t = Keeps s t
