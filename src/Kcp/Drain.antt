-- ===== src/Kcp/Drain.antt =====
-- The loop of `drain_kcp` ends.
use mathlib.Core.Option.{none-ne-some}
use shimakaze.Common.{
  either, ℕ, zero, suc, ◌<◌, ◌==◌, ◌||◌, Bool, true, false, Bool-cases, if◌then◌else◌, List, [],
  ◌∷◌, ◌++◌, Option, none, some, length, ◌≡◌, ◌≢◌, ◌⊎◌, inl, inr, refl, ap, ◌∙◌, sym, arith,
}
use shimakaze.Common.Int.{at_least_zero}
use shimakaze.Crypto.Packet.{Library}
use shimakaze.Smux.State.{is_empty}
use shimakaze.Kcp.State.{Ikcp, Core, Session, emit, when, async_write, shutdown_send}
use shimakaze.Kcp.Frame.{Received, incomplete, oversized, frame, read_frame}
use shimakaze.Kcp.Stream.{
  flush_tcp_writes, enqueue_tcp_write, handle_data_frame, handle_fin_frame, maybe_finish,
  schedule_close_after_fin, close,
}
use shimakaze.Kcp.Session.{handle_frame, round, parse_loop, parse_frames, receive, drain_loop}

-- ikcp gives up a message that waits whenever it gives a size for one, and has one less then.
pub record IsQueue {K : Type 0} (ikcp : Ikcp K) (waiting : K → ℕ) : Type 0 where
  pub given :
      (k : K)
      → at_least_zero (ikcp.peeksize k) ≢ 0
      → (bytes : List ℕ) × ((ikcp.recv (at_least_zero (ikcp.peeksize k)) k).0 ≡ some bytes)
        × (waiting (ikcp.recv (at_least_zero (ikcp.peeksize k)) k).1 < waiting k)

module _ {K : Type 0} (crypto : Library) (ikcp : Ikcp K) where
  -- Acting on frames does not touch ikcp.
  abbrev Same : Core K → Core K → Type 0
  Same s t = t.kcp ≡ s.kcp

  flush-Same : (s : Core K) → Same s (flush_tcp_writes crypto ikcp s)
  unfolding flush_tcp_writes
  flush-Same s = either (Same s) _ s _ refl (go s.pending_tcp_writes)
    where
      go :
          (pending : List (List ℕ))
          → Same s (elim pending as (λ p. Core K) [
            | [] ↦ s
            | front ∷ rest ↦ emit (async_write front) (record s { tcp_write_active = true })
          ])
      go [] = refl
      go (front ∷ rest) = refl

  maybe_finish-Same : (s : Core K) → Same s (maybe_finish crypto ikcp s)
  unfolding maybe_finish schedule_close_after_fin
  maybe_finish-Same s =
      either (Same s) s.closing s _ refl
        (either (Same s) _ (schedule_close_after_fin crypto ikcp s) s refl refl)

  close-Same : (s : Core K) → Same s (close crypto ikcp s)
  unfolding close
  close-Same s = either (Same s) s.closing s _ refl (either (Same s) s.socket_open _ _ refl refl)

  handle_data_frame-Same :
      (payload : List ℕ) (s : Core K) → Same s (handle_data_frame crypto ikcp payload s)
  unfolding handle_data_frame enqueue_tcp_write
  handle_data_frame-Same payload s =
      either (Same s) (is_empty payload) s _ refl
        (flush-Same (record s { pending_tcp_writes = s.pending_tcp_writes ++ (payload ∷ []) }))

  handle_fin_frame-Same : (s : Core K) → Same s (handle_fin_frame crypto ikcp s)
  unfolding handle_fin_frame
  handle_fin_frame-Same s =
      let s' = record s { remote_fin_received = true } in
      either (Same s) s.remote_fin_received s _ refl (
        maybe_finish-Same (when s'.socket_open (emit shutdown_send) s')
        ∙ either (Same s) s.socket_open (emit shutdown_send s') s' refl refl)

  handle_frame-Same :
      (type : ℕ) (payload : List ℕ) (s : Core K)
      → Same s (handle_frame crypto ikcp type payload s).1
  unfolding handle_frame
  handle_frame-Same type payload s =
      either (λ (t : Bool × Core K). Same s t.1) (type == 1)
        (true, handle_data_frame crypto ikcp payload s) _ (handle_data_frame-Same payload s)
        (either (λ (t : Bool × Core K). Same s t.1) (type == 2)
          (true, handle_fin_frame crypto ikcp s) (false, close crypto ikcp s)
          (handle_fin_frame-Same s) (close-Same s))

  parse_loop-Same :
      (fuel : ℕ) (buffer : List ℕ) (s : Core K) → Same s (parse_loop crypto ikcp fuel buffer s).1
  unfolding parse_loop round
  parse_loop-Same zero buffer s = refl
  parse_loop-Same (suc fuel) buffer s =
      either (λ (t : List ℕ × Core K). Same s t.1) s.closing (buffer, s) _ refl
        (go (read_frame buffer) (parse_loop-Same fuel))
    where
      go :
          (r : Received)
          → ((b : List ℕ) (t : Core K) → Same t (parse_loop crypto ikcp fuel b t).1)
          → Same s (round crypto ikcp (parse_loop crypto ikcp fuel) buffer s r).1
      go incomplete ih = refl
      go oversized ih = close-Same s
      go (frame type payload rest) ih =
          let d = handle_frame crypto ikcp type payload s in
          either (λ (t : List ℕ × Core K). Same s t.1) d.0 (parse_loop crypto ikcp fuel rest d.1)
            (buffer, d.1) (ih rest d.1 ∙ handle_frame-Same type payload s)
            (handle_frame-Same type payload s)

  receive-Same : (bytes : List ℕ) (s : Session K) → Same s.core (receive crypto ikcp bytes s).core
  unfolding receive parse_frames
  receive-Same bytes s =
      parse_loop-Same (suc (length (s.stream_buffer ++ bytes))) (s.stream_buffer ++ bytes) s.core

  -- The ways out of the loop.
  unfoldable pub IsDrained : Session K → Type 0
  IsDrained s = ((s.core).closing ≡ true) ⊎ (at_least_zero (ikcp.peeksize (s.core).kcp) ≡ 0)

  -- With fuel above the count of the messages that wait, the loop of `drain_kcp` ends where the source's does:
  -- the session is closing, or ikcp has no message. For any ikcp that gives up a message whenever it gives a
  -- size for one.
  pub drain_loop-IsDrained :
      (waiting : K → ℕ) (fuel : ℕ) (s : Session K)
      → IsQueue ikcp waiting
      → waiting (s.core).kcp < fuel
      → IsDrained (drain_loop crypto ikcp fuel s)
  unfolding drain_loop IsDrained
  drain_loop-IsDrained waiting zero s h enough = absurd (omega arith)
  drain_loop-IsDrained waiting (suc fuel) s h enough =
      go ((s.core).closing || (size == 0)) refl received refl
        (λ t. drain_loop-IsDrained waiting fuel t h)
    where
      size : ℕ
      size = at_least_zero (ikcp.peeksize (s.core).kcp)

      received : Option (List ℕ)
      received = (ikcp.recv size (s.core).kcp).0

      s' : Session K
      s' = record s { core = record (s.core) { kcp = (ikcp.recv size (s.core).kcp).1 } }

      go :
          (b : Bool)
          → ((s.core).closing || (size == 0)) ≡ b
          → (o : Option (List ℕ)) → received ≡ o
          → ((t : Session K)
              → waiting (t.core).kcp < fuel
              → IsDrained (drain_loop crypto ikcp fuel t))
          → IsDrained (
              if b then s else elim o as (λ x. Session K) [
                | none ↦ s'
                | some bytes ↦ drain_loop crypto ikcp fuel (receive crypto ikcp bytes s')
              ])
      go true e o r ih = elim (Bool-cases (s.core).closing) [
        | inl c ↦ inl c
        | inr c ↦ inr (ground (arith, c, e))
      ]
      go false e none r ih = absurd (none-ne-some message'.0 (sym r ∙ message'.1))
        where
          message' :
              (bytes : List ℕ) × (received ≡ some bytes)
              × (waiting (s'.core).kcp < waiting (s.core).kcp)
          message' = h.given (s.core).kcp (λ z. ground (arith, z, e))
      go false e (some bytes) r ih =
          ih (receive crypto ikcp bytes s')
            (omega (arith, ap waiting (receive-Same bytes s'), message'.2, enough))
        where
          message' :
              (bytes : List ℕ) × (received ≡ some bytes)
              × (waiting (s'.core).kcp < waiting (s.core).kcp)
          message' = h.given (s.core).kcp (λ z. ground (arith, z, e))
