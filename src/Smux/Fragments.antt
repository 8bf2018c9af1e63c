-- ===== src/Smux/Fragments.antt =====
-- `consume_stream_bytes` in pieces, and the bound of its buffer.
use shimakaze.Common.{
  ℕ, zero, suc, ◌+◌, ◌≤◌, ltb, Bool, true, false, if◌then◌else◌, List, ◌++◌, length, ◌≡◌, refl, ap,
  ◌∙◌, sym, arith, append_assoc, length-append,
}
use shimakaze.Common.Int.{at_least_one}
use shimakaze.Qpp.Pad.{Primitives}
use shimakaze.Snappy.Stream.{Snappy}
use shimakaze.Smux.Frame.{Received, incomplete, mismatch, frame, read_frame}
use shimakaze.Smux.Parse.{Shorter, read_frame-Shorter}
use shimakaze.Smux.Session.{
  Core, Session, protocol_error, dispatch, round, consume_loop, consume_stream_bytes,
}
use shimakaze.Smux.Keeps.{dispatch-Dispatched, protocol_error-closed}
use shimakaze.Smux.Consume.{loop-append, loop_fuel}

module _ (snappy : Snappy) (crypto : Primitives) where
  -- The loop keeps the configuration and does not make the buffer longer.
  abbrev Consumed : List ℕ → Core → List ℕ × Core → Type 0
  Consumed buffer s r = ((r.1).config ≡ s.config) × (length r.0 ≤ length buffer)

  consume_loop-Consumed :
      (fuel : ℕ) (buffer : List ℕ) (s : Core)
      → Consumed buffer s (consume_loop snappy crypto fuel buffer s)
  unfolding consume_loop
  consume_loop-Consumed zero buffer s = (refl, omega arith)
  consume_loop-Consumed (suc fuel) buffer s = either s.closed (
      go (read_frame s.config buffer) (read_frame-Shorter s.config buffer)
        (consume_loop-Consumed fuel))
    where
      tail : Received → List ℕ × Core
      tail r = round snappy crypto (consume_loop snappy crypto fuel) buffer s r

      either :
          (b : Bool)
          → Consumed buffer s (tail (read_frame s.config buffer))
          → Consumed buffer s (if b then (buffer, s) else tail (read_frame s.config buffer))
      either true h = (refl, omega arith)
      either false h = h

      go :
          (r : Received)
          → Shorter buffer r
          → ((b : List ℕ) (t : Core) → Consumed b t (consume_loop snappy crypto fuel b t))
          → Consumed buffer s (tail r)
      go incomplete h ih = (refl, omega arith)
      go mismatch h ih = ((protocol_error-closed snappy s).0, omega arith)
      go (frame command id payload rest) h ih =
          next (dispatch snappy crypto command id payload s).0
            (dispatch snappy crypto command id payload s).1
            (dispatch-Dispatched snappy crypto command id payload s).0
        where
          next :
              (go_on : Bool) (t : Core)
              → t.config ≡ s.config
              → Consumed buffer s
                  (if go_on then consume_loop snappy crypto fuel rest t else (buffer, t))
          next true t e = ((ih rest t).0 ∙ e, omega (arith, h, (ih rest t).1))
          next false t e = (e, omega arith)

  abbrev limit : Session → ℕ
  limit s = at_least_one (s.core).config.smuxbuf

  abbrev consumed : List ℕ → Session → List ℕ × Core
  consumed bytes s =
      consume_loop snappy crypto (suc (length (s.receive_buffer ++ bytes)))
        (s.receive_buffer ++ bytes) s.core

  consume_stream_bytes-fits :
      (bytes : List ℕ) (s : Session)
      → length s.receive_buffer + length bytes ≤ limit s
      → consume_stream_bytes snappy crypto bytes s
        ≡ record s { core = (consumed bytes s).1; receive_buffer = (consumed bytes s).0 }
  unfolding consume_stream_bytes
  consume_stream_bytes-fits bytes s fits =
      ap
        (λ (b : Bool).
          if b
          then record s { core = protocol_error snappy s.core }
          else record s { core = (consumed bytes s).1; receive_buffer = (consumed bytes s).0 })
        {x = ltb (limit s) (length s.receive_buffer + length bytes)} {y = false} (ground arith)

  -- As long as the bytes fit the receive buffer, a session is in the same state whether they come at
  -- once or in two pieces: the same frames are acted on, in the same order, with the same outputs, and
  -- the same bytes wait.
  pub consume_stream_bytes-append :
      (first second : List ℕ) (s : Session)
      → length s.receive_buffer + length first + length second
        ≤ at_least_one (s.core).config.smuxbuf
      → consume_stream_bytes snappy crypto (first ++ second) s
        ≡ consume_stream_bytes snappy crypto second (consume_stream_bytes snappy crypto first s)
  consume_stream_bytes-append first second s fits =
      consume_stream_bytes-fits (first ++ second) s (omega (arith, length-append first second))
      ∙ ap (λ r. record s { core = r.1; receive_buffer = r.0 }) joined
      ∙ sym (consume_stream_bytes-fits second middle room)
      ∙ ap (consume_stream_bytes snappy crypto second)
          (sym (consume_stream_bytes-fits first s (omega arith)))
    where
      middle : Session
      middle = record s { core = (consumed first s).1; receive_buffer = (consumed first s).0 }

      facts : Consumed (s.receive_buffer ++ first) s.core (consumed first s)
      facts = consume_loop-Consumed _ (s.receive_buffer ++ first) s.core

      room : length (consumed first s).0 + length second ≤ limit middle
      room = omega (
        arith,
        facts.1,
        length-append s.receive_buffer first,
        ap (λ c. at_least_one c.smuxbuf) facts.0,
      )

      joined : consumed (first ++ second) s ≡ consumed second middle
      joined =
          ap (λ (b : List ℕ). consume_loop snappy crypto (suc (length b)) b s.core)
            (sym (append_assoc s.receive_buffer first second))
          ∙ loop-append snappy crypto _ (suc (length ((s.receive_buffer ++ first) ++ second)))
              (suc (length ((s.receive_buffer ++ first) ++ second))) (s.receive_buffer ++ first)
              second s.core (omega arith) (omega arith) (omega arith)
          ∙ loop_fuel snappy crypto (suc (length ((s.receive_buffer ++ first) ++ second)))
              (suc (length ((consumed first s).0 ++ second))) ((consumed first s).0 ++ second)
              (consumed first s).1
              (omega (
                arith,
                facts.1,
                length-append (consumed first s).0 second,
                length-append (s.receive_buffer ++ first) second,
              ))
              (omega arith)

  -- A receive buffer within `smuxbuf` stays within it, whatever bytes come.
  pub consume_stream_bytes-bounded :
      (bytes : List ℕ) (s : Session)
      → length s.receive_buffer ≤ at_least_one (s.core).config.smuxbuf
      → length (consume_stream_bytes snappy crypto bytes s).receive_buffer
        ≤ at_least_one (s.core).config.smuxbuf
  unfolding consume_stream_bytes
  consume_stream_bytes-bounded bytes s h =
      go (ltb (limit s) (length s.receive_buffer + length bytes)) refl
    where
      go :
          (b : Bool)
          → ltb (limit s) (length s.receive_buffer + length bytes) ≡ b
          → length
              (if b then record s { core = protocol_error snappy s.core } else record s {
                core = (consumed bytes s).1;
                receive_buffer = (consumed bytes s).0;
              }).receive_buffer
            ≤ limit s
      go true e = h
      go false e =
          let fits : length s.receive_buffer + length bytes ≤ limit s = ground arith in
          omega (
            arith,
            fits,
            (consume_loop-Consumed (suc (length (s.receive_buffer ++ bytes)))
                (s.receive_buffer ++ bytes) s.core).1,
            length-append s.receive_buffer bytes,
          )
