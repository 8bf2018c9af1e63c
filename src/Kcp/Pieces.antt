-- ===== src/Kcp/Pieces.antt =====
-- The frames that a `KcpSession` acts on do not depend on how KCP cut their bytes.
use shimakaze.Common.{
  ℕ, zero, suc, ◌<◌, ◌≤◌, Bool, true, false, if◌then◌else◌, List, ◌++◌, length, ◌≡◌, ap, ◌∙◌, sym,
  arith, length-append, append_assoc, ◌⊎◌, inl, inr, Bool-cases,
}
use shimakaze.Crypto.Packet.{Library}
use shimakaze.Kcp.State.{Ikcp, Core, Session}
use shimakaze.Kcp.Frame.{Received, incomplete, oversized, frame, read_frame}
use shimakaze.Kcp.Parse.{Extends, read_frame-Extends, Shorter, read_frame-Shorter}
use shimakaze.Kcp.Stream.{close}
use shimakaze.Kcp.Session.{handle_frame, round, parse_loop, receive, parse_frames}
use shimakaze.Kcp.Consume.{
  loop, close-closing, handle_frame-go_on, loop-closing, loop-open, loop_fuel,
}

module _ {K : Type 0} (crypto : Library) (ikcp : Ikcp K) where
  -- What the loop crypto ikcp leaves, with more bytes behind it, is where the loop crypto ikcp on all bytes goes on.
  abbrev pub then_more : ℕ → List ℕ → List ℕ × Core K → List ℕ × Core K
  then_more fuel more (rest, s) = loop crypto ikcp fuel (rest ++ more) s

  loop-append :
      (n m k : ℕ) (buffer more : List ℕ) (s : Core K)
      → length buffer < n
      → length (buffer ++ more) < m
      → length (buffer ++ more) < k
      → loop crypto ikcp m (buffer ++ more) s ≡ then_more k more (loop crypto ikcp n buffer s)
  unfolding round
  loop-append zero m k buffer more s hn hm hk = absurd (omega arith)
  loop-append (suc n) zero k buffer more s hn hm hk = absurd (omega arith)
  loop-append (suc n) (suc m) k buffer more s hn hm hk = elim (Bool-cases s.closing) [
    | inl c ↦
        loop-closing crypto ikcp (suc m) (buffer ++ more) s c
        ∙ sym (loop-closing crypto ikcp k (buffer ++ more) s c)
        ∙ sym (ap (then_more k more) (loop-closing crypto ikcp (suc n) buffer s c))
    | inr c ↦
        go (read_frame buffer) (read_frame-Shorter buffer) (read_frame-Extends buffer more) c
          (loop-append n m k)
        ∙ sym (ap (then_more k more) (loop-open crypto ikcp n buffer s c))
  ]
    where
      go :
          (r : Received)
          → Shorter buffer r
          → Extends more r (read_frame (buffer ++ more))
          → s.closing ≡ false
          → ((b a : List ℕ) (t : Core K)
              → length b < n
              → length (b ++ a) < m
              → length (b ++ a) < k
              → loop crypto ikcp m (b ++ a) t ≡ then_more k a (loop crypto ikcp n b t))
          → loop crypto ikcp (suc m) (buffer ++ more) s
            ≡ then_more k more (round crypto ikcp (loop crypto ikcp n) buffer s r)
      go incomplete h x c ih = loop_fuel crypto ikcp (suc m) k (buffer ++ more) s hm hk
      go oversized h x c ih =
          loop-open crypto ikcp m (buffer ++ more) s c
          ∙ ap (round crypto ikcp (loop crypto ikcp m) (buffer ++ more) s) x
          ∙ sym (
              loop-closing crypto ikcp k (buffer ++ more) (close crypto ikcp s)
                (close-closing crypto ikcp s))
      go (frame type payload rest) h x c ih =
          loop-open crypto ikcp m (buffer ++ more) s c
          ∙ ap (round crypto ikcp (loop crypto ikcp m) (buffer ++ more) s) x
          ∙ next (handle_frame crypto ikcp type payload s).0
              (handle_frame crypto ikcp type payload s).1
              (handle_frame-go_on crypto ikcp type payload s)
        where
          next :
              (go_on : Bool) (t : Core K)
              → (go_on ≡ true) ⊎ (t.closing ≡ true)
              → (if◌then◌else◌ {A = List ℕ × Core K} go_on
                  (loop crypto ikcp m (rest ++ more) t)
                  (buffer ++ more, t))
                ≡ then_more k more (
                    if◌then◌else◌ {A = List ℕ × Core K} go_on
                      (loop crypto ikcp n rest t)
                      (buffer, t))
          next true t o =
              ih rest more t (omega (arith, h))
                (omega (arith, h, length-append rest more, length-append buffer more))
                (omega (arith, h, length-append rest more, length-append buffer more))
          next false t (inl e) = absurd (ground arith)
          next false t (inr e) = sym (loop-closing crypto ikcp k (buffer ++ more) t e)

  loop-length :
      (fuel : ℕ) (buffer : List ℕ) (s : Core K)
      → length (loop crypto ikcp fuel buffer s).0 ≤ length buffer
  unfolding parse_loop round
  loop-length zero buffer s = omega arith
  loop-length (suc fuel) buffer s =
      either s.closing (read_frame buffer) (read_frame-Shorter buffer) (loop-length fuel)
    where
      either :
          (b : Bool) (r : Received)
          → Shorter buffer r
          → ((b : List ℕ) (t : Core K) → length (loop crypto ikcp fuel b t).0 ≤ length b)
          → length
              (if◌then◌else◌ {A = List ℕ × Core K} b
                (buffer, s)
                (round crypto ikcp (loop crypto ikcp fuel) buffer s r)).0
            ≤ length buffer
      either true r h ih = omega arith
      either false incomplete h ih = omega arith
      either false oversized h ih = omega arith
      either false (frame type payload rest) h ih =
          next (handle_frame crypto ikcp type payload s).0
            (handle_frame crypto ikcp type payload s).1
        where
          next :
              (go_on : Bool) (t : Core K)
              → length
                  (if◌then◌else◌ {A = List ℕ × Core K} go_on
                    (loop crypto ikcp fuel rest t)
                    (buffer, t)).0
                ≤ length buffer
          next true t = omega (arith, ih rest t, h)
          next false t = omega arith

  abbrev consumed : List ℕ → Core K → List ℕ × Core K
  consumed buffer s = loop crypto ikcp (suc (length buffer)) buffer s

  -- Bytes that come in two pieces leave a session in the state that they leave it in at once: the same frames
  -- are acted on, in the same order, and the same bytes wait.
  pub receive-append :
      (first second : List ℕ) (s : Session K)
      → receive crypto ikcp (first ++ second) s
        ≡ receive crypto ikcp second (receive crypto ikcp first s)
  unfolding receive parse_frames
  receive-append first second s = ap (λ r. record { core = r.1; stream_buffer = r.0 }) joined
    where
      buffer : List ℕ
      buffer = s.stream_buffer ++ first

      rest : List ℕ × Core K
      rest = consumed buffer s.core

      joined :
          consumed (s.stream_buffer ++ (first ++ second)) s.core
          ≡ consumed (rest.0 ++ second) rest.1
      joined =
          ap (λ b. consumed b s.core) (sym (append_assoc s.stream_buffer first second))
          ∙ loop-append (suc (length buffer)) (suc (length (buffer ++ second)))
              (suc (length (buffer ++ second))) buffer second s.core (omega arith) (omega arith)
              (omega arith)
          ∙ loop_fuel crypto ikcp (suc (length (buffer ++ second)))
              (suc (length (rest.0 ++ second))) (rest.0 ++ second) rest.1
              (omega (
                arith,
                loop-length (suc (length buffer)) buffer s.core,
                length-append buffer second,
                length-append rest.0 second,
              ))
              (omega arith)
