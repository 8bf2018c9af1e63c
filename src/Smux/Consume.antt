-- ===== src/Smux/Consume.antt =====
-- The frames that a session acts on do not depend on how the transport cut their bytes.
use shimakaze.Common.{
  ℕ, zero, suc, ◌<◌, Bool, true, false, if◌then◌else◌, List, ◌++◌, length, ◌≡◌, refl, ap, ◌∙◌, sym,
  arith, length-append, ◌⊎◌, inl, inr, Bool-cases,
}
use shimakaze.Qpp.Pad.{Primitives}
use shimakaze.Snappy.Stream.{Snappy}
use shimakaze.Smux.Frame.{Received, incomplete, mismatch, frame, read_frame}
use shimakaze.Smux.Parse.{Extends, read_frame-Extends, Shorter, read_frame-Shorter}
use shimakaze.Smux.Session.{Core, protocol_error, dispatch, round, consume_loop}
use shimakaze.Smux.Keeps.{dispatch-Dispatched, protocol_error-closed}

module _ (snappy : Snappy) (crypto : Primitives) where
  abbrev loop : ℕ → List ℕ → Core → List ℕ × Core
  loop = consume_loop snappy crypto

  -- A closed session leaves its buffer alone.
  pub loop-closed :
      (fuel : ℕ) (buffer : List ℕ) (s : Core) → s.closed ≡ true → loop fuel buffer s ≡ (buffer, s)
  unfolding consume_loop
  loop-closed zero buffer s c = refl
  loop-closed (suc fuel) buffer s c =
      ap
        (λ b.
          if b
          then (buffer, s)
          else round snappy crypto (loop fuel) buffer s (read_frame s.config buffer))
        c

  pub loop-open :
      (fuel : ℕ) (buffer : List ℕ) (s : Core)
      → s.closed ≡ false
      → loop (suc fuel) buffer s
        ≡ round snappy crypto (loop fuel) buffer s (read_frame s.config buffer)
  unfolding consume_loop
  loop-open fuel buffer s c =
      ap
        (λ b.
          if b
          then (buffer, s)
          else round snappy crypto (loop fuel) buffer s (read_frame s.config buffer))
        c

  -- Any fuel above the length of the buffer gives the same.
  pub loop_fuel :
      (n m : ℕ) (buffer : List ℕ) (s : Core)
      → length buffer < n
      → length buffer < m
      → loop n buffer s ≡ loop m buffer s
  loop_fuel zero m buffer s hn hm = absurd (omega arith)
  loop_fuel (suc n) zero buffer s hn hm = absurd (omega arith)
  loop_fuel (suc n) (suc m) buffer s hn hm = elim (Bool-cases s.closed) [
    | inl c ↦ loop-closed (suc n) buffer s c ∙ sym (loop-closed (suc m) buffer s c)
    | inr c ↦
        loop-open n buffer s c
        ∙ go (read_frame s.config buffer) (read_frame-Shorter s.config buffer) (loop_fuel n m)
        ∙ sym (loop-open m buffer s c)
  ]
    where
      go :
          (r : Received)
          → Shorter buffer r
          → ((b : List ℕ) (t : Core) → length b < n → length b < m → loop n b t ≡ loop m b t)
          → round snappy crypto (loop n) buffer s r ≡ round snappy crypto (loop m) buffer s r
      go incomplete h ih = refl
      go mismatch h ih = refl
      go (frame command id payload rest) h ih =
          let d = dispatch snappy crypto command id payload s in
          ap (λ x. if d.0 then x else (buffer, d.1))
            (ih rest d.1 (omega (arith, h)) (omega (arith, h)))

  -- What the loop leaves, with more bytes behind it, is where the loop on all bytes goes on.
  abbrev pub then_more : ℕ → List ℕ → List ℕ × Core → List ℕ × Core
  then_more fuel more (rest, s) = loop fuel (rest ++ more) s

  pub loop-append :
      (n m k : ℕ) (buffer more : List ℕ) (s : Core)
      → length buffer < n
      → length (buffer ++ more) < m
      → length (buffer ++ more) < k
      → loop m (buffer ++ more) s ≡ then_more k more (loop n buffer s)
  loop-append zero m k buffer more s hn hm hk = absurd (omega arith)
  loop-append (suc n) zero k buffer more s hn hm hk = absurd (omega arith)
  loop-append (suc n) (suc m) k buffer more s hn hm hk = elim (Bool-cases s.closed) [
    | inl c ↦
        loop-closed (suc m) (buffer ++ more) s c
        ∙ sym (loop-closed k (buffer ++ more) s c)
        ∙ sym (ap (then_more k more) (loop-closed (suc n) buffer s c))
    | inr c ↦
        go (read_frame s.config buffer) (read_frame-Shorter s.config buffer)
          (read_frame-Extends s.config buffer more) c (loop-append n m k)
        ∙ sym (ap (then_more k more) (loop-open n buffer s c))
  ]
    where
      go :
          (r : Received)
          → Shorter buffer r
          → Extends more r (read_frame s.config (buffer ++ more))
          → s.closed ≡ false
          → ((b a : List ℕ) (t : Core)
              → length b < n
              → length (b ++ a) < m
              → length (b ++ a) < k
              → loop m (b ++ a) t ≡ then_more k a (loop n b t))
          → loop (suc m) (buffer ++ more) s
            ≡ then_more k more (round snappy crypto (loop n) buffer s r)
      go incomplete h x c ih = loop_fuel (suc m) k (buffer ++ more) s hm hk
      go mismatch h x c ih =
          loop-open m (buffer ++ more) s c
          ∙ ap (round snappy crypto (loop m) (buffer ++ more) s) x
          ∙ sym (
              loop-closed k (buffer ++ more) (protocol_error snappy s)
                (protocol_error-closed snappy s).1)
      go (frame command id payload rest) h x c ih =
          loop-open m (buffer ++ more) s c
          ∙ ap (round snappy crypto (loop m) (buffer ++ more) s) x
          ∙ next (dispatch snappy crypto command id payload s).0
              (dispatch snappy crypto command id payload s).1
              (dispatch-Dispatched snappy crypto command id payload s).1
        where
          next :
              (go_on : Bool) (t : Core)
              → (go_on ≡ true) ⊎ (t.closed ≡ true)
              → (if go_on then loop m (rest ++ more) t else (buffer ++ more, t))
                ≡ then_more k more (if go_on then loop n rest t else (buffer, t))
          next true t o =
              ih rest more t (omega (arith, h))
                (omega (arith, h, length-append rest more, length-append buffer more))
                (omega (arith, h, length-append rest more, length-append buffer more))
          next false t (inl e) = absurd (ground arith)
          next false t (inr e) = sym (loop-closed k (buffer ++ more) t e)
