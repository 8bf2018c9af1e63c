-- ===== src/Kcp/Consume.antt =====
-- The loop over the frames of a `KcpSession`: where it stops, and that more fuel changes nothing.
use shimakaze.Common.{
  ℕ, zero, suc, ◌<◌, ◌==◌, Bool, true, false, if◌then◌else◌, List, [], ◌∷◌, ◌++◌, length, ◌≡◌, refl,
  ap, ◌∙◌, sym, arith, ◌⊎◌, inl, inr, Bool-cases,
}
use shimakaze.Crypto.Packet.{Library}
use shimakaze.Kcp.State.{
  Ikcp, Core, emit, close_handler, close_socket, cancel_timers, cancel_resolver,
}
use shimakaze.Kcp.Frame.{Received, incomplete, oversized, frame, read_frame}
use shimakaze.Kcp.Parse.{Shorter, read_frame-Shorter}
use shimakaze.Kcp.Stream.{close, handle_data_frame, handle_fin_frame}
use shimakaze.Kcp.Session.{handle_frame, round, parse_loop}

module _ {K : Type 0} (crypto : Library) (ikcp : Ikcp K) where
  abbrev pub loop : ℕ → List ℕ → Core K → List ℕ × Core K
  loop = parse_loop crypto ikcp

  -- `close` closes, whatever the state.
  pub close-closing : (s : Core K) → (close crypto ikcp s).closing ≡ true
  unfolding close
  close-closing s = go s.closing s.socket_open refl
    where
      go :
          (closing open_socket : Bool)
          → s.closing ≡ closing
          → (if closing
              then s
              else emit (close_handler s.conv) (
                  if open_socket
                  then emit close_socket (record s {
                    closing = true;
                    effects = (s.effects ++ (cancel_timers ∷ [])) ++ (cancel_resolver ∷ []);
                    socket_open = false;
                  })
                  else record s {
                    closing = true;
                    effects = (s.effects ++ (cancel_timers ∷ [])) ++ (cancel_resolver ∷ []);
                    socket_open = false;
                  })).closing
            ≡ true
      go true o e = e
      go false true e = refl
      go false false e = refl

  pub handle_frame-go_on :
      (type : ℕ) (payload : List ℕ) (s : Core K)
      → ((handle_frame crypto ikcp type payload s).0 ≡ true)
        ⊎ ((handle_frame crypto ikcp type payload s).1.closing ≡ true)
  unfolding handle_frame
  handle_frame-go_on type payload s = go (type == 1) (type == 2)
    where
      go :
          (is_data is_fin : Bool)
          → let r =
              if◌then◌else◌ {A = Bool × Core K} is_data
                (true, handle_data_frame crypto ikcp payload s)
                (if◌then◌else◌ {A = Bool × Core K} is_fin
                  (true, handle_fin_frame crypto ikcp s)
                  (false, close crypto ikcp s)) in
            (r.0 ≡ true) ⊎ (r.1.closing ≡ true)
      go true is_fin = inl refl
      go false true = inl refl
      go false false = inr (close-closing s)

  -- A closed session leaves its buffer alone.
  pub loop-closing :
      (fuel : ℕ) (buffer : List ℕ) (s : Core K)
      → s.closing ≡ true
      → loop fuel buffer s ≡ (buffer, s)
  unfolding parse_loop
  loop-closing zero buffer s c = refl
  loop-closing (suc fuel) buffer s c =
      ap
        (λ b.
          if◌then◌else◌ {A = List ℕ × Core K} b (buffer, s)
            (round crypto ikcp (loop fuel) buffer s (read_frame buffer)))
        c

  pub loop-open :
      (fuel : ℕ) (buffer : List ℕ) (s : Core K)
      → s.closing ≡ false
      → loop (suc fuel) buffer s ≡ round crypto ikcp (loop fuel) buffer s (read_frame buffer)
  unfolding parse_loop
  loop-open fuel buffer s c =
      ap
        (λ b.
          if◌then◌else◌ {A = List ℕ × Core K} b (buffer, s)
            (round crypto ikcp (loop fuel) buffer s (read_frame buffer)))
        c

  -- Any fuel above the length of the buffer gives the same.
  pub loop_fuel :
      (n m : ℕ) (buffer : List ℕ) (s : Core K)
      → length buffer < n
      → length buffer < m
      → loop n buffer s ≡ loop m buffer s
  unfolding round
  loop_fuel zero m buffer s hn hm = absurd (omega arith)
  loop_fuel (suc n) zero buffer s hn hm = absurd (omega arith)
  loop_fuel (suc n) (suc m) buffer s hn hm = elim (Bool-cases s.closing) [
    | inl c ↦ loop-closing (suc n) buffer s c ∙ sym (loop-closing (suc m) buffer s c)
    | inr c ↦
        loop-open n buffer s c
        ∙ go (read_frame buffer) (read_frame-Shorter buffer) (loop_fuel n m)
        ∙ sym (loop-open m buffer s c)
  ]
    where
      go :
          (r : Received)
          → Shorter buffer r
          → ((b : List ℕ) (t : Core K) → length b < n → length b < m → loop n b t ≡ loop m b t)
          → round crypto ikcp (loop n) buffer s r ≡ round crypto ikcp (loop m) buffer s r
      go incomplete h ih = refl
      go oversized h ih = refl
      go (frame type payload rest) h ih =
          let d = handle_frame crypto ikcp type payload s in
          ap (λ x. if◌then◌else◌ {A = List ℕ × Core K} d.0 x (buffer, d.1))
            (ih rest d.1 (omega (arith, h)) (omega (arith, h)))
