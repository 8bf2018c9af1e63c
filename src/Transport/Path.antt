-- ===== src/Transport/Path.antt =====
-- The path of a KCP packet: FEC and encryption on one side, decryption and FEC on the other.
use shimakaze.Common.{
  ℕ, ◌+◌, ◌<◌, ◌^◌, ◌||◌, Bool, true, false, if◌then◌else◌, List, [], ◌∷◌, ◌++◌, Option, none, some,
  length, ◌≡◌, ap, ◌∙◌, sym, subst, arith, append_assoc, append-nil,
}
use shimakaze.Common.Int.{below}
use shimakaze.Crypto.Packet.{Library, make_crypt, encrypt, decrypt}
use shimakaze.Crypto.Constructor.{IsLibrary}
use shimakaze.Crypto.Envelope.{nonce_bytes, open-seal}
use shimakaze.Fec.Codec
use shimakaze.Fec.Codec.{FecCodec}
use shimakaze.Fec.Decoder
use shimakaze.Fec.Exchange.{StartsWith, Delivered, decode-encode, encode-first}
use shimakaze.Smux.State.{is_empty}
use shimakaze.Kcp.State.{Ikcp}
use shimakaze.Transport.State.{
  Effect, send_to, cancel_timers, close_handler, Transport, emit, close,
}
use shimakaze.Transport.Sending.{
  enqueue_udp_packet, schedule_rate_limited_send, send_packets, send_udp,
}

module _ {K O : Type 0} (crypto : Library) (ikcp : Ikcp K) where
  -- Effects are only added.
  abbrev Adds : Transport K O → Transport K O → Type 0
  Adds s t = (more : List Effect) × (t.effects ≡ s.effects ++ more)

  close-Adds : (s : Transport K O) → Adds s (close s)
  unfolding close
  close-Adds s = go s.closing
    where
      go :
          (b : Bool)
          → Adds s (
              if b
              then s
              else emit close_handler (emit cancel_timers (record s { closing = true })))
      go true = ([], sym (append-nil s.effects))
      go false = (
        cancel_timers ∷ close_handler ∷ [],
        append_assoc s.effects (cancel_timers ∷ []) (close_handler ∷ []),
      )

  -- Without a limit a packet goes to the socket at once.
  enqueue-direct :
      (now : ℕ) (payload : List ℕ) (s : Transport K O)
      → below s.config.ratelimit 1 ≡ true
      → enqueue_udp_packet now payload s ≡ emit (send_to payload) s
  unfolding enqueue_udp_packet
  enqueue-direct now payload s direct =
      ap
        (λ b.
          if b
          then emit (send_to payload) s
          else schedule_rate_limited_send now
              (record s { pending_udp = s.pending_udp ++ (payload ∷ []) }))
        direct

  send_packets-Adds :
      (now : ℕ) (packets : List (List ℕ)) (s : Transport K O)
      → below s.config.ratelimit 1 ≡ true
      → Adds s (send_packets crypto ikcp now packets s)
  unfolding send_packets
  send_packets-Adds now [] s direct = ([], sym (append-nil s.effects))
  send_packets-Adds now (packet ∷ packets) s direct =
      go (encrypt crypto s.crypt (s.draw s.drawn) packet) (send_packets-Adds now packets)
    where
      drawn : Transport K O
      drawn = record s { drawn = s.drawn + 1 }

      go :
          (o : Option (List ℕ))
          → ((t : Transport K O)
              → below t.config.ratelimit 1 ≡ true
              → Adds t (send_packets crypto ikcp now packets t))
          → Adds s (elim o as (λ x. Transport K O) [
            | none ↦ close drawn
            | some payload ↦
                send_packets crypto ikcp now packets (enqueue_udp_packet now payload drawn)
          ])
      go none ih = close-Adds drawn
      go (some payload) ih =
          let rest = ih (emit (send_to payload) drawn) direct in
          (
            send_to payload ∷ rest.0,
            ap (λ t. (send_packets crypto ikcp now packets t).effects)
                  (enqueue-direct now payload drawn direct)
                ∙ rest.1
                ∙ append_assoc s.effects (send_to payload ∷ []) rest.0,
          )

  -- The first packet of `send_packets`, with its seal.
  send_packets-first :
      (now : ℕ) (first : List ℕ) (parity : List (List ℕ)) (sealed : List ℕ) (s : Transport K O)
      → below s.config.ratelimit 1 ≡ true
      → encrypt crypto s.crypt (s.draw s.drawn) first ≡ some sealed
      → (more : List Effect) × ((send_packets crypto ikcp now (first ∷ parity) s).effects
          ≡ s.effects ++ (send_to sealed ∷ more))
  unfolding send_packets
  send_packets-first now first parity sealed s direct e =
      let rest = send_packets-Adds now parity (emit (send_to sealed) drawn) direct in
      (
        rest.0,
        ap
              (λ (o : Option (List ℕ)).
                (elim o as (λ x. Transport K O) [
                  | none ↦ close drawn
                  | some payload ↦
                      send_packets crypto ikcp now parity (enqueue_udp_packet now payload drawn)
                ]).effects)
              e
            ∙ ap (λ t. (send_packets crypto ikcp now parity t).effects)
                (enqueue-direct now sealed drawn direct)
            ∙ rest.1
            ∙ append_assoc s.effects (send_to sealed ∷ []) rest.0,
      )
    where
      drawn : Transport K O
      drawn = record s { drawn = s.drawn + 1 }

  -- The datagram that the sender puts out first is the seal of the first packet of its codec.
  unfoldable pub Sealed : ℕ → List ℕ → Transport K O → Transport K O → Type 0
  Sealed millis p s t =
      (sealed : List ℕ) × (first : List ℕ) × (parity : List (List ℕ)) × (more : List Effect)
      × ((Codec.encode millis p s.fec).0 ≡ first ∷ parity)
      × (t.effects ≡ s.effects ++ (send_to sealed ∷ more))
      × (decrypt crypto s.crypt sealed ≡ some first)

  pub send_udp-Sealed :
      (laws : IsLibrary crypto) (key method : List ℕ) (now millis : ℕ) (p : List ℕ)
      (s : Transport K O)
      → make_crypt crypto key method ≡ some s.crypt
      → length (s.draw s.drawn) ≡ nonce_bytes s.crypt.method
      → length p + 8 < 2 ^ 31
      → 0 < length p
      → below s.config.ratelimit 1 ≡ true
      → s.closing ≡ false
      → Sealed millis p s (send_udp crypto ikcp now millis p s)
  unfolding send_udp Sealed
  send_udp-Sealed laws key method now millis p s made size fits some_bytes direct still =
      let sender : Transport K O = record s { fec = (Codec.encode millis p s.fec).1 } in
      let (first, parity, shape, small) = encode-first millis p s.fec in
      let (sealed, sealing, longer, opening) =
        open-seal crypto laws key method (s.draw s.drawn) first made size
          (omega (arith, small, fits)) in
      let (more, sent) = send_packets-first now first parity sealed sender direct sealing in
      let taken : (s.closing || is_empty p) ≡ false = not_passed_over p some_bytes still in
      (
        sealed,
        first,
        parity,
        more,
        shape,
        ap
              (λ b.
                (if◌then◌else◌ {A = Transport K O} b s
                  (send_packets crypto ikcp now (Codec.encode millis p s.fec).0 sender)).effects)
              taken
            ∙ ap (λ packets. (send_packets crypto ikcp now packets sender).effects) shape
            ∙ sent,
        opening,
      )
    where
      not_passed_over :
          (p : List ℕ) → 0 < length p → s.closing ≡ false → (s.closing || is_empty p) ≡ false
      not_passed_over [] h e = absurd (omega arith)
      not_passed_over (b ∷ bs) h e = ap (λ c. c || false) e

  -- The datagram that the sender puts out first for a KCP packet, decrypted and decoded by a receiver with the
  -- same crypt: the codec throws or gives the KCP packet first.
  unfoldable pub Reaches : List ℕ → FecCodec → Transport K O → Transport K O → Type 0
  Reaches p r s t =
      (sealed : List ℕ) × (first : List ℕ) × (more : List Effect) × (t.effects
        ≡ s.effects ++ (send_to sealed ∷ more))
      × (decrypt crypto s.crypt sealed ≡ some first)
      × StartsWith p (Decoder.decode first r).0

  -- From end to end: an open transport without a rate limit whose crypt the constructor made, and a random
  -- nonce of its size. The first new datagram of `send_udp`, for a KCP packet that is not empty and fits, opens
  -- at a receiver with the same crypt, and the receiver's codec, enabled as the sender's is, throws or gives the
  -- KCP packet first. With Crypto++ doing what `IsLibrary` says.
  pub send_udp-Reaches :
      (laws : IsLibrary crypto) (key method : List ℕ) (now millis : ℕ) (p : List ℕ) (r : FecCodec)
      (s : Transport K O)
      → make_crypt crypto key method ≡ some s.crypt
      → length (s.draw s.drawn) ≡ nonce_bytes s.crypt.method
      → length p + 8 < 2 ^ 31
      → 0 < length p
      → below s.config.ratelimit 1 ≡ true
      → s.closing ≡ false
      → s.fec.enabled ≡ r.enabled
      → Reaches p r s (send_udp crypto ikcp now millis p s)
  unfolding Sealed Reaches Delivered
  send_udp-Reaches laws key method now millis p r s made size fits some_bytes direct still same =
      let (sealed, first, parity, more, shape, sent, opening) =
        send_udp-Sealed laws key method now millis p s made size fits some_bytes direct still in
      (
        sealed,
        first,
        more,
        sent,
        opening,
        (subst (Delivered p s.fec r) shape (decode-encode millis p s.fec r same)).0,
      )
