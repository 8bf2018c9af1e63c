-- ===== src/Server/Routing.antt =====
-- What the first datagram of a KCP packet does at the server.
use mathlib.Core.Option.{some-injective}
use shimakaze.Common.{
  ℕ, ◌+◌, ◌<◌, ◌≤◌, ◌^◌, ltb, true, false, if◌then◌else◌, List, ◌∷◌, ◌++◌, Option, none, some,
  length, drop, length-drop, inl, inr, ◌≡◌, ◌⊎◌, ap, ◌∙◌, sym, subst, arith,
}
use shimakaze.Common.Int.{below}
use shimakaze.Config.Base.{BaseConfig}
use shimakaze.Crypto.Packet.{PacketCrypt, make_crypt, decrypt}
use shimakaze.Crypto.Constructor.{IsLibrary}
use shimakaze.Crypto.Envelope.{nonce_bytes}
use shimakaze.Fec.Decoder
use shimakaze.Fec.Codec.{fec_kcp_payload_offset}
use shimakaze.Fec.Exchange.{StartsWith, Delivered, decode-encode}
use shimakaze.Wire.Codec.{read_le32}
use shimakaze.Smux.State.{Stream}
use shimakaze.Kcp.State.{Ikcp}
use shimakaze.Transport.State.{Effect, send_to, Transport}
use shimakaze.Transport.Sending.{send_udp}
use shimakaze.Transport.Path.{Sealed, send_udp-Sealed}
use shimakaze.Endpoint.{Endpoint, Addresses, endpoint_key}
use shimakaze.Tunnel.{Libraries, Moment, make_tunnel}
use shimakaze.Server.Listener.{
  SessionEntry, Listener, find, count_error, with_session, deliver, route, route_decoded,
  handle_decoded, handle_packet,
}

module _ {A K : Type 0} (addresses : Addresses A) (libs : Libraries K) (m : Moment)
    (config : BaseConfig) (crypt : PacketCrypt) (accept : Stream → Stream) (draw : ℕ → List ℕ)
    (fuel : ℕ) where
  -- A sealed packet whose KCP packet stands behind eight bytes goes to the session of its conversation.
  handle_packet-deliver :
      (from : Endpoint A) (sealed first p : List ℕ) (e : SessionEntry A K) (l : Listener A K)
      → decrypt libs.crypto crypt sealed ≡ some first
      → fec_kcp_payload_offset first ≡ some 8
      → drop 8 first ≡ p
      → 4 ≤ length p
      → find (endpoint_key addresses from (read_le32 p)) l.sessions ≡ some e
      → handle_packet addresses libs m config crypt accept draw fuel from sealed l
        ≡ deliver addresses libs m config crypt accept draw fuel
            (endpoint_key addresses from (read_le32 p))
            e
            first
            l
  unfolding handle_packet route
  handle_packet-deliver from sealed first p e l opens offset body long there =
      ap (λ o. handle_decoded addresses libs m config crypt accept draw fuel from o l) opens
      ∙ ap (λ b. if b then some (count_error l) else decoded (fec_kcp_payload_offset first))
          no_error
      ∙ ap decoded offset
      ∙ ap (λ b. if b then some l else routed (drop 8 first)) reaches
      ∙ ap routed body
      ∙ ap taken there
    where
      enough : 12 ≤ length first
      enough = omega (arith, long, ap length body, length-drop 8 first)

      no_error : ltb (length first) 4 ≡ false
      no_error = ground (arith, enough)

      reaches : ltb (length first) (8 + 4) ≡ false
      reaches = ground (arith, enough)

      decoded : Option ℕ → Option (Listener A K)
      decoded o = route_decoded addresses libs m config crypt accept draw fuel from first o l

      routed : List ℕ → Option (Listener A K)
      routed bytes =
          route addresses libs m config crypt accept draw fuel from (read_le32 bytes) first l

      key : List ℕ
      key = endpoint_key addresses from (read_le32 p)

      taken : Option (SessionEntry A K) → Option (Listener A K)
      taken o = elim o [
        | some entry ↦ deliver addresses libs m config crypt accept draw fuel key entry first l
        | none ↦ elim (make_tunnel libs m (read_le32 p) config false (some accept) draw) [
          | none ↦ none
          | some t ↦
              deliver addresses libs m config crypt accept draw fuel key
                (record { remote_endpoint = from; tunnel = t }) first
                (with_session addresses libs m config crypt accept draw fuel key
                  (record { remote_endpoint = from; tunnel = t }) l)
        ]
      ]

  -- A session takes the first new datagram of a transport, which holds `p` behind eight bytes, and decodes it.
  unfoldable pub Routed :
      {C O : Type 0}
      → Endpoint A
      → List ℕ
      → SessionEntry A K
      → Listener A K
      → Transport C O
      → Transport C O
      → Type 0
  Routed from p e l s t =
      (sealed : List ℕ) × (first : List ℕ) × (more : List Effect) × (t.effects
        ≡ s.effects ++ (send_to sealed ∷ more))
      × (drop 8 first ≡ p)
      × StartsWith p (Decoder.decode first e.tunnel.fec).0
      × (handle_packet addresses libs m config crypt accept draw fuel from sealed l
          ≡ deliver addresses libs m config crypt accept draw fuel
              (endpoint_key addresses from (read_le32 p)) e first l)

  -- From the client's KCP to the session: an open transport with forward error correction and without a rate
  -- limit, a listener whose crypt the constructor made of the same key and method name, and a random nonce of its
  -- size. The first new datagram of `send_udp`, for a KCP packet of four bytes or more that fits, makes
  -- `handle_packet` hand the decrypted packet to the session under the sender and the conversation in the KCP
  -- packet, where there is one that has forward error correction too. The KCP packet is what stands behind eight
  -- bytes, and the codec of the session throws or gives it first. With Crypto++ doing what `IsLibrary` says.
  pub send_udp-Routed :
      {C O : Type 0} (ikcp : Ikcp C) (laws : IsLibrary libs.crypto) (key method : List ℕ)
      (now millis : ℕ) (from : Endpoint A) (p : List ℕ) (e : SessionEntry A K) (l : Listener A K)
      (s : Transport C O)
      → make_crypt libs.crypto key method ≡ some crypt
      → make_crypt libs.crypto key method ≡ some s.crypt
      → length (s.draw s.drawn) ≡ nonce_bytes s.crypt.method
      → length p + 8 < 2 ^ 31
      → 4 ≤ length p
      → below s.config.ratelimit 1 ≡ true
      → s.closing ≡ false
      → s.fec.enabled ≡ true
      → e.tunnel.fec.enabled ≡ true
      → find (endpoint_key addresses from (read_le32 p)) l.sessions ≡ some e
      → Routed from p e l s (send_udp libs.crypto ikcp now millis p s)
  unfolding Routed Sealed Delivered
  send_udp-Routed {C} {O} ikcp laws key method now millis from p e l s made made' size fits long
        direct still works same there =
      let (sealed, first, parity, more, shape, sent, opening) =
        send_udp-Sealed libs.crypto ikcp laws key method now millis p s made' size fits
          (omega (arith, long)) direct still in
      let (starts, framed) =
        subst (Delivered p s.fec e.tunnel.fec) shape
          (decode-encode millis p s.fec e.tunnel.fec (works ∙ sym same)) in
      let (offset, body) = with_header framed in
      (
        sealed,
        first,
        more,
        sent,
        body,
        starts,
        handle_packet-deliver from sealed first p e l
            (ap (λ c. decrypt libs.crypto c sealed)
                (some-injective crypt s.crypt (sym made ∙ made'))
              ∙ opening)
            offset body long there,
      )
    where
      with_header : {P : Type 0} → (s.fec.enabled ≡ false) ⊎ P → P
      with_header (inl off) = absurd (ground (arith, works, off))
      with_header (inr h) = h
