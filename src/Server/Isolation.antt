-- ===== src/Server/Isolation.antt =====
-- A packet leaves the sessions of other endpoints alone.
use shimakaze.Common.{
  ℕ, ◌+◌, ◌^◌, ◌<◌, ltb, ◌&&◌, not, true, false, List, Option, none, some, length, drop, inl, inr,
  ◌≡◌, ◌≢◌, refl, ◌∙◌, sym, subst, arith, either,
}
use shimakaze.Config.Base.{BaseConfig}
use shimakaze.Crypto.Packet.{PacketCrypt, decrypt}
use shimakaze.Fec.Codec.{fec_kcp_payload_offset}
use shimakaze.Wire.Codec.{read_le32}
use shimakaze.Smux.State.{Stream}
use shimakaze.Endpoint.{
  Endpoint, Addresses, IsAddresses, Differs, same_endpoint, endpoint_key, endpoint_key-endpoint,
}
use shimakaze.Tunnel
use shimakaze.Tunnel.{Tunnel, Libraries, Moment, make_tunnel}
use shimakaze.Tunnel.Keeps.{Holds}
use shimakaze.Server.Listener.{
  SessionEntry, Listener, find, replace, Search, nobody, single, several, search, on_close,
  update_session, count_error, with_session, deliver, route_parity, route, route_decoded,
  handle_decoded, handle_packet,
}
use shimakaze.Server.Table.{find-cons_ne, find-All, find-replace_ne, find-erase_ne}
use shimakaze.Server.Sessions.{IsKeyed, IsListener, search-single}

module _ {A K : Type 0} (addresses : Addresses A) (libs : Libraries K) (m : Moment)
    (config : BaseConfig) (crypt : PacketCrypt) (accept : Stream → Stream) (draw : ℕ → List ℕ)
    (fuel : ℕ) where
  -- The entry of a key is what it was.
  abbrev pub Untouched : List ℕ → Listener A K → Listener A K → Type 0
  Untouched k l t = find k t.sessions ≡ find k l.sessions

  update_session-Untouched :
      (key k : List ℕ) (e : SessionEntry A K) (t : Tunnel K) (l : Listener A K)
      → key ≢ k
      → Untouched k l (update_session key e t l)
  unfolding update_session on_close
  update_session-Untouched key k e t l other =
      either (Untouched k l) (t.closing && not e.tunnel.closing) _ _
        (find-erase_ne key k (replace key (record e { tunnel = t }) l.sessions) other
          ∙ find-replace_ne key k (record e { tunnel = t }) l.sessions other)
        (find-replace_ne key k (record e { tunnel = t }) l.sessions other)

  deliver-Untouched :
      (key k : List ℕ) (e : SessionEntry A K) (plain : List ℕ) (l : Listener A K)
      → key ≢ k
      → Holds (Untouched k l) (deliver addresses libs m config crypt accept draw fuel key e plain l)
  unfolding deliver
  deliver-Untouched key k e plain l other = go (Tunnel.input libs m fuel plain e.tunnel)
    where
      go :
          (o : Option (Tunnel K))
          → Holds (Untouched k l) (elim o as (λ x. Option (Listener A K)) [
            | none ↦ none
            | some t ↦ some (update_session key e t l)
          ])
      go none = tt
      go (some t) = update_session-Untouched key k e t l other

  module _ (laws : IsAddresses addresses) (sender : Endpoint A) (port : sender.port < 2 ^ 16)
      (l : Listener A K) {others : ℕ} (h : IsListener addresses others l) (k : List ℕ)
      (e : SessionEntry A K) (there : find k l.sessions ≡ some e)
      (differs : Differs e.remote_endpoint sender) where
    keyed : IsKeyed addresses (k, e)
    keyed = find-All (IsKeyed addresses) k l.sessions there h.keyed

    key_ne :
        (f : Endpoint A) (conv : ℕ)
        → f.port < 2 ^ 16
        → (f.address ≡ sender.address) × (f.port ≡ sender.port)
        → endpoint_key addresses f conv ≢ k
    key_ne f conv small is_sender q = clash differs (
        endpoint_key-endpoint addresses laws f e.remote_endpoint conv e.tunnel.conv small keyed.2
          (q ∙ keyed.0))
      where
        clash :
            Differs e.remote_endpoint sender
            → (f.address ≡ e.remote_endpoint.address) × (f.port ≡ e.remote_endpoint.port)
            → ⊥
        clash (inl d) s = d (sym s.0 ∙ is_sender.0)
        clash (inr d) s = d (sym s.1 ∙ is_sender.1)

    route_parity-Untouched :
        (plain : List ℕ)
        → Holds
            (Untouched k l)
            (route_parity addresses libs m config crypt accept draw fuel sender plain l)
    unfolding route_parity
    route_parity-Untouched plain = go (search addresses sender nobody l.sessions) refl
      where
        IsNobody : Search (SessionEntry A K) → Type 0
        IsNobody nobody = Unit {0}
        IsNobody (single j y) = ⊥
        IsNobody several = ⊥

        of_sender :
            (key : List ℕ) (e' : SessionEntry A K)
            → find key l.sessions ≡ some e'
            → same_endpoint addresses e'.remote_endpoint sender ≡ true
            → key ≢ k
        of_sender key e' found s q =
            let this : IsKeyed addresses (key, e') =
              find-All (IsKeyed addresses) key l.sessions found h.keyed in
            key_ne e'.remote_endpoint e'.tunnel.conv this.2
              (
                (laws.same_address_iff e'.remote_endpoint.address sender.address).0
                    (ground (arith, s)),
                ground (arith, s),
              )
              (sym this.0 ∙ q)

        go :
            (s : Search (SessionEntry A K))
            → search addresses sender nobody l.sessions ≡ s
            → Holds (Untouched k l) (elim s as (λ x. Option (Listener A K)) [
              | nobody ↦ some l
              | single key e' ↦
                  deliver addresses libs m config crypt accept draw fuel key e' plain l
              | several ↦ some l
            ])
        go nobody q = refl
        go several q = refl
        go (single key e') q =
            elim (search-single addresses sender nobody l.sessions key e' h.distinct q) [
              | inl this ↦ absurd (subst IsNobody this tt)
              | inr found ↦ deliver-Untouched key k e' plain l (of_sender key e' found.0 found.1)
            ]

    route-Untouched :
        (conv : ℕ) (plain : List ℕ)
        → Holds
            (Untouched k l)
            (route addresses libs m config crypt accept draw fuel sender conv plain l)
    unfolding route
    route-Untouched conv plain = go (find key l.sessions)
      where
        key : List ℕ
        key = endpoint_key addresses sender conv

        other : key ≢ k
        other = key_ne sender conv port (refl, refl)

        entry : Tunnel K → SessionEntry A K
        entry t = record { remote_endpoint = sender; tunnel = t }

        wider : Tunnel K → Listener A K
        wider t = with_session addresses libs m config crypt accept draw fuel key (entry t) l

        make :
            (o : Option (Tunnel K))
            → Holds (Untouched k l) (elim o as (λ x. Option (Listener A K)) [
              | none ↦ none
              | some t ↦
                  deliver addresses libs m config crypt accept draw fuel key
                    (entry t)
                    plain
                    (wider t)
            ])
        make none = tt
        make (some t) =
            subst
              (λ v.
                Holds (λ (u : Listener A K). find k u.sessions ≡ v)
                  (deliver addresses libs m config crypt accept draw fuel key (entry t) plain
                    (wider t)))
              (find-cons_ne key k (entry t) l.sessions other)
              (deliver-Untouched key k (entry t) plain (wider t) other)

        go :
            (o : Option (SessionEntry A K))
            → Holds (Untouched k l) (elim o as (λ x. Option (Listener A K)) [
              | some e' ↦ deliver addresses libs m config crypt accept draw fuel key e' plain l
              | none ↦ elim (make_tunnel libs m conv config false (some accept) draw) [
                | none ↦ none
                | some t ↦
                    deliver addresses libs m config crypt accept draw fuel key
                      (entry t)
                      plain
                      (wider t)
              ]
            ])
        go (some e') = deliver-Untouched key k e' plain l other
        go none = make (make_tunnel libs m conv config false (some accept) draw)

    handle_packet-Holds :
        (bytes : List ℕ)
        → Holds
            (Untouched k l)
            (handle_packet addresses libs m config crypt accept draw fuel sender bytes l)
    unfolding handle_packet
    handle_packet-Holds bytes = opened (decrypt libs.crypto crypt bytes)
      where
        routed :
            (plain : List ℕ) (o : Option ℕ)
            → Holds
                (Untouched k l)
                (route_decoded addresses libs m config crypt accept draw fuel sender plain o l)
        routed plain none = route_parity-Untouched plain
        routed plain (some offset) =
            either (Holds (Untouched k l)) (ltb (length plain) (offset + 4)) (some l) _ refl
              (route-Untouched (read_le32 (drop offset plain)) plain)

        opened :
            (o : Option (List ℕ))
            → Holds
                (Untouched k l)
                (handle_decoded addresses libs m config crypt accept draw fuel sender o l)
        opened none = refl
        opened (some plain) =
            either (Holds (Untouched k l)) (ltb (length plain) 4) (some (count_error l)) _ refl
              (routed plain (fec_kcp_payload_offset plain))

  -- A packet leaves the sessions of other endpoints alone: whatever its bytes, a session whose endpoint differs from
  -- the sender in its address or its port is after `handle_packet` the one it was under its key, with the same tunnel,
  -- when no exception leaves it. In a listener with `IsListener`, for a sender with a port of 16 bits, where the
  -- library has what `IsAddresses` says.
  pub handle_packet-Untouched :
      (laws : IsAddresses addresses) (sender : Endpoint A) (bytes : List ℕ) (l : Listener A K)
      (k : List ℕ) (e : SessionEntry A K) {others : ℕ} {t : Listener A K}
      → sender.port < 2 ^ 16
      → IsListener addresses others l
      → find k l.sessions ≡ some e
      → Differs e.remote_endpoint sender
      → handle_packet addresses libs m config crypt accept draw fuel sender bytes l ≡ some t
      → find k t.sessions ≡ some e
  handle_packet-Untouched laws sender bytes l k e {others} {t} port h there differs given =
      subst (Holds (Untouched k l)) given
        (handle_packet-Holds laws sender port l h k e there differs bytes)
      ∙ there
