-- ===== src/Server/Packets.antt =====
-- What a packet does to the sessions of a listener.
use shimakaze.Common.{
  ℕ, ◌+◌, ◌^◌, ◌<◌, ltb, false, List, Option, none, some, length, drop, inl, inr, ◌≡◌, ◌≢◌, refl,
  ap, ◌∙◌, sym, subst, arith, either,
}
use shimakaze.Config.Base.{BaseConfig}
use shimakaze.Crypto.Packet.{PacketCrypt, decrypt}
use shimakaze.Fec.Codec.{fec_kcp_payload_offset}
use shimakaze.Wire.Codec.{read_le32}
use shimakaze.Smux.State.{Stream}
use shimakaze.Stats.Counters.{SnmpField, index_of, curr_estab, in_csum_errors, snmp_add}
use shimakaze.Stats.Gauges.{
  length-snmp_add, gauge-snmp_add_ne, length-snmp_connection_open, curr_estab-snmp_connection_open,
}
use shimakaze.Endpoint.{Endpoint, Addresses, endpoint_key}
use shimakaze.Tunnel
use shimakaze.Tunnel.{Tunnel, Libraries, Moment, Event, make_tunnel, on_event}
use shimakaze.Tunnel.Keeps.{Holds, input-Keeps, IsNew, make_tunnel-IsNew}
use shimakaze.Server.Listener.{
  SessionEntry, Listener, find, Search, nobody, single, several, search, update_session,
  count_error, with_session, deliver, route_parity, route, route_decoded, handle_decoded,
  handle_packet,
}
use shimakaze.Server.Table.{find-first}
use shimakaze.Server.Sessions.{IsListener, search-single, update_session-IsListener}

module _ {A K : Type 0} (addresses : Addresses A) (others : ℕ) (libs : Libraries K) (m : Moment)
    (config : BaseConfig) (crypt : PacketCrypt) (accept : Stream → Stream) (draw : ℕ → List ℕ)
    (fuel : ℕ) where
  deliver-IsListener :
      (key : List ℕ) (e : SessionEntry A K) (packet : List ℕ) (l : Listener A K)
      → IsListener addresses others l
      → find key l.sessions ≡ some e
      → Holds
          (IsListener addresses others)
          (deliver addresses libs m config crypt accept draw fuel key e packet l)
  unfolding deliver
  deliver-IsListener key e packet l h there = go (Tunnel.input libs m fuel packet e.tunnel) refl
    where
      go :
          (o : Option (Tunnel K))
          → Tunnel.input libs m fuel packet e.tunnel ≡ o
          → Holds (IsListener addresses others) (elim o as (λ x. Option (Listener A K)) [
            | none ↦ none
            | some t ↦ some (update_session key e t l)
          ])
      go none q = tt
      go (some t) q =
          update_session-IsListener addresses others key e t l h there
            (input-Keeps libs m fuel packet e.tunnel q).0

  route_parity-IsListener :
      (sender : Endpoint A) (packet : List ℕ) (l : Listener A K)
      → IsListener addresses others l
      → Holds
          (IsListener addresses others)
          (route_parity addresses libs m config crypt accept draw fuel sender packet l)
  unfolding route_parity
  route_parity-IsListener sender packet l h = go (search addresses sender nobody l.sessions) refl
    where
      IsNobody : Search (SessionEntry A K) → Type 0
      IsNobody nobody = Unit {0}
      IsNobody (single j y) = ⊥
      IsNobody several = ⊥

      go :
          (s : Search (SessionEntry A K))
          → search addresses sender nobody l.sessions ≡ s
          → Holds (IsListener addresses others) (elim s as (λ x. Option (Listener A K)) [
            | nobody ↦ some l
            | single key e ↦ deliver addresses libs m config crypt accept draw fuel key e packet l
            | several ↦ some l
          ])
      go nobody q = h
      go several q = h
      go (single key e) q =
          elim (search-single addresses sender nobody l.sessions key e h.distinct q) [
            | inl this ↦ absurd (subst IsNobody this tt)
            | inr found ↦ deliver-IsListener key e packet l h found.0
          ]

  pub route-IsListener :
      (sender : Endpoint A) (conv : ℕ) (packet : List ℕ) (l : Listener A K)
      → IsListener addresses others l
      → sender.port < 2 ^ 16
      → length l.sessions + others + 1 < 2 ^ 64
      → Holds
          (IsListener addresses others)
          (route addresses libs m config crypt accept draw fuel sender conv packet l)
  unfolding route
  route-IsListener sender conv packet l h port room = go (find key l.sessions) refl
    where
      key : List ℕ
      key = endpoint_key addresses sender conv

      entry : Tunnel K → SessionEntry A K
      entry t = record { remote_endpoint = sender; tunnel = t }

      added :
          (t : Tunnel K)
          → IsNew libs m conv t
          → find key l.sessions ≡ none
          → IsListener addresses others
              (with_session addresses libs m config crypt accept draw fuel key (entry t) l)
      added t new absent = record {
        keyed = ((ap (endpoint_key addresses sender) (sym new.0), new.1, port), h.keyed);
        distinct = (absent, h.distinct);
        sized = length-snmp_connection_open false l.stats ∙ h.sized;
        counted =
            curr_estab-snmp_connection_open false l.stats h.sized (omega (arith, h.counted, room))
            ∙ omega (arith, h.counted);
      }

      make :
          (o : Option (Tunnel K))
          → make_tunnel libs m conv config false (some accept) draw ≡ o
          → find key l.sessions ≡ none
          → Holds (IsListener addresses others) (elim o as (λ x. Option (Listener A K)) [
            | none ↦ none
            | some t ↦
                deliver addresses libs m config crypt accept draw fuel key
                  (entry t)
                  packet
                  (with_session addresses libs m config crypt accept draw fuel key (entry t) l)
          ])
      make none q absent = tt
      make (some t) q absent =
          deliver-IsListener key (entry t) packet _
            (added t (make_tunnel-IsNew libs m conv config false (some accept) draw q) absent)
            (find-first key (entry t) l.sessions)

      go :
          (o : Option (SessionEntry A K))
          → find key l.sessions ≡ o
          → Holds (IsListener addresses others) (elim o as (λ x. Option (Listener A K)) [
            | some e ↦ deliver addresses libs m config crypt accept draw fuel key e packet l
            | none ↦ elim (make_tunnel libs m conv config false (some accept) draw) [
              | none ↦ none
              | some t ↦
                  deliver addresses libs m config crypt accept draw fuel key
                    (entry t)
                    packet
                    (with_session addresses libs m config crypt accept draw fuel key (entry t) l)
            ]
          ])
      go (some e) q = deliver-IsListener key e packet l h q
      go none q = make (make_tunnel libs m conv config false (some accept) draw) refl q

  -- A counter other than `CurrEstab` is not the listener's concern.
  pub counted-IsListener :
      (f : SnmpField) (n : ℕ) (l : Listener A K)
      → index_of f ≢ 5
      → IsListener addresses others l
      → IsListener addresses others (record l { stats = snmp_add f n l.stats })
  counted-IsListener f n l other h = record {
    keyed = h.keyed;
    distinct = h.distinct;
    sized = length-snmp_add f n l.stats ∙ h.sized;
    counted = gauge-snmp_add_ne f curr_estab n l.stats other ∙ h.counted;
  }

  pub handle_packet-IsListener :
      (sender : Endpoint A) (bytes : List ℕ) (l : Listener A K)
      → IsListener addresses others l
      → sender.port < 2 ^ 16
      → length l.sessions + others + 1 < 2 ^ 64
      → Holds
          (IsListener addresses others)
          (handle_packet addresses libs m config crypt accept draw fuel sender bytes l)
  unfolding handle_packet
  handle_packet-IsListener sender bytes l h port room = opened (decrypt libs.crypto crypt bytes)
    where
      error : IsListener addresses others (count_error l)
      error = counted-IsListener in_csum_errors 1 l (omega arith) h

      routed :
          (plain : List ℕ) (o : Option ℕ)
          → Holds
              (IsListener addresses others)
              (route_decoded addresses libs m config crypt accept draw fuel sender plain o l)
      routed plain none = route_parity-IsListener sender plain l h
      routed plain (some offset) =
          either (Holds (IsListener addresses others)) (ltb (length plain) (offset + 4)) (some l) _
            h (route-IsListener sender (read_le32 (drop offset plain)) plain l h port room)

      opened :
          (o : Option (List ℕ))
          → Holds
              (IsListener addresses others)
              (handle_decoded addresses libs m config crypt accept draw fuel sender o l)
      opened none = error
      opened (some plain) =
          either (Holds (IsListener addresses others)) (ltb (length plain) 4) (some (count_error l))
            _ error (routed plain (fec_kcp_payload_offset plain))
