-- ===== src/Server/Listener.antt =====
-- `Server::UdpListener`: its sessions by their keys, and what it does with a packet. The logging is left out.
use shimakaze.Common.{
  ℕ, ◌+◌, ltb, not, ◌&&◌, false, if◌then◌else◌, List, [], ◌∷◌, Option, none, some, length, drop,
}
use shimakaze.Common.Text.{same}
use shimakaze.Config.Base.{BaseConfig}
use shimakaze.Crypto.Packet.{PacketCrypt, decrypt}
use shimakaze.Fec.Codec.{fec_kcp_payload_offset}
use shimakaze.Wire.Codec.{read_le32}
use shimakaze.Smux.State.{Stream}
use shimakaze.Stats.Counters.{
  Counters, snmp_add, snmp_connection_open, snmp_connection_close, in_pkts, in_bytes, in_errs,
  in_csum_errors,
}
use shimakaze.Endpoint.{Endpoint, Addresses, same_endpoint, endpoint_key}
use shimakaze.Tunnel
use shimakaze.Tunnel.{Tunnel, Libraries, Moment, Event, make_tunnel, on_event}

-- `SessionEntry`, with the `remote_endpoint_` of its transport.
pub record SessionEntry (A K : Type 0) : Type 0 where
  pub remote_endpoint : Endpoint A
  pub tunnel : Tunnel K

-- `ended` has the sessions that were erased: only their own handlers hold them.
pub record UdpListener (A K : Type 0) : Type 0 where
  pub sessions : List (List ℕ × SessionEntry A K)
  pub ended : List (SessionEntry A K)

-- A listener while one of its handlers runs: its own fields, and the counters of the process, which it does not
-- own: all listeners change the same ones, in turn.
pub record Listener (A K : Type 0) : Type 0 where
  pub sessions : List (List ℕ × SessionEntry A K)
  pub ended : List (SessionEntry A K)
  pub stats : Counters

module _ {ℓ} {V : Type ℓ} where
  unfoldable pub find : List ℕ → List (List ℕ × V) → Option V
  find key [] = none
  find key ((k, v) ∷ rest) = let later = find key rest in if same k key then some v else later

  unfoldable pub replace : List ℕ → V → List (List ℕ × V) → List (List ℕ × V)
  replace key w [] = []
  replace key w ((k, v) ∷ rest) =
      let rest' = replace key w rest in if same k key then (k, w) ∷ rest else (k, v) ∷ rest'

  unfoldable pub erase : List ℕ → List (List ℕ × V) → List (List ℕ × V)
  erase key [] = []
  erase key ((k, v) ∷ rest) =
      let rest' = erase key rest in if same k key then rest else (k, v) ∷ rest'

-- How the search for the session of a packet that bears no conversation ends.
pub data Search (V : Type 0) : Type 0 where
  nobody : Search V
  single : List ℕ → V → Search V
  several : Search V

module _ {A K : Type 0} (addresses : Addresses A) where
  -- The loop over the sessions, with the target that it has.
  unfoldable pub search :
      Endpoint A
      → Search (SessionEntry A K)
      → List (List ℕ × SessionEntry A K)
      → Search (SessionEntry A K)
  search sender target [] = target
  search sender nobody ((k, e) ∷ rest) =
      search sender
        (if same_endpoint addresses e.remote_endpoint sender then single k e else nobody) rest
  search sender (single key entry) ((k, e) ∷ rest) =
      search sender
        (if same_endpoint addresses e.remote_endpoint sender then several else single key entry)
        rest
  search sender several ((k, e) ∷ rest) = several

module _ {A K : Type 0} where
  -- The close handler of a transport.
  unfoldable pub on_close : List ℕ → SessionEntry A K → Listener A K → Listener A K
  unfolding erase
  on_close key entry l = record l {
    sessions = erase key l.sessions;
    ended = entry ∷ l.ended;
    stats = snmp_connection_close l.stats;
  }

  -- A session after a handler, which calls the close handler where it closes the transport.
  unfoldable pub update_session : List ℕ → SessionEntry A K → Tunnel K → Listener A K → Listener A K
  unfolding on_close replace
  update_session key entry t l =
      let entry' = record entry { tunnel = t } in
      let l' = record l { sessions = replace key entry' l.sessions } in
      if t.closing && not entry.tunnel.closing then on_close key entry' l' else l'

  unfoldable pub count_error : Listener A K → Listener A K
  count_error l = record l { stats = snmp_add in_csum_errors 1 l.stats }

-- `accept` is the accept handler of a new session, `draw` gives its random bytes, and `fuel` is for the messages
-- that wait in KCP.
module _ {A K : Type 0} (addresses : Addresses A) (libs : Libraries K) (m : Moment)
    (config : BaseConfig) (crypt : PacketCrypt) (accept : Stream → Stream) (draw : ℕ → List ℕ)
    (fuel : ℕ) where
  -- An exception leaves the handler: `none`.
  unfoldable pub deliver : List ℕ → SessionEntry A K → List ℕ → Listener A K → Option (Listener A K)
  unfolding update_session
  deliver key entry packet l = elim (Tunnel.input libs m fuel packet entry.tunnel) [
    | none ↦ none
    | some t ↦ some (update_session key entry t l)
  ]

  -- A packet without a conversation goes to the session of its sender, if there is one only.
  unfoldable pub route_parity : Endpoint A → List ℕ → Listener A K → Option (Listener A K)
  unfolding search deliver
  route_parity sender packet l = elim (search addresses sender nobody l.sessions) [
    | nobody ↦ some l
    | single key entry ↦ deliver key entry packet l
    | several ↦ some l
  ]

  abbrev pub with_session : List ℕ → SessionEntry A K → Listener A K → Listener A K
  with_session key entry l = record l {
    sessions = (key, entry) ∷ l.sessions;
    stats = snmp_connection_open false l.stats;
  }

  -- The session of the sender and the conversation, which is made where there is none.
  unfoldable pub route : Endpoint A → ℕ → List ℕ → Listener A K → Option (Listener A K)
  unfolding find deliver
  route sender conv packet l =
      let key = endpoint_key addresses sender conv in
      elim (find key l.sessions) [
        | some entry ↦ deliver key entry packet l
        | none ↦ elim (make_tunnel libs m conv config false (some accept) draw) [
          | none ↦ none
          | some t ↦
              (let entry : SessionEntry A K = record { remote_endpoint = sender; tunnel = t } in
                deliver key entry packet (with_session key entry l))
        ]
      ]

  abbrev pub route_decoded : Endpoint A → List ℕ → Option ℕ → Listener A K → Option (Listener A K)
  route_decoded sender packet none l = route_parity sender packet l
  route_decoded sender packet (some offset) l =
      if ltb (length packet) (offset + 4)
      then some l
      else route sender (read_le32 (drop offset packet)) packet l

  abbrev pub handle_decoded : Endpoint A → Option (List ℕ) → Listener A K → Option (Listener A K)
  handle_decoded sender none l = some (count_error l)
  handle_decoded sender (some packet) l =
      if ltb (length packet) 4
      then some (count_error l)
      else route_decoded sender packet (fec_kcp_payload_offset packet) l

  unfoldable pub handle_packet : Endpoint A → List ℕ → Listener A K → Option (Listener A K)
  unfolding route route_parity count_error
  handle_packet sender bytes l = handle_decoded sender (decrypt libs.crypto crypt bytes) l

  -- An event of the session that has a key.
  unfoldable pub on_session_event : List ℕ → Event → Listener A K → Listener A K
  unfolding find update_session
  on_session_event key event l = elim (find key l.sessions) [
    | none ↦ l
    | some entry ↦ update_session key entry (on_event libs m fuel event entry.tunnel) l
  ]

-- What `async_receive_from` completes with.
pub data Arrival (A : Type 0) : Type 0 where
  datagram : Endpoint A → List ℕ → Arrival A
  aborted : Arrival A
  failed : Arrival A

module _ {A K : Type 0} (addresses : Addresses A) (libs : Libraries K) (m : Moment)
    (config : BaseConfig) (crypt : PacketCrypt) (accept : Stream → Stream) (draw : ℕ → List ℕ)
    (fuel : ℕ) where
  -- The handler of `start_receive`, which then waits for the next packet.
  unfoldable pub on_receive : Arrival A → Listener A K → Option (Listener A K)
  unfolding handle_packet
  on_receive (datagram sender bytes) l =
      handle_packet addresses libs m config crypt accept draw fuel sender bytes
        (record l { stats = snmp_add in_bytes (length bytes) (snmp_add in_pkts 1 l.stats) })
  on_receive aborted l = some l
  on_receive failed l = some (record l { stats = snmp_add in_errs 1 l.stats })
