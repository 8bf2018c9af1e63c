-- ===== src/Client/Receive.antt =====
-- The handler of `Client::start_udp_receive`, but for its wait for the next packet.
use shimakaze.Common.{
  ℕ, ◌+◌, ltb, leb, ◌==◌, ◌&&◌, Bool, if◌then◌else◌, List, Option, none, some, length, drop,
}
use shimakaze.Crypto.Packet.{decrypt}
use shimakaze.Fec.Codec.{fec_kcp_payload_offset}
use shimakaze.Wire.Codec.{read_le32}
use shimakaze.Stats.Counters.{snmp_add, in_pkts, in_bytes, in_errs, in_csum_errors}
use shimakaze.Endpoint.{Endpoint, Addresses, same_endpoint}
use shimakaze.Server.Listener.{Arrival, datagram, aborted, failed}
use shimakaze.Tunnel
use shimakaze.Tunnel.{Tunnel, Libraries, Moment}
use shimakaze.Client.State.{Connection, Client, find, update_connection}

module _ {A K : Type 0} (addresses : Addresses A) (libs : Libraries K) (m : Moment) (fuel : ℕ) where
  -- An exception of the transport leaves the handler: `none`.
  unfoldable pub give : ℕ → Connection A K → List ℕ → Client A K → Option (Client A K)
  unfolding update_connection
  give number c plain s = elim (Tunnel.input libs m fuel plain c.tunnel) [
    | none ↦ none
    | some t ↦ some (update_connection number c t s)
  ]

  -- Whether a packet is of the connection: it comes from its server and, where it bears a conversation, has its own.
  abbrev pub accepts : Endpoint A → Connection A K → List ℕ → Option ℕ → Bool
  accepts sender c plain none = same_endpoint addresses c.remote_endpoint sender
  accepts sender c plain (some offset) =
      leb (offset + 4) (length plain)
      && ((read_le32 (drop offset plain) == c.conv)
          && same_endpoint addresses c.remote_endpoint sender)

  unfoldable pub count_error : Client A K → Client A K
  count_error s = record s { stats = snmp_add in_csum_errors 1 s.stats }

  abbrev pub take_decoded :
      ℕ → Endpoint A → Connection A K → Option (List ℕ) → Client A K → Option (Client A K)
  take_decoded number sender c none s = some (count_error s)
  take_decoded number sender c (some plain) s =
      if ltb (length plain) 4
      then some (count_error s)
      else if accepts sender c plain (fec_kcp_payload_offset plain)
      then give number c plain s
      else some s

  abbrev pub take_arrival : ℕ → Connection A K → Arrival A → Client A K → Option (Client A K)
  take_arrival number c (datagram sender bytes) s =
      take_decoded number sender c (decrypt libs.crypto s.crypt bytes)
        (record s { stats = snmp_add in_bytes (length bytes) (snmp_add in_pkts 1 s.stats) })
  take_arrival number c aborted s = some s
  take_arrival number c failed s = some (record s { stats = snmp_add in_errs 1 s.stats })

  abbrev pub with_connection :
      ℕ → Arrival A → Client A K → Option (Connection A K) → Option (Client A K)
  with_connection number arrival s none = some s
  with_connection number arrival s (some c) = take_arrival number c arrival s

  -- What arrives at the socket of the connection of a number.
  unfoldable pub on_receive : ℕ → Arrival A → Client A K → Option (Client A K)
  unfolding give count_error find
  on_receive number arrival s = with_connection number arrival s (find number s.connections)
