-- ===== src/Client/Steps.antt =====
-- Whatever the event loop delivers to a client.
use shimakaze.Common.{
  ℕ, ◌+◌, ◌^◌, ◌<◌, ltb, Bool, true, false, if◌then◌else◌, List, Option, none, some, length, ◌≡◌,
  refl, ap, ◌∙◌, arith, either,
}
use shimakaze.Crypto.Packet.{decrypt}
use shimakaze.Fec.Codec.{fec_kcp_payload_offset}
use shimakaze.Stats.Counters.{in_csum_errors, in_pkts, in_bytes, in_errs, snmp_add}
use shimakaze.Endpoint.{
  Endpoint, Addresses, IsAddresses, Differs, same_endpoint, same_endpoint-Differs,
}
use shimakaze.Server.Listener.{Arrival, datagram, aborted, failed}
use shimakaze.Tunnel
use shimakaze.Tunnel.{Tunnel, Libraries, Moment, Event}
use shimakaze.Tunnel.Keeps.{Holds, input-Keeps}
use shimakaze.Client.State.{Connection, Client, find, update_connection}
use shimakaze.Client.Accept.{handle_accept, on_connection_event, on_scavenge}
use shimakaze.Client.Receive.{give, accepts, count_error, take_decoded, with_connection, on_receive}
use shimakaze.Client.Connections.{IsClient, update_connection-IsClient, counted-IsClient}
use shimakaze.Client.Serving.{
  handle_accept-IsClient, on_connection_event-IsClient, on_scavenge-IsClient,
}

-- An accepted socket, with the random numbers and the endpoint for a new connection and whether its peer has gone; what arrives for a
-- connection, what happens in it, and the end of the wait of its scavenge timer.
pub data Step (A : Type 0) : Type 0 where
  accepted : List ℕ → Option (Endpoint A) → (ℕ → List ℕ) → Bool → Step A
  arrived : ℕ → Arrival A → Step A
  happened : ℕ → Event → Step A
  scavenged : Bool → ℕ → Step A

module _ {A K : Type 0} (addresses : Addresses A) (libs : Libraries K) (m : Moment) (fuel : ℕ) where
  unfoldable pub take_step : Step A → Client A K → Option (Client A K)
  unfolding on_receive
  take_step (accepted draws remote draw gone) s =
      some (handle_accept libs m draws remote draw gone s)
  take_step (arrived number arrival) s = on_receive addresses libs m fuel number arrival s
  take_step (happened number event) s = some (on_connection_event libs m fuel number event s)
  take_step (scavenged error number) s = some (on_scavenge libs m error number s)

  give-IsClient :
      (number : ℕ) (c : Connection A K) (plain : List ℕ) (s : Client A K)
      → IsClient s
      → find number s.connections ≡ some c
      → Holds IsClient (give addresses libs m fuel number c plain s)
  unfolding give
  give-IsClient number c plain s h there = go (Tunnel.input libs m fuel plain c.tunnel) refl
    where
      go :
          (o : Option (Tunnel K))
          → Tunnel.input libs m fuel plain c.tunnel ≡ o
          → Holds IsClient (elim o as (λ x. Option (Client A K)) [
            | none ↦ none
            | some t ↦ some (update_connection number c t s)
          ])
      go none q = tt
      go (some t) q =
          update_connection-IsClient number c t s h there (input-Keeps libs m fuel plain c.tunnel q)

  take_decoded-IsClient :
      (number : ℕ) (sender : Endpoint A) (c : Connection A K) (o : Option (List ℕ)) (s : Client A K)
      → IsClient s
      → find number s.connections ≡ some c
      → Holds IsClient (take_decoded addresses libs m fuel number sender c o s)
  unfolding count_error
  take_decoded-IsClient number sender c none s h there =
      counted-IsClient in_csum_errors 1 s (omega arith) h
  take_decoded-IsClient number sender c (some plain) s h there =
      either (Holds IsClient) (ltb (length plain) 4) (some (count_error addresses libs m fuel s)) _
        (counted-IsClient in_csum_errors 1 s (omega arith) h)
        (either (Holds IsClient)
          (accepts addresses libs m fuel sender c plain (fec_kcp_payload_offset plain)) _ (some s)
          (give-IsClient number c plain s h there) h)

  on_receive-IsClient :
      (number : ℕ) (arrival : Arrival A) (s : Client A K)
      → IsClient s
      → Holds IsClient (on_receive addresses libs m fuel number arrival s)
  unfolding on_receive
  on_receive-IsClient number arrival s h = go (find number s.connections) refl arrival
    where
      go :
          (o : Option (Connection A K))
          → find number s.connections ≡ o
          → (a : Arrival A) → Holds IsClient (with_connection addresses libs m fuel number a s o)
      go none q a = h
      go (some c) q (datagram sender bytes) =
          take_decoded-IsClient number sender c (decrypt libs.crypto s.crypt bytes) _
            (counted-IsClient in_bytes (length bytes)
              (record s { stats = snmp_add in_pkts 1 s.stats }) (omega arith)
              (counted-IsClient in_pkts 1 s (omega arith) h))
            q
      go (some c) q aborted = h
      go (some c) q failed = counted-IsClient in_errs 1 s (omega arith) h

  -- Whatever is delivered keeps `IsClient` when no exception leaves its handler: `transports_` has the
  -- conversations of the open connections, none twice, `CurrEstab` is their count, and each connection has the
  -- conversation of its transport, and an open socket as long as that is open. Whatever the random numbers are, with
  -- fewer than 2 ^ 64 - 1 connections open.
  pub take_step-IsClient :
      (step : Step A) (s : Client A K)
      → IsClient s
      → length s.transports + 1 < 2 ^ 64
      → Holds IsClient (take_step step s)
  unfolding take_step
  take_step-IsClient (accepted draws remote draw gone) s h room =
      handle_accept-IsClient libs m draws remote draw gone s h room
  take_step-IsClient (arrived number arrival) s h room = on_receive-IsClient number arrival s h
  take_step-IsClient (happened number event) s h room =
      on_connection_event-IsClient libs m fuel number event s h
  take_step-IsClient (scavenged error number) s h room =
      on_scavenge-IsClient libs m error number s h

  -- The connections and what refers to them are what they were.
  abbrev pub Ignores : Client A K → Client A K → Type 0
  Ignores s t =
      (t.connections ≡ s.connections) × (t.transports ≡ s.transports) × (t.muxes ≡ s.muxes)

  -- A datagram from an endpoint that differs from the connection's server in its address or its port does nothing to
  -- any connection, whatever its bytes, and no exception leaves the handler. Where the library has what `IsAddresses`
  -- says.
  pub on_receive-Ignores :
      IsAddresses addresses
      → (number : ℕ) (sender : Endpoint A) (bytes : List ℕ) (s : Client A K) {c : Connection A K}
      → find number s.connections ≡ some c
      → Differs c.remote_endpoint sender
      → (t : Client A K) × (on_receive addresses libs m fuel number (datagram sender bytes) s
          ≡ some t)
        × Ignores s t
  unfolding on_receive count_error
  on_receive-Ignores laws number sender bytes s {c} there differs =
      let (t, given, same) = decoded (decrypt libs.crypto s.crypt bytes) in
      (
        t,
        ap (with_connection addresses libs m fuel number (datagram sender bytes) s) there ∙ given,
        same,
      )
    where
      s' : Client A K
      s' = record s { stats = snmp_add in_bytes (length bytes) (snmp_add in_pkts 1 s.stats) }

      other : same_endpoint addresses c.remote_endpoint sender ≡ false
      other = same_endpoint-Differs addresses laws c.remote_endpoint sender differs

      refused :
          (plain : List ℕ) (o : Option ℕ) → accepts addresses libs m fuel sender c plain o ≡ false
      refused plain none = other
      refused plain (some offset) = ground (arith, other)

      short :
          (b : Bool) (plain : List ℕ)
          → (t : Client A K) × (if◌then◌else◌ {A = Option (Client A K)} b
                (some (count_error addresses libs m fuel s'))
                (if accepts addresses libs m fuel sender c plain (fec_kcp_payload_offset plain)
                  then give addresses libs m fuel number c plain s'
                  else some s')
              ≡ some t)
            × Ignores s t
      short true plain = (count_error addresses libs m fuel s', refl, (refl, refl, refl))
      short false plain = (
        s',
        ap (λ b. if b then give addresses libs m fuel number c plain s' else some s')
            (refused plain (fec_kcp_payload_offset plain)),
        (refl, refl, refl),
      )

      decoded :
          (o : Option (List ℕ))
          → (t : Client A K) × (take_decoded addresses libs m fuel number sender c o s' ≡ some t)
            × Ignores s t
      decoded none = (count_error addresses libs m fuel s', refl, (refl, refl, refl))
      decoded (some plain) = short (ltb (length plain) 4) plain
