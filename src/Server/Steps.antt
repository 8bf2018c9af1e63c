-- ===== src/Server/Steps.antt =====
-- Whatever the event loop delivers to a listener.
use shimakaze.Common.{ℕ, ◌+◌, ◌^◌, ◌<◌, List, Option, none, some, length, ◌≡◌, refl, arith}
use shimakaze.Config.Base.{BaseConfig}
use shimakaze.Crypto.Packet.{PacketCrypt}
use shimakaze.Smux.State.{Stream}
use shimakaze.Stats.Counters.{in_pkts, in_bytes, in_errs, snmp_add}
use shimakaze.Endpoint.{Addresses}
use shimakaze.Tunnel.{Libraries, Moment, Event, on_event}
use shimakaze.Tunnel.Keeps.{Holds, on_event-Keeps}
use shimakaze.Server.Listener.{
  SessionEntry, Listener, find, update_session, on_session_event, Arrival, datagram, aborted,
  failed, on_receive,
}
use shimakaze.Server.Sessions.{IsListener, update_session-IsListener}
use shimakaze.Server.Packets.{counted-IsListener, handle_packet-IsListener}

-- A sender with a port, for a packet that arrives.
abbrev pub HasPort : {A : Type 0} → Arrival A → Type 0
HasPort (datagram sender bytes) = sender.port < 2 ^ 16
HasPort aborted = Unit {0}
HasPort failed = Unit {0}

module _ {A K : Type 0} (addresses : Addresses A) (others : ℕ) (libs : Libraries K) (m : Moment)
    (config : BaseConfig) (crypt : PacketCrypt) (accept : Stream → Stream) (draw : ℕ → List ℕ)
    (fuel : ℕ) where
  -- Whatever arrives, or fails to.
  on_receive-IsListener :
      (arrival : Arrival A) (l : Listener A K)
      → IsListener addresses others l
      → HasPort arrival
      → length l.sessions + others + 1 < 2 ^ 64
      → Holds
          (IsListener addresses others)
          (on_receive addresses libs m config crypt accept draw fuel arrival l)
  unfolding on_receive
  on_receive-IsListener (datagram sender bytes) l h port room =
      handle_packet-IsListener addresses others libs m config crypt accept draw fuel sender bytes _
        (counted-IsListener addresses others libs m config crypt accept draw fuel in_bytes
          (length bytes) (record l { stats = snmp_add in_pkts 1 l.stats }) (omega arith)
          (counted-IsListener addresses others libs m config crypt accept draw fuel in_pkts 1 l
            (omega arith) h))
        port room
  on_receive-IsListener aborted l h port room = h
  on_receive-IsListener failed l h port room =
      counted-IsListener addresses others libs m config crypt accept draw fuel in_errs 1 l
        (omega arith) h

  -- An event of any session; where it closes the transport, the entry goes.
  on_session_event-IsListener :
      (key : List ℕ) (event : Event) (l : Listener A K)
      → IsListener addresses others l
      → IsListener addresses others
          (on_session_event addresses libs m config crypt accept draw fuel key event l)
  unfolding on_session_event
  on_session_event-IsListener key event l h = go (find key l.sessions) refl
    where
      go :
          (o : Option (SessionEntry A K))
          → find key l.sessions ≡ o
          → IsListener addresses others (elim o as (λ x. Listener A K) [
            | none ↦ l
            | some entry ↦ update_session key entry (on_event libs m fuel event entry.tunnel) l
          ])
      go none q = h
      go (some e) q =
          update_session-IsListener addresses others key e (on_event libs m fuel event e.tunnel) l h
            q (on_event-Keeps libs m fuel event e.tunnel).0

-- A packet that arrives or fails to, or an event of the session that has a key.
pub data Step (A : Type 0) : Type 0 where
  arrived : Arrival A → Step A
  happened : List ℕ → Event → Step A

module _ {A K : Type 0} (addresses : Addresses A) (libs : Libraries K) (m : Moment)
    (config : BaseConfig) (crypt : PacketCrypt) (accept : Stream → Stream) (draw : ℕ → List ℕ)
    (fuel : ℕ) where
  unfoldable pub take_step : Step A → Listener A K → Option (Listener A K)
  unfolding on_receive on_session_event
  take_step (arrived arrival) l =
      on_receive addresses libs m config crypt accept draw fuel arrival l
  take_step (happened key event) l =
      some (on_session_event addresses libs m config crypt accept draw fuel key event l)

  abbrev pub StepHasPort : Step A → Type 0
  StepHasPort (arrived arrival) = HasPort arrival
  StepHasPort (happened key event) = Unit {0}

  -- A step of a listener, beside `others` sessions of other listeners.
  pub take_step-IsListener :
      (others : ℕ) (step : Step A) (l : Listener A K)
      → IsListener addresses others l
      → StepHasPort step
      → length l.sessions + others + 1 < 2 ^ 64
      → Holds (IsListener addresses others) (take_step step l)
  unfolding take_step
  take_step-IsListener others (arrived arrival) l h port room =
      on_receive-IsListener addresses others libs m config crypt accept draw fuel arrival l h port
        room
  take_step-IsListener others (happened key event) l h port room =
      on_session_event-IsListener addresses others libs m config crypt accept draw fuel key event l
        h
