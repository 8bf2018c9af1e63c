-- ===== src/Client/Accept.antt =====
-- `Client::handle_accept`, `Client::ensure_session` and the scavenging of old connections.
use shimakaze.Common.{
  ℕ, ◌+◌, ◌%◌, ◌^◌, leb, not, ◌&&◌, ◌==◌, Bool, if◌then◌else◌, List, [], ◌∷◌, Option, none, some,
  get_or, length,
}
use shimakaze.Common.Int.{above}
use shimakaze.Endpoint.{Endpoint}
use shimakaze.Smux.State.{Stream}
use shimakaze.Smux.Session
use shimakaze.Smux.Session.{Core, open_stream}
use shimakaze.Smux.Stream.{start_client}
use shimakaze.Tunnel.{Tunnel, Libraries, Moment, Event, settle, on_core, on_event}
use shimakaze.Client.State.{Connection, Client, find, update_connection, create_connection}

module _ {K : Type 0} (libs : Libraries K) (m : Moment) where
  -- `start_client` of the stream that was opened. Where a peer had taken its id, that stream is in no table, and what
  -- it does is left out.
  abbrev pub start_opened : Bool → ℕ → Option Stream → Core → Core
  start_opened gone sid none core = Session.call libs.snappy sid (start_client gone) core
  start_opened gone sid (some taken) core = core

  -- `open_stream` of the session and `start_client` of the stream, on the transport of the session. `gone` tells
  -- whether the socket's peer has left it.
  unfoldable pub open_on : Bool → Tunnel K → Option (Tunnel K)
  unfolding settle on_core Session.find
  open_on gone t =
      let smux = t.owner.smux in
      elim (open_stream libs.snappy libs.primitives smux.core) [
        | none ↦ none
        | some (sid, core) ↦ some (
            on_core libs m (start_opened gone sid (Session.find sid smux.core.streams))
              (settle libs m (record smux { core = core }) t))
      ]

unfoldable pub forget : ℕ → List (ℕ × ℕ) → List (ℕ × ℕ)
forget number [] = []
forget number ((n, delay) ∷ rest) =
    let rest' = forget number rest in if n == number then rest else (n, delay) ∷ rest'

module _ {A K : Type 0} (libs : Libraries K) (m : Moment) where
  -- The connection of a slot that can take another stream: its session is open and not expired.
  unfoldable pub reusable : Client A K → Connection A K → Bool
  reusable s c =
      let expired = above s.config.autoexpire 0 && leb c.expiry m.nanos in
      not c.tunnel.owner.smux.core.closed && not expired

  abbrev pub slot_number : Client A K → ℕ → Option ℕ
  slot_number s index = get_or s.muxes index none

  abbrev pub connection_of : Client A K → Option ℕ → Option (ℕ × Connection A K)
  connection_of s none = none
  connection_of s (some number) = elim (find number s.connections) [
    | none ↦ none
    | some c ↦ some (number, c)
  ]

  unfoldable pub ensure_session :
      List ℕ → Option (Endpoint A) → (ℕ → List ℕ) → ℕ → Client A K → Option (ℕ × Client A K)
  unfolding reusable find create_connection
  ensure_session draws remote draw index s =
      let created = create_connection libs m draws remote draw index s in
      elim (connection_of s (slot_number s index)) [
        | none ↦ created
        | some held ↦ if reusable s held.1 then some (held.0, s) else created
      ]

  abbrev pub open_in : Bool → ℕ → Client A K → Option (Connection A K) → Client A K
  open_in gone number s none = s
  open_in gone number s (some c) = elim (open_on libs m gone c.tunnel) [
    | none ↦ s
    | some t ↦ update_connection number c t s
  ]

  -- `handle_accept`, for both kinds of sockets. It catches the exceptions, each of which leaves what was done before.
  unfoldable pub handle_accept :
      List ℕ → Option (Endpoint A) → (ℕ → List ℕ) → Bool → Client A K → Client A K
  unfolding ensure_session open_on find update_connection
  handle_accept draws remote draw gone s =
      let s' = record s { rr = (s.rr + 1) % 2 ^ 64 } in
      elim (ensure_session draws remote draw (s.rr % length s.muxes) s') [
        | none ↦ s'
        | some (number, s'') ↦ open_in gone number s'' (find number s''.connections)
      ]

  abbrev pub change : (Tunnel K → Tunnel K) → ℕ → Client A K → Option (Connection A K) → Client A K
  change handler number s none = s
  change handler number s (some c) = update_connection number c (handler c.tunnel) s

  -- An event of the connection of a number.
  unfoldable pub on_connection_event : ℕ → ℕ → Event → Client A K → Client A K
  unfolding find update_connection
  on_connection_event fuel number event s =
      change (on_event libs m fuel event) number s (find number s.connections)

  -- The end of the wait of a scavenge timer.
  unfoldable pub on_scavenge : Bool → ℕ → Client A K → Client A K
  unfolding forget find update_connection on_core
  on_scavenge error number s =
      let s' = record s { scavenge_timers = forget number s.scavenge_timers } in
      if error
      then s'
      else change (on_core libs m (Session.close libs.snappy)) number s'
          (find number s'.connections)
