-- ===== src/Client/Serving.antt =====
-- What the handlers of a client do to its connections.
use shimakaze.Common.{
  ℕ, ◌+◌, ◌%◌, ◌^◌, ◌<◌, Bool, if◌then◌else◌, List, Option, none, some, length, ◌≡◌, refl, either,
}
use shimakaze.Smux.Session
use shimakaze.Smux.Session.{Core, open_stream}
use shimakaze.Endpoint.{Endpoint}
use shimakaze.Transport.Keeps.{Keeps, ◌after◌}
use shimakaze.Tunnel.{Tunnel, Libraries, Moment, Event, settle, on_core, on_event}
use shimakaze.Tunnel.Keeps.{Holds, on_event-Keeps, on_core-Keeps, settle-Keeps}
use shimakaze.Client.State.{Connection, Client, find, update_connection, create_connection}
use shimakaze.Client.Accept.{
  reusable, slot_number, connection_of, ensure_session, start_opened, open_on, open_in,
  handle_accept, change, on_connection_event, forget, on_scavenge,
}
use shimakaze.Client.Creation.{create_connection-IsClient}
use shimakaze.Client.Connections.{IsClient, update_connection-IsClient}

module _ {K : Type 0} (libs : Libraries K) (m : Moment) where
  open_on-Keeps : (gone : Bool) (t : Tunnel K) → Holds (Keeps t) (open_on libs m gone t)
  unfolding open_on
  open_on-Keeps gone t = go (open_stream libs.snappy libs.primitives t.owner.smux.core)
    where
      go :
          (o : Option (ℕ × Core))
          → Holds (Keeps t) (elim o as (λ x. Option (Tunnel K)) [
            | none ↦ none
            | some (sid, core) ↦ some (
                on_core libs m
                  (start_opened libs m gone sid (Session.find sid t.owner.smux.core.streams))
                  (settle libs m (record t.owner.smux { core = core }) t))
          ])
      go none = tt
      go (some (sid, core)) =
          on_core-Keeps libs m
            (start_opened libs m gone sid (Session.find sid t.owner.smux.core.streams))
            (settle libs m (record t.owner.smux { core = core }) t)
          after settle-Keeps libs m (record t.owner.smux { core = core }) t

module _ {A K : Type 0} (libs : Libraries K) (m : Moment) where
  change-IsClient :
      (handler : Tunnel K → Tunnel K)
      → ((t : Tunnel K) → Keeps t (handler t))
      → (number : ℕ) (s : Client A K) → IsClient s
      → IsClient (change libs m handler number s (find number s.connections))
  change-IsClient handler keeps number s h = go (find number s.connections) refl
    where
      go :
          (o : Option (Connection A K))
          → find number s.connections ≡ o
          → IsClient (change libs m handler number s o)
      go none q = h
      go (some c) q = update_connection-IsClient number c (handler c.tunnel) s h q (keeps c.tunnel)

  ensure_session-IsClient :
      (draws : List ℕ) (remote : Option (Endpoint A)) (draw : ℕ → List ℕ) (index : ℕ)
      (s : Client A K)
      → IsClient s
      → length s.transports + 1 < 2 ^ 64
      → Holds
          (λ (r : ℕ × Client A K). IsClient r.1)
          (ensure_session libs m draws remote draw index s)
  unfolding ensure_session
  ensure_session-IsClient draws remote draw index s h room =
      go (connection_of libs m s (slot_number libs m s index))
    where
      created :
          Holds
            (λ (r : ℕ × Client A K). IsClient r.1)
            (create_connection libs m draws remote draw index s)
      created = create_connection-IsClient libs m draws remote draw index s h room

      go :
          (o : Option (ℕ × Connection A K))
          → Holds
              (λ (r : ℕ × Client A K). IsClient r.1)
              (elim o as (λ x. Option (ℕ × Client A K)) [
                | none ↦ create_connection libs m draws remote draw index s
                | some held ↦
                    if reusable libs m s held.1
                    then some (held.0, s)
                    else create_connection libs m draws remote draw index s
              ])
      go none = created
      go (some held) =
          either (Holds (λ (r : ℕ × Client A K). IsClient r.1)) (reusable libs m s held.1)
            (some (held.0, s)) _ h created

  open_in-IsClient :
      (gone : Bool) (number : ℕ) (s : Client A K)
      → IsClient s
      → IsClient (open_in libs m gone number s (find number s.connections))
  open_in-IsClient gone number s h = found (find number s.connections) refl
    where
      opened :
          (c : Connection A K) (o : Option (Tunnel K))
          → find number s.connections ≡ some c
          → Holds (Keeps c.tunnel) o
          → IsClient
              (elim o as (λ x. Client A K) [ none ↦ s | some t ↦ update_connection number c t s ])
      opened c none q k = h
      opened c (some t) q k = update_connection-IsClient number c t s h q k

      found :
          (o : Option (Connection A K))
          → find number s.connections ≡ o
          → IsClient (open_in libs m gone number s o)
      found none q = h
      found (some c) q =
          opened c (open_on libs m gone c.tunnel) q (open_on-Keeps libs m gone c.tunnel)

  -- An accepted socket, whatever exception is caught.
  pub handle_accept-IsClient :
      (draws : List ℕ) (remote : Option (Endpoint A)) (draw : ℕ → List ℕ) (gone : Bool)
      (s : Client A K)
      → IsClient s
      → length s.transports + 1 < 2 ^ 64
      → IsClient (handle_accept libs m draws remote draw gone s)
  unfolding handle_accept
  handle_accept-IsClient draws remote draw gone s h room =
      go (ensure_session libs m draws remote draw (s.rr % length s.muxes) s')
        (ensure_session-IsClient draws remote draw (s.rr % length s.muxes) s' h' room)
    where
      s' : Client A K
      s' = record s { rr = (s.rr + 1) % 2 ^ 64 }

      h' : IsClient s'
      h' = record {
        in_step = h.in_step;
        numbered = h.numbered;
        unique = h.unique;
        convs = h.convs;
        distinct = h.distinct;
        sized = h.sized;
        counted = h.counted;
      }

      go :
          (o : Option (ℕ × Client A K))
          → Holds (λ (r : ℕ × Client A K). IsClient r.1) o
          → IsClient (elim o as (λ x. Client A K) [
            | none ↦ s'
            | some (number, s'') ↦ open_in libs m gone number s'' (find number s''.connections)
          ])
      go none k = h'
      go (some (number, s'')) k = open_in-IsClient gone number s'' k

  -- The events of a connection, and the end of the wait of a scavenge timer.
  pub on_connection_event-IsClient :
      (fuel number : ℕ) (event : Event) (s : Client A K)
      → IsClient s
      → IsClient (on_connection_event libs m fuel number event s)
  unfolding on_connection_event
  on_connection_event-IsClient fuel number event s h =
      change-IsClient (on_event libs m fuel event) (on_event-Keeps libs m fuel event) number s h

  pub on_scavenge-IsClient :
      (error : Bool) (number : ℕ) (s : Client A K)
      → IsClient s
      → IsClient (on_scavenge libs m error number s)
  unfolding on_scavenge
  on_scavenge-IsClient error number s h = either IsClient error _ _ h' (
      change-IsClient (on_core libs m (Session.close libs.snappy))
        (on_core-Keeps libs m (Session.close libs.snappy)) number _ h')
    where
      h' : IsClient (record s { scavenge_timers = forget number s.scavenge_timers })
      h' = record {
        in_step = h.in_step;
        numbered = h.numbered;
        unique = h.unique;
        convs = h.convs;
        distinct = h.distinct;
        sized = h.sized;
        counted = h.counted;
      }
