-- ===== src/Tunnel.antt =====
-- A `KcpTransport` and the `SmuxSession` on it, the way the client and the server put them together.
pub mod Keeps
use shimakaze.Common.{
  ℕ, ◌-◌, ◌%◌, ◌^◌, Bool, if◌then◌else◌, List, [], ◌∷◌, ◌++◌, Option, none, some,
}
use shimakaze.Common.Int.{ℤ, pos, negsuc}
use shimakaze.Config.Base.{BaseConfig}
use shimakaze.Crypto.Packet.{Library}
use shimakaze.Kcp.State.{Ikcp, ◌>>=◌}
use shimakaze.Qpp.Pad.{Primitives, QppPad, make_pad}
use shimakaze.Snappy.Stream.{Snappy}
use shimakaze.Smux.State.{Stream}
use shimakaze.Smux.Session
use shimakaze.Smux.Session.{
  Core, Session, Output, transport_start, transport_send, transport_close, make_session,
  on_transport_bytes,
}
use shimakaze.Transport.State
use shimakaze.Transport.State.{Transport, make_transport, start_timer}
use shimakaze.Transport.Sending
use shimakaze.Transport.Receiving

-- The session of a transport, and what it has asked of its timer, its owner and its sockets.
pub record Owner : Type 0 where
  pub smux : Session
  pub asks : List Output

abbrev pub Tunnel : Type 0 → Type 0
Tunnel K = Transport K Owner

-- What a handler reads of the clocks: microseconds, milliseconds and nanoseconds.
pub record Moment : Type 0 where
  pub micros : ℕ
  pub millis : ℕ
  pub nanos : ℕ

-- What the program calls of other code.
pub record Libraries (K : Type 0) : Type 0 where
  pub crypto : Library
  pub ikcp : Ikcp K
  pub snappy : Snappy
  pub primitives : Primitives

-- `static_cast<std::uint16_t>(x)`.
abbrev pub to_u16 : ℤ → ℕ
to_u16 (pos n) = n % 2 ^ 16
to_u16 (negsuc n) = 2 ^ 16 - 1 - n % 2 ^ 16

-- The pad of the constructor of `SmuxSession`: no exception where the configuration asks for none.
unfoldable pub session_pad : Primitives → BaseConfig → Option (Option QppPad)
session_pad primitives config =
    let made : Option (Option QppPad) =
      elim (make_pad primitives config.key (to_u16 config.qpp_count)) [
        | none ↦ none
        | some pad ↦ some (some pad)
      ] in
    if config.qpp then made else some none

module _ {K : Type 0} (libs : Libraries K) (m : Moment) where
  -- A call of the session, performed on its transport.
  unfoldable pub perform : Output → Tunnel K → Tunnel K
  perform transport_start t = start_timer t
  perform (transport_send bytes) t = Sending.send libs.crypto libs.ikcp m.micros m.millis bytes t
  perform transport_close t = State.close t
  perform ask t = record t { owner = record t.owner { asks = t.owner.asks ++ (ask ∷ []) } }

  unfoldable pub perform_all : List Output → Tunnel K → Tunnel K
  unfolding perform
  perform_all [] t = t
  perform_all (o ∷ os) t = perform_all os (perform o t)

  -- A handler of the session: it reads nothing of its transport, so its calls are performed, in their order, when
  -- it is done.
  unfoldable pub settle : Session → Tunnel K → Tunnel K
  unfolding perform_all
  settle s t = perform_all s.core.output (record t {
    owner = record t.owner { smux = record s { core = record s.core { output = [] } } };
  })

  -- The read handler that `SmuxSession::start` gives to the transport.
  unfoldable pub read_handler : List ℕ → Tunnel K → Tunnel K
  unfolding settle
  read_handler bytes t =
      settle (on_transport_bytes libs.snappy libs.primitives m.nanos bytes t.owner.smux) t

  -- A handler of the session but for its receiving side.
  unfoldable pub on_core : (Core → Core) → Tunnel K → Tunnel K
  unfolding settle
  on_core handler t = let s = t.owner.smux in settle (record s { core = handler s.core }) t

  -- `KcpTransport::input`, with fuel for the messages that wait.
  unfoldable pub input : ℕ → List ℕ → Tunnel K → Option (Tunnel K)
  unfolding read_handler
  input fuel packet t =
      Receiving.input libs.crypto libs.ikcp read_handler fuel m.micros m.millis packet t

  -- Both constructors, the accept handler, and `SmuxSession::start`; `draw` gives the random bytes of the packets.
  unfoldable pub make_tunnel :
      ℕ → BaseConfig → Bool → Option (Stream → Stream) → (ℕ → List ℕ) → Option (Tunnel K)
  unfolding session_pad on_core
  make_tunnel conv config client accept draw = do
    pad ← session_pad libs.primitives config
    let s = make_session config client pad m.nanos
    let owner : Owner = record {
      smux = record s { core = record s.core { accept_handler = accept } };
      asks = [];
    }
    t ← make_transport libs.crypto libs.ikcp conv config owner draw
    some (on_core (Session.start libs.snappy) t)

-- What the event loop may deliver to a tunnel other than packets: the end of the wait for the update of KCP, for the
-- rate limit and for the keepalive, and what a handler of the stream `id` does.
pub data Event : Type 0 where
  update : ℕ → Event
  rate_timer : Bool → Event
  keepalive : Event
  of_stream : ℕ → (Stream → Stream) → Event

module _ {K : Type 0} (libs : Libraries K) (m : Moment) where
  unfoldable pub on_event : ℕ → Event → Tunnel K → Tunnel K
  unfolding read_handler on_core
  on_event fuel (update clock) t =
      Receiving.update_kcp libs.crypto libs.ikcp (read_handler libs m) fuel m.micros m.millis clock
        t
  on_event fuel (rate_timer ok) t = Sending.on_rate_timer ok m.micros t
  on_event fuel keepalive t = on_core libs m (Session.keepalive_tick libs.snappy m.nanos) t
  on_event fuel (of_stream id handler) t = on_core libs m (Session.call libs.snappy id handler) t
