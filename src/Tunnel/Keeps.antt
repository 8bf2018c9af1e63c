-- ===== src/Tunnel/Keeps.antt =====
-- A tunnel keeps its conversation and stays closed, and is open when it is made.
use shimakaze.Common.{ℕ, Bool, false, List, [], ◌∷◌, Option, none, some, ◌≡◌, refl, sym, subst}
use shimakaze.Config.Base.{BaseConfig}
use shimakaze.Crypto.Packet.{PacketCrypt, make_crypt}
use shimakaze.Fec.Codec.{FecCodec, make_codec}
use shimakaze.Kcp.State.{◌>>=◌}
use shimakaze.Qpp.Pad.{QppPad}
use shimakaze.Smux.State.{Stream}
use shimakaze.Smux.Session
use shimakaze.Smux.Session.{
  Core, Session, Output, transport_start, transport_send, transport_close, close_handler,
  start_keepalive_timer, cancel_keepalive_timer, make_session, on_transport_bytes, arm_keepalive,
}
use shimakaze.Transport.State.{make_transport, configure_kcp, fresh_transport, start_timer}
use shimakaze.Transport.Arrivals
use shimakaze.Transport.Keeps.{
  Keeps, ◌after◌, close-Keeps, start_timer-Keeps, on_rate_timer-Keeps, send-Keeps,
}
use shimakaze.Transport.Arrivals.{update_kcp-Keeps}
use shimakaze.Tunnel.{
  Owner, Tunnel, Moment, Libraries, Event, update, rate_timer, keepalive, of_stream, session_pad,
  perform, perform_all, settle, read_handler, on_core, input, make_tunnel, on_event,
}

-- What there is satisfies `P`.
abbrev pub Holds {ℓ} : {A : Type ℓ} → (A → Type 0) → Option A → Type 0
Holds P none = Unit {0}
Holds P (some a) = P a

pub bind-Holds_eq {ℓ κ} :
    {A : Type ℓ} {B : Type κ} (P : B → Type 0) (o : Option A) (f : A → Option B)
    → ((a : A) → o ≡ some a → Holds P (f a))
    → Holds P (o >>= f)
bind-Holds_eq P none f h = tt
bind-Holds_eq P (some a) f h = h a refl

pub bind-Holds {ℓ κ} :
    {A : Type ℓ} {B : Type κ} (P : B → Type 0) (o : Option A) (f : A → Option B)
    → ((a : A) → Holds P (f a))
    → Holds P (o >>= f)
bind-Holds P none f h = tt
bind-Holds P (some a) f h = h a

module _ {K : Type 0} (libs : Libraries K) (m : Moment) where
  perform-Keeps : (o : Output) (t : Tunnel K) → Keeps t (perform libs m o t)
  unfolding perform
  perform-Keeps transport_start t = start_timer-Keeps t
  perform-Keeps (transport_send bytes) t =
      send-Keeps libs.crypto libs.ikcp m.micros m.millis bytes t
  perform-Keeps transport_close t = close-Keeps t
  perform-Keeps close_handler t = (refl, λ e. e)
  perform-Keeps (start_keepalive_timer n) t = (refl, λ e. e)
  perform-Keeps cancel_keepalive_timer t = (refl, λ e. e)
  perform-Keeps (Output.of_stream id e) t = (refl, λ e. e)

  perform_all-Keeps : (os : List Output) (t : Tunnel K) → Keeps t (perform_all libs m os t)
  unfolding perform_all
  perform_all-Keeps [] t = (refl, λ e. e)
  perform_all-Keeps (o ∷ os) t = perform_all-Keeps os (perform libs m o t) after perform-Keeps o t

  pub settle-Keeps : (s : Session) (t : Tunnel K) → Keeps t (settle libs m s t)
  unfolding settle
  settle-Keeps s t = perform_all-Keeps s.core.output (record t {
    owner = record t.owner { smux = record s { core = record s.core { output = [] } } };
  })

  read_handler-Keeps : (bytes : List ℕ) (t : Tunnel K) → Keeps t (read_handler libs m bytes t)
  unfolding read_handler
  read_handler-Keeps bytes t =
      settle-Keeps (on_transport_bytes libs.snappy libs.primitives m.nanos bytes t.owner.smux) t

  pub on_core-Keeps : (handler : Core → Core) (t : Tunnel K) → Keeps t (on_core libs m handler t)
  unfolding on_core
  on_core-Keeps handler t =
      settle-Keeps (record t.owner.smux { core = handler t.owner.smux.core }) t

  pub input-Keeps :
      (fuel : ℕ) (packet : List ℕ) (t : Tunnel K) {t' : Tunnel K}
      → input libs m fuel packet t ≡ some t'
      → Keeps t t'
  unfolding input
  input-Keeps fuel packet t e =
      Arrivals.input-Keeps libs.crypto libs.ikcp (read_handler libs m) read_handler-Keeps fuel
        m.micros m.millis packet t e

  pub on_event-Keeps : (fuel : ℕ) (e : Event) (t : Tunnel K) → Keeps t (on_event libs m fuel e t)
  unfolding on_event
  on_event-Keeps fuel (update clock) t =
      update_kcp-Keeps libs.crypto libs.ikcp (read_handler libs m) read_handler-Keeps fuel m.micros
        m.millis clock t
  on_event-Keeps fuel (rate_timer ok) t = on_rate_timer-Keeps ok m.micros t
  on_event-Keeps fuel keepalive t = on_core-Keeps (Session.keepalive_tick libs.snappy m.nanos) t
  on_event-Keeps fuel (of_stream id handler) t =
      on_core-Keeps (Session.call libs.snappy id handler) t

  -- A new tunnel has the conversation that was asked for, and is open.
  abbrev pub IsNew : ℕ → Tunnel K → Type 0
  IsNew conv t = (t.conv ≡ conv) × (t.closing ≡ false)

  module _ (conv : ℕ) (config : BaseConfig) (client : Bool) (accept : Option (Stream → Stream))
      (draw : ℕ → List ℕ) where
    abbrev IsFresh : Owner → Tunnel K → Type 0
    IsFresh owner t =
        (crypt : PacketCrypt) × (fec : FecCodec) × (kcp : K) × (t
          ≡ fresh_transport conv config crypt fec kcp owner draw)

    make_transport-IsFresh :
        (owner : Owner)
        → Holds (IsFresh owner) (make_transport libs.crypto libs.ikcp conv config owner draw)
    unfolding make_transport
    make_transport-IsFresh owner =
        bind-Holds (IsFresh owner) (make_crypt libs.crypto config.key config.crypt) _ (λ crypt.
          bind-Holds (IsFresh owner) (make_codec config) _ (λ fec.
            bind-Holds (IsFresh owner) (libs.ikcp.create conv) _ (λ created.
              bind-Holds (IsFresh owner) (configure_kcp libs.ikcp config crypt fec created) _
                (λ kcp. (crypt, fec, kcp, refl)))))

    make_tunnel-Holds : Holds (IsNew conv) (make_tunnel libs m conv config client accept draw)
    unfolding make_tunnel perform start_timer fresh_transport make_session Session.start
    make_tunnel-Holds = bind-Holds (IsNew conv) (session_pad libs.primitives config) _ (λ pad.
        started pad (make_transport libs.crypto libs.ikcp conv config (owner pad) draw)
          (make_transport-IsFresh (owner pad)))
      where
        owner : Option QppPad → Owner
        owner pad = record {
          smux = record (make_session config client pad m.nanos) {
            core = record (make_session config client pad m.nanos).core { accept_handler = accept };
          };
          asks = [];
        }

        started :
            (pad : Option QppPad) (o : Option (Tunnel K))
            → Holds (IsFresh (owner pad)) o
            → Holds (IsNew conv) (o >>= λ t. some (on_core libs m (Session.start libs.snappy) t))
        started pad none h = tt
        started pad (some t) (crypt, fec, kcp, e) =
            subst (λ u. IsNew conv (on_core libs m (Session.start libs.snappy) u)) (sym e)
              (refl, refl)

    pub make_tunnel-IsNew :
        {t : Tunnel K} → make_tunnel libs m conv config client accept draw ≡ some t → IsNew conv t
    make_tunnel-IsNew e = subst (Holds (IsNew conv)) e make_tunnel-Holds
