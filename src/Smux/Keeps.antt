-- ===== src/Smux/Keeps.antt =====
-- The handlers of a session keep its configuration, and a protocol error closes it.
use shimakaze.Common.{
  ◌⊎◌, ℕ, ltb, ◌==◌, ◌||◌, Bool, true, false, not, if◌then◌else◌, List, [], ◌∷◌, ◌++◌, Option, none,
  some, length, drop, ◌≡◌, refl, ◌∙◌, inl, inr,
}
use shimakaze.Common.Int.{is}
use shimakaze.Qpp.Pad.{Primitives}
use shimakaze.Snappy.Stream.{Snappy}
use shimakaze.Wire.Codec.{write_le32, read_le32}
use shimakaze.Smux.State.{
  Command, upd, Effect, Stream, send_frame, send_update, stream_closed, async_resolve,
  async_connect, async_read, async_write, shutdown_send, start_close_timer, cancel_timers,
  close_socket,
}
use shimakaze.Smux.Stream.{on_fin, on_data, on_update}
use shimakaze.Smux.Stream
use shimakaze.Smux.Session.{
  new_stream, Core, transport_close, close_handler, cancel_keepalive_timer, put, find, send,
  send_window, perform, perform_all, call, call_found, close_all, close, protocol_error, accept,
  dispatch,
}

-- A part of a handler that keeps the configuration, and does not open what is closed.
pub record Keeps (s s' : Core) : Type 0 where
  pub config : s'.config ≡ s.config
  pub closed : s'.closed ≡ s.closed

stay : (s : Core) → Keeps s s
stay s = record { config = refl; closed = refl }

then_Keeps : (s t u : Core) → Keeps s t → Keeps t u → Keeps s u
then_Keeps s t u f g = record { config = g.config ∙ f.config; closed = g.closed ∙ f.closed }

if-Keeps : (b : Bool) (s t u : Core) → Keeps s t → Keeps s u → Keeps s (if b then t else u)
if-Keeps true s t u f g = f
if-Keeps false s t u f g = g

module _ (snappy : Snappy) where
  send-Keeps :
      (command : Command) (id : ℕ) (payload : List ℕ) (s : Core)
      → Keeps s (send snappy command id payload s)
  unfolding send
  send-Keeps command id payload s =
      if-Keeps (s.closed || ltb 65535 (length payload)) s s _ (stay s) (
        if-Keeps s.config.nocomp s _ _ (record { config = refl; closed = refl })
          (record { config = refl; closed = refl }))

  perform-Keeps : (id : ℕ) (e : Effect) (s : Core) → Keeps s (perform snappy id e s)
  unfolding perform send_window
  perform-Keeps id (send_frame command sid payload) s = send-Keeps command sid payload s
  perform-Keeps id (send_update sid consumed window) s =
      send-Keeps upd sid (write_le32 consumed ++ write_le32 window) s
  perform-Keeps id (stream_closed sid) s = record { config = refl; closed = refl }
  perform-Keeps id async_resolve s = record { config = refl; closed = refl }
  perform-Keeps id async_connect s = record { config = refl; closed = refl }
  perform-Keeps id async_read s = record { config = refl; closed = refl }
  perform-Keeps id (async_write bytes) s = record { config = refl; closed = refl }
  perform-Keeps id shutdown_send s = record { config = refl; closed = refl }
  perform-Keeps id (start_close_timer n) s = record { config = refl; closed = refl }
  perform-Keeps id cancel_timers s = record { config = refl; closed = refl }
  perform-Keeps id close_socket s = record { config = refl; closed = refl }

  perform_all-Keeps : (id : ℕ) (es : List Effect) (s : Core) → Keeps s (perform_all snappy id es s)
  unfolding perform_all
  perform_all-Keeps id [] s = stay s
  perform_all-Keeps id (e ∷ es) s =
      then_Keeps s (perform snappy id e s) _ (perform-Keeps id e s)
        (perform_all-Keeps id es (perform snappy id e s))

  call-Keeps : (id : ℕ) (handler : Stream → Stream) (s : Core) → Keeps s (call snappy id handler s)
  unfolding call
  call-Keeps id handler s = go (find id s.streams)
    where
      go : (o : Option Stream) → Keeps s (call_found snappy id handler o s)
      go none = stay s
      go (some t) =
          then_Keeps s _ _ (record { config = refl; closed = refl }) (perform_all-Keeps id _ _)

  close_all-Keeps : (streams : List (ℕ × Stream)) (s : Core) → Keeps s (close_all snappy streams s)
  unfolding close_all
  close_all-Keeps [] s = stay s
  close_all-Keeps ((id, t) ∷ rest) s =
      then_Keeps s _ _ (perform_all-Keeps id (Stream.close t).effects s) (close_all-Keeps rest _)

  -- The two facts on `close`.
  pub protocol_error-closed :
      (s : Core)
      → ((protocol_error snappy s).config ≡ s.config) × ((protocol_error snappy s).closed ≡ true)
  unfolding protocol_error close
  protocol_error-closed s = go s.closed refl
    where
      now : Core
      now = put cancel_keepalive_timer (record s { closed = true; streams = [] })

      last : Core
      last = put close_handler (put transport_close (close_all snappy s.streams now))

      go :
          (b : Bool)
          → s.closed ≡ b
          → ((if b then s else last).config ≡ s.config) × ((if b then s else last).closed ≡ true)
      go true e = (refl, e)
      go false e = ((close_all-Keeps s.streams now).config, (close_all-Keeps s.streams now).closed)

-- A frame keeps the configuration; the session goes on, or is closed.
abbrev pub Dispatched : Core → Bool × Core → Type 0
Dispatched s r = ((r.1).config ≡ s.config) × ((r.0 ≡ true) ⊎ ((r.1).closed ≡ true))

if-Dispatched :
    (b : Bool) (s : Core) (t u : Bool × Core)
    → Dispatched s t
    → Dispatched s u
    → Dispatched s (if b then t else u)
if-Dispatched true s t u f g = f
if-Dispatched false s t u f g = g

module _ (snappy : Snappy) (crypto : Primitives) where
  accept-config : (id : ℕ) (s : Core) → (accept snappy crypto id s).config ≡ s.config
  unfolding accept
  accept-config id s = go (find id s.streams) s.accept_handler
    where
      added : Core
      added = record s { streams = s.streams ++ ((id, new_stream snappy crypto id s) ∷ []) }

      go :
          (o : Option Stream) (handler : Option (Stream → Stream))
          → let r : Core = elim o [
            | some t ↦ s
            | none ↦ elim handler [ none ↦ added | some h ↦ call snappy id h added ]
          ] in
            r.config ≡ s.config
      go (some t) handler = refl
      go none none = refl
      go none (some h) = (call-Keeps snappy id h added).config

  error-Dispatched : (s : Core) → Dispatched s (false, protocol_error snappy s)
  error-Dispatched s = let (same, shut) = protocol_error-closed snappy s in (same, inr shut)

  pub dispatch-Dispatched :
      (command id : ℕ) (payload : List ℕ) (s : Core)
      → Dispatched s (dispatch snappy crypto command id payload s)
  unfolding dispatch
  dispatch-Dispatched command id payload s =
      if-Dispatched (command == 3) s _ _ (refl, inl refl)
        (if-Dispatched (command == 0) s _ _ (accept-config id s, inl refl)
          (if-Dispatched (command == 1) s _ _ ((call-Keeps snappy id on_fin s).config, inl refl)
            (if-Dispatched (command == 2) s _ _
              ((call-Keeps snappy id (on_data payload) s).config, inl refl)
              (if-Dispatched (command == 4) s _ _
                (if-Dispatched (not (is s.config.smuxver 2) || not (length payload == 8)) s _ _
                  (error-Dispatched s)
                  (
                    (call-Keeps snappy id
                        (on_update (read_le32 payload) (read_le32 (drop 4 payload))) s).config,
                    inl refl,
                  ))
                (error-Dispatched s)))))
