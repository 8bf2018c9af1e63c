-- ===== src/Smux/Session.antt =====
-- `SmuxSession`: its streams, the frames it sends and the frames it acts on.
use shimakaze.Common.{
  ℕ, zero, suc, ◌+◌, ◌%◌, ◌^◌, ltb, Bool, true, false, not, ◌||◌, ◌==◌, if◌then◌else◌, List, [],
  ◌∷◌, ◌++◌, Option, none, some, length, map, drop,
}
use shimakaze.Common.Int.{at_least_one, is}
use shimakaze.Config.Base.{BaseConfig}
use shimakaze.Wire.Codec.{write_le32, read_le32}
use shimakaze.Qpp.Pad.{QppPad, Primitives}
use shimakaze.Qpp.Stream.{make_stream}
use shimakaze.Snappy.Stream.{Snappy, Decoder, Decoded, decoded, failed, stuck, encode, decode}
use shimakaze.Smux.State.{
  Command, syn, fin, psh, nop, upd, Effect, Stream, send_frame, send_update, stream_closed,
  is_empty,
}
use shimakaze.Smux.State
use shimakaze.Smux.Stream.{on_fin, on_data, on_update}
use shimakaze.Smux.Stream
use shimakaze.Smux.Frame.{Received, make_frame, incomplete, mismatch, frame, read_frame}

-- What a session asks of its transport, its owner, its timer, and the sockets of its streams.
pub data Output : Type 0 where
  transport_start : Output
  transport_send : List ℕ → Output
  transport_close : Output
  close_handler : Output
  start_keepalive_timer : ℕ → Output
  cancel_keepalive_timer : Output
  of_stream : ℕ → Effect → Output

-- The fields but the two buffers of the receiving side. `wrote_identifier` is the compressor's.
pub record Core : Type 0 where
  pub config : BaseConfig
  pub client : Bool
  pub accept_handler : Option (Stream → Stream)
  pub wrote_identifier : Bool
  pub qpp_pad : Option QppPad
  pub streams : List (ℕ × Stream)
  pub last_activity : ℕ
  pub next_stream_id : ℕ
  pub closed : Bool
  pub output : List Output

pub record Session : Type 0 where
  pub core : Core
  pub decompressor : Decoder
  pub receive_buffer : List ℕ

unfoldable pub find : ℕ → List (ℕ × Stream) → Option Stream
find id [] = none
find id ((k, s) ∷ rest) = let later = find id rest in if k == id then some s else later

unfoldable pub replace : ℕ → Stream → List (ℕ × Stream) → List (ℕ × Stream)
replace id t [] = []
replace id t ((k, s) ∷ rest) =
    let rest' = replace id t rest in if k == id then (k, t) ∷ rest' else (k, s) ∷ rest'

unfoldable pub erase : ℕ → List (ℕ × Stream) → List (ℕ × Stream)
erase id [] = []
erase id ((k, s) ∷ rest) = let rest' = erase id rest in if k == id then rest' else (k, s) ∷ rest'

abbrev pub put : Output → Core → Core
put o s = record s { output = s.output ++ (o ∷ []) }

abbrev pub put_all : List Output → Core → Core
put_all os s = record s { output = s.output ++ os }

abbrev no_effects : Stream → Stream
no_effects t = record t { effects = [] }

unfoldable pub set_accept_handler : (Stream → Stream) → Core → Core
set_accept_handler handler s = record s { accept_handler = some handler }

module _ (snappy : Snappy) where
  unfoldable pub send : Command → ℕ → List ℕ → Core → Core
  send command stream_id payload s =
      let bytes = make_frame s.config command stream_id payload in
      let (chunks, wrote) = encode snappy s.wrote_identifier bytes in
      if s.closed || ltb 65535 (length payload)
      then s
      else if s.config.nocomp
      then put (transport_send bytes) s
      else put_all (map transport_send chunks) (record s { wrote_identifier = wrote })

  unfoldable pub send_window : ℕ → ℕ → ℕ → Core → Core
  unfolding send
  send_window stream_id consumed window s =
      send upd stream_id (write_le32 consumed ++ write_le32 window) s

  -- One call of a stream of id `id`.
  unfoldable pub perform : ℕ → Effect → Core → Core
  unfolding send send_window
  perform id (send_frame command stream_id payload) s = send command stream_id payload s
  perform id (send_update stream_id consumed window) s = send_window stream_id consumed window s
  perform id (stream_closed stream_id) s = record s { streams = erase stream_id s.streams }
  perform id effect s = put (of_stream id effect) s

  unfoldable pub perform_all : ℕ → List Effect → Core → Core
  perform_all id [] s = s
  perform_all id (e ∷ es) s = perform_all id es (perform id e s)

  abbrev pub call_found : ℕ → (Stream → Stream) → Option Stream → Core → Core
  call_found id handler none s = s
  call_found id handler (some t) s =
      let t' = handler t in
      perform_all id t'.effects (record s { streams = replace id (no_effects t') s.streams })

  -- A call of a handler of the stream `id`, if the session has one. A handler reads nothing of the
  -- session but its configuration, so its calls are performed, in their order, when it is done.
  unfoldable pub call : ℕ → (Stream → Stream) → Core → Core
  call id handler s = call_found id handler (find id s.streams) s

  -- `stream->close()` for each stream of a map that was moved out of the session.
  unfoldable pub close_all : List (ℕ × Stream) → Core → Core
  close_all [] s = s
  close_all ((id, t) ∷ rest) s = close_all rest (perform_all id (Stream.close t).effects s)

  unfoldable pub close : Core → Core
  close s =
      let streams = s.streams in
      let s' = put cancel_keepalive_timer (record s { closed = true; streams = [] }) in
      if s.closed then s else put close_handler (put transport_close (close_all streams s'))

  unfoldable pub protocol_error : Core → Core
  unfolding close
  protocol_error s = close s

  module _ (crypto : Primitives) where
    abbrev pub new_stream : ℕ → Core → Stream
    new_stream id s = State.make_stream id s.config (make_stream crypto s.qpp_pad s.config.key)

    -- `streams_.emplace`: an id that is there keeps its stream.
    abbrev pub emplace : ℕ → Stream → List (ℕ × Stream) → List (ℕ × Stream)
    emplace id stream streams = elim (find id streams) [
      | some t ↦ streams
      | none ↦ streams ++ ((id, stream) ∷ [])
    ]

    -- The exceptions of `open_stream` are `none`.
    unfoldable pub open_stream : Core → Option (ℕ × Core)
    unfolding send find
    open_stream s =
        let sid = (s.next_stream_id + 2) % 2 ^ 32 in
        let s' = send syn sid [] (record s { next_stream_id = sid }) in
        if s.closed
        then none
        else if ltb sid s.next_stream_id
        then none
        else some (sid, record s' { streams = emplace sid (new_stream sid s) s'.streams })

    -- `accept_handler_` gets the new stream.
    unfoldable pub accept : ℕ → Core → Core
    unfolding call
    accept id s =
        let s' = record s { streams = s.streams ++ ((id, new_stream id s) ∷ []) } in
        elim (find id s.streams) [
          | some t ↦ s
          | none ↦ elim s.accept_handler [ none ↦ s' | some handler ↦ call id handler s' ]
        ]

    -- The switch on the command of a frame; the flag tells a return by a protocol error.
    unfoldable pub dispatch : ℕ → ℕ → List ℕ → Core → Bool × Core
    unfolding accept call protocol_error
    dispatch command id payload s =
        if command == 3
        then (true, s)
        else if command == 0
        then (true, accept id s)
        else if command == 1
        then (true, call id on_fin s)
        else if command == 2
        then (true, call id (on_data payload) s)
        else if command == 4
        then (if not (is s.config.smuxver 2) || not (length payload == 8)
            then (false, protocol_error s)
            else (true, call id (on_update (read_le32 payload) (read_le32 (drop 4 payload))) s))
        else (false, protocol_error s)

    -- A round of the loop of `consume_stream_bytes`, with `loop` what follows it.
    abbrev pub round : (List ℕ → Core → List ℕ × Core) → List ℕ → Core → Received → List ℕ × Core
    round loop buffer s incomplete = (buffer, s)
    round loop buffer s mismatch = (buffer, protocol_error s)
    round loop buffer s (frame command id payload rest) =
        let (go_on, s') = dispatch command id payload s in
        let more = loop rest s' in if go_on then more else (buffer, s')

    -- The loop on the buffer and the rest of the session, with fuel for its rounds.
    unfoldable pub consume_loop : ℕ → List ℕ → Core → List ℕ × Core
    consume_loop zero buffer s = (buffer, s)
    consume_loop (suc fuel) buffer s =
        if s.closed
        then (buffer, s)
        else round (consume_loop fuel) buffer s (read_frame s.config buffer)

    -- A round takes 8 bytes at least.
    unfoldable pub consume_stream_bytes : List ℕ → Session → Session
    unfolding protocol_error
    consume_stream_bytes bytes s =
        let buffer = s.receive_buffer ++ bytes in
        let (rest, core) = consume_loop (suc (length buffer)) buffer s.core in
        if ltb (at_least_one s.core.config.smuxbuf) (length s.receive_buffer + length bytes)
        then record s { core = protocol_error s.core }
        else record s { core = core; receive_buffer = rest }

    unfoldable pub consume_all : List (List ℕ) → Session → Session
    consume_all [] s = s
    consume_all (chunk ∷ chunks) s = consume_all chunks (consume_stream_bytes chunk s)

    -- An exception of the decoder closes the session, so the state that it leaves in the decoder is
    -- never read.
    abbrev pub decoded_bytes : Decoded → Session → Session
    decoded_bytes (decoded chunks d) s = consume_all chunks (record s { decompressor = d })
    decoded_bytes (failed e) s = record s { core = protocol_error s.core }
    decoded_bytes stuck s = s

    unfoldable pub on_transport_bytes : ℕ → List ℕ → Session → Session
    unfolding consume_stream_bytes consume_all protocol_error
    on_transport_bytes now bytes s =
        let s' = record s { core = record s.core { last_activity = now } } in
        if s.core.closed || is_empty bytes
        then s
        else if not s.core.config.nocomp
        then decoded_bytes (decode snappy s.decompressor bytes) s'
        else consume_stream_bytes bytes s'

  unfoldable pub arm_keepalive : Core → Core
  arm_keepalive s =
      if s.closed then s else put (start_keepalive_timer (at_least_one s.config.keepalive)) s

  -- `smux_timeout` is 30 seconds, on a clock of nanoseconds.
  unfoldable pub keepalive_tick : ℕ → Core → Core
  unfolding send close arm_keepalive
  keepalive_tick now s =
      let s' = send nop 0 [] s in
      if s.closed
      then s
      else if ltb (s'.last_activity + 30_000_000_000) now
      then close s'
      else arm_keepalive s'

  unfoldable pub start : Core → Core
  unfolding arm_keepalive
  start s = arm_keepalive (put transport_start s)

-- The constructor, with the pad that it makes where the configuration asks for one.
unfoldable pub make_session : BaseConfig → Bool → Option QppPad → ℕ → Session
make_session config client pad now = record {
  core = record {
    config = config;
    client = client;
    accept_handler = none;
    wrote_identifier = false;
    qpp_pad = pad;
    streams = [];
    last_activity = now;
    next_stream_id = if client then 1 else 0;
    closed = false;
    output = [];
  };
  decompressor = record { buffer = []; saw_identifier = false };
  receive_buffer = [];
}
