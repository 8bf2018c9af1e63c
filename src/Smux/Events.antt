-- ===== src/Smux/Events.antt =====
-- What can happen to a `SmuxStream`, as events, in any order: the calls of its session and of its
-- owner, the completions of what it asked for, and the end of the session behind the weak pointer.
use shimakaze.Common.{ℕ, Bool, List, [], ◌∷◌, none}
use shimakaze.Smux.State.{Stream}
use shimakaze.Smux.Stream.{
  Outcome, on_data, on_fin, on_update, on_read, on_written, on_close_timer, start_client,
  start_server, start_server_unix, on_resolved, on_connected, close,
}

pub data Event : Type 0 where
  started_client : Bool → Event
  started_server : Event
  started_server_unix : Event
  resolved : Bool → Event
  connected : Bool → Bool → Event
  data_arrived : List ℕ → Event
  fin_arrived : Event
  update_arrived : ℕ → ℕ → Event
  read : Outcome → List ℕ → Event
  written : Outcome → ℕ → Event
  timer : Bool → Event
  closed_by_session : Event
  session_gone : Event

unfoldable pub handle : Event → Stream → Stream
handle (started_client gone) s = start_client gone s
handle started_server s = start_server s
handle started_server_unix s = start_server_unix s
handle (resolved error) s = on_resolved error s
handle (connected error gone) s = on_connected error gone s
handle (data_arrived payload) s = on_data payload s
handle fin_arrived s = on_fin s
handle (update_arrived consumed window) s = on_update consumed window s
handle (read outcome bytes) s = on_read outcome bytes s
handle (written outcome bytes) s = on_written outcome bytes s
handle (timer error) s = on_close_timer error s
handle closed_by_session s = close s
handle session_gone s = record s { session = none }

unfoldable pub run : List Event → Stream → Stream
run [] s = s
run (e ∷ es) s = run es (handle e s)
