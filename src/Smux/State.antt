-- ===== src/Smux/State.antt =====
-- `SmuxStream`: its fields, and what it asks of the session, the socket and the timers. Logging is
-- left out, and the TCP and the Unix socket are one socket: their handlers are the same.
use shimakaze.Common.{
  ℕ, ◌+◌, ◌-◌, ◌%◌, ◌^◌, Bool, true, false, not, if◌then◌else◌, List, [], ◌∷◌, ◌++◌, Option, some,
}
use shimakaze.Config.Base.{BaseConfig}
use shimakaze.Qpp.Stream.{QppStream}

pub data Command : Type 0 where
  syn fin psh nop upd : Command

-- What a handler asks for, in the order of the calls.
pub data Effect : Type 0 where
  send_frame : Command → ℕ → List ℕ → Effect
  send_update : ℕ → ℕ → ℕ → Effect
  async_resolve : Effect
  async_connect : Effect
  async_read : Effect
  async_write : List ℕ → Effect
  shutdown_send : Effect
  start_close_timer : ℕ → Effect
  cancel_timers : Effect
  close_socket : Effect
  stream_closed : ℕ → Effect

-- `PendingBuffer`.
pub record Pending : Type 0 where
  pub bytes : List ℕ
  pub offset : ℕ

pub record Stream : Type 0 where
  pub id : ℕ
  pub config : BaseConfig
  -- The configuration behind `session_.lock()`; `none` when the session is gone.
  pub session : Option BaseConfig
  pub socket_open : Bool
  pub qpp : QppStream
  pub pending_outbound : List Pending
  pub pending_tcp_writes : List (List ℕ)
  pub num_read : ℕ
  pub num_written : ℕ
  pub incr : ℕ
  pub peer_consumed : ℕ
  pub peer_window : ℕ
  pub tcp_ready : Bool
  pub tcp_write_active : Bool
  pub local_fin_sent : Bool
  pub remote_fin_received : Bool
  pub closed : Bool
  pub server_connecting : Bool
  -- What the stream has asked for so far.
  pub effects : List Effect

abbrev pub u32 : ℕ → ℕ
u32 x = x % 2 ^ 32

abbrev pub emit : Effect → Stream → Stream
emit e s = record s { effects = s.effects ++ (e ∷ []) }

abbrev pub when : Bool → (Stream → Stream) → Stream → Stream
when b f s = if b then f s else s

unfoldable pub make_stream : ℕ → BaseConfig → QppStream → Stream
make_stream id config qpp = record {
  id = id;
  config = config;
  session = some config;
  socket_open = false;
  qpp = qpp;
  pending_outbound = [];
  pending_tcp_writes = [];
  num_read = 0;
  num_written = 0;
  incr = 0;
  peer_consumed = 0;
  peer_window = 262144;
  tcp_ready = false;
  tcp_write_active = false;
  local_fin_sent = false;
  remote_fin_received = false;
  closed = false;
  server_connecting = false;
  effects = [];
}

abbrev pub is_empty {ℓ} : {A : Type ℓ} → List A → Bool
is_empty [] = true
is_empty (x ∷ xs) = false

abbrev pub has_pending_outbound : Stream → Bool
has_pending_outbound s = not (is_empty s.pending_outbound)

-- `num_written_ - peer_consumed_` on `uint32_t`.
abbrev pub inflight : Stream → ℕ
inflight s = (s.num_written + 2 ^ 32 - s.peer_consumed) % 2 ^ 32
