-- ===== src/Kcp/State.antt =====
-- `KcpSession`: its fields, what it calls of ikcp, and what it asks of the sockets and the timers.
-- Logging is left out.
use shimakaze.Common.{ℕ, Bool, List, [], ◌∷◌, ◌++◌, Option, none, some, if◌then◌else◌}
use shimakaze.Common.Int.{ℤ}
use shimakaze.Config.Base.{BaseConfig}
use shimakaze.Crypto.Packet.{PacketCrypt}

infix 10 ◌>>=◌
abbrev pub ◌>>=◌ {ℓ κ} : {A : Type ℓ} {B : Type κ} → Option A → (A → Option B) → Option B
none >>= f = none
some a >>= f = f a

-- What kcp_session.cpp calls of ikcp. `update` and `flush` also give the packets that they pass to the output
-- callback; `recv` gives none where `ikcp_recv` is not positive; a `none` of `input` is a negative
-- result.
pub record Ikcp (K : Type 0) : Type 0 where
  pub create : ℕ → Option K
  pub nodelay : ℤ → ℤ → ℤ → ℤ → K → K
  pub wndsize : ℤ → ℤ → K → K
  pub setmtu : ℕ → K → Option K
  pub stream_mode : K → K
  pub input : List ℕ → K → Option K
  pub update : ℕ → K → List (List ℕ) × K
  pub flush : K → List (List ℕ) × K
  pub send : List ℕ → K → ℤ × K
  pub peeksize : K → ℤ
  pub recv : ℕ → K → Option (List ℕ) × K

-- What a handler asks for, in the order of the calls.
pub data Effect : Type 0 where
  async_resolve : Effect
  async_connect : Effect
  async_read : Effect
  async_write : List ℕ → Effect
  send_to : List ℕ → Effect
  start_update_timer : ℕ → Effect
  start_close_timer : ℕ → Effect
  cancel_timers : Effect
  cancel_resolver : Effect
  shutdown_send : Effect
  close_socket : Effect
  close_handler : ℕ → Effect

-- `FrameType`.
pub data FrameType : Type 0 where
  data' fin : FrameType

-- The fields but for `kcp_stream_buffer_`. `draw` gives the random bytes of each packet in turn.
pub record Core (K : Type 0) : Type 0 where
  pub conv : ℕ
  pub config : BaseConfig
  pub crypt : PacketCrypt
  pub kcp : K
  pub draw : ℕ → List ℕ
  pub drawn : ℕ
  pub socket_open : Bool
  pub pending_tcp_writes : List (List ℕ)
  pub tcp_write_active : Bool
  pub tcp_ready : Bool
  pub closing : Bool
  pub local_fin_sent : Bool
  pub remote_fin_received : Bool
  pub server_connecting : Bool
  pub effects : List Effect

pub record Session (K : Type 0) : Type 0 where
  pub core : Core K
  pub stream_buffer : List ℕ

module _ {K : Type 0} where
  abbrev pub emit : Effect → Core K → Core K
  emit e s = record s { effects = s.effects ++ (e ∷ []) }

  abbrev pub when : Bool → (Core K → Core K) → Core K → Core K
  when b f s = if b then f s else s
