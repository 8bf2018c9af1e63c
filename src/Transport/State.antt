-- ===== src/Transport/State.antt =====
-- `KcpTransport`: its fields, its construction, and its timers. The statistics and the logging are left out.
use shimakaze.Common.{
  ℕ, ◌+◌, ◌-◌, Bool, true, false, if◌then◌else◌, List, [], ◌∷◌, ◌++◌, Option, none, some,
}
use shimakaze.Common.Int.{at_least_zero, at_least_one, below}
use shimakaze.Config.Base.{BaseConfig}
use shimakaze.Crypto.Packet.{Library, PacketCrypt, make_crypt, overhead}
use shimakaze.Fec.Codec.{FecCodec, make_codec, fec_header_size_plus_size}
use shimakaze.Kcp.State.{Ikcp, ◌>>=◌}

pub data Effect : Type 0 where
  send_to : List ℕ → Effect
  start_update_timer : ℕ → Effect
  start_rate_timer : ℕ → Effect
  cancel_timers : Effect
  close_handler : Effect

-- `owner` is what the read handler of the session changes of its own. Times are microseconds, and `draw` gives
-- the random bytes of each packet in turn.
pub record Transport (K O : Type 0) : Type 0 where
  pub conv : ℕ
  pub config : BaseConfig
  pub crypt : PacketCrypt
  pub fec : FecCodec
  pub kcp : K
  pub owner : O
  pub draw : ℕ → List ℕ
  pub drawn : ℕ
  pub pending_udp : List (List ℕ)
  pub next_tx_time : ℕ
  pub rate_send_active : Bool
  pub closing : Bool
  pub effects : List Effect

-- `FecCodec::overhead`.
abbrev pub fec_overhead : FecCodec → ℕ
fec_overhead fec = if fec.enabled then fec_header_size_plus_size else 0

unfoldable pub configure_kcp :
    {K : Type 0} → Ikcp K → BaseConfig → PacketCrypt → FecCodec → K → Option K
configure_kcp {K = K} ikcp config crypt fec kcp =
    let reserved = overhead crypt + fec_overhead fec in
    let tuned =
      ikcp.wndsize config.sndwnd config.rcvwnd
        (ikcp.nodelay config.nodelay config.interval config.resend config.nc kcp) in
    let fitted : Option K = elim (ikcp.setmtu (at_least_zero config.mtu - reserved) tuned) [
      | none ↦ none
      | some kcp' ↦ some (ikcp.stream_mode kcp')
    ] in
    if below config.mtu (50 + reserved) then none else fitted

module _ {K O : Type 0} where
  abbrev pub emit : Effect → Transport K O → Transport K O
  emit e s = record s { effects = s.effects ++ (e ∷ []) }

  unfoldable pub fresh_transport :
      ℕ → BaseConfig → PacketCrypt → FecCodec → K → O → (ℕ → List ℕ) → Transport K O
  fresh_transport conv config crypt fec kcp owner draw = record {
    conv = conv;
    config = config;
    crypt = crypt;
    fec = fec;
    kcp = kcp;
    owner = owner;
    draw = draw;
    drawn = 0;
    pending_udp = [];
    next_tx_time = 0;
    rate_send_active = false;
    closing = false;
    effects = [];
  }

  -- The constructor: a `none` is an exception.
  unfoldable pub make_transport :
      Library → Ikcp K → ℕ → BaseConfig → O → (ℕ → List ℕ) → Option (Transport K O)
  unfolding configure_kcp fresh_transport make_codec
  make_transport crypto ikcp conv config owner draw = do
    crypt ← make_crypt crypto config.key config.crypt
    fec ← make_codec config
    created ← ikcp.create conv
    kcp ← configure_kcp ikcp config crypt fec created
    some (fresh_transport conv config crypt fec kcp owner draw)

  unfoldable pub close : Transport K O → Transport K O
  close s =
      if s.closing then s else emit close_handler (emit cancel_timers (record s { closing = true }))

  unfoldable pub start_timer : Transport K O → Transport K O
  start_timer s =
      if s.closing then s else emit (start_update_timer (at_least_one s.config.interval)) s
