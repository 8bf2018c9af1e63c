-- ===== src/Kcp/Setup.antt =====
-- The settings that the program accepts do for the sessions and the codecs made from them.
use shimakaze.Common.{
  ℕ, ◌+◌, ◌-◌, ◌≤◌, ◌&&◌, Bool, false, if◌then◌else◌, Option, none, some, ◌≡◌, ap, ◌∙◌, arith,
}
use shimakaze.Common.Int.{ℤ, pos, negsuc, at_least_zero, below, above, above-wrap_int}
use shimakaze.Config.Base.{BaseConfig}
use shimakaze.Config.Bounds.{IsFrom, IsValid}
use shimakaze.Crypto.Packet.{
  Library, PacketCrypt, Method, null, plain, block, salsa20, xor_stream, aes_gcm, overhead,
  overhead_by,
}
use shimakaze.Fec.Codec.{is_enabled}
use shimakaze.Kcp.State.{Ikcp}
use shimakaze.Kcp.Stream.{configure_kcp}

overhead_by-le : (m : Method) → overhead_by m ≤ 28
unfolding overhead_by
overhead_by-le null = omega arith
overhead_by-le plain = omega arith
overhead_by-le block = omega arith
overhead_by-le salsa20 = omega arith
overhead_by-le xor_stream = omega arith
overhead_by-le aes_gcm = omega arith

mtu-enough :
    (mtu : ℤ) (o : ℕ)
    → o ≤ 28
    → IsFrom 576 mtu
    → (below mtu (50 + o) ≡ false) × (50 ≤ at_least_zero mtu - o)
unfolding IsFrom
mtu-enough (pos n) o small h = (ground arith, omega arith)
mtu-enough (negsuc n) o small h = absurd h

-- `ikcp_setmtu` takes every MTU from 50 on.
unfoldable pub TakesMtu : {K : Type 0} → Ikcp K → Type 0
TakesMtu {K} ikcp = (mtu : ℕ) (k : K) → 50 ≤ mtu → (k' : K) × (ikcp.setmtu mtu k ≡ some k')

module _ {K : Type 0} (crypto : Library) (ikcp : Ikcp K) where
  -- With settings in the bounds of `IsValid`, any encryption, and an ikcp that takes every MTU from 50 on,
  -- `configure_kcp` does not throw: the MTU that is left behind the header of the encryption is large enough.
  -- And forward error correction is on just when both counts of shards are positive.
  pub configure_kcp-accepts :
      (config : BaseConfig) (crypt : PacketCrypt) (k : K)
      → IsValid config
      → TakesMtu ikcp
      → ((k' : K) × (configure_kcp crypto ikcp config crypt k ≡ some k'))
        × (is_enabled config.datashard config.parityshard
            ≡ (above config.datashard 0 && above config.parityshard 0))
  unfolding configure_kcp TakesMtu overhead is_enabled
  configure_kcp-accepts config crypt k h takes = (
    (
      ikcp.stream_mode fitted.0,
      ap
            (λ (b : Bool). if b then none else elim (ikcp.setmtu room tuned) as (λ o. Option K) [
              | none ↦ none
              | some kcp' ↦ some (ikcp.stream_mode kcp')
            ])
            enough.0
          ∙ ap
              (λ (o : Option K). elim o as (λ o. Option K) [
                | none ↦ none
                | some kcp' ↦ some (ikcp.stream_mode kcp')
              ])
              fitted.1,
    ),
    ground (
      arith,
      h.shard_sum,
      above-wrap_int (at_least_zero config.datashard + at_least_zero config.parityshard) 256,
    ),
  )
    where
      room : ℕ
      room = at_least_zero config.mtu - overhead crypt

      tuned : K
      tuned =
          ikcp.wndsize config.sndwnd config.rcvwnd
            (ikcp.nodelay config.nodelay config.interval config.resend config.nc k)

      enough : (below config.mtu (50 + overhead crypt) ≡ false) × (50 ≤ room)
      enough = mtu-enough config.mtu (overhead crypt) (overhead_by-le crypt.method) h.mtu.0

      fitted : (k' : K) × (ikcp.setmtu room tuned ≡ some k')
      fitted = takes room tuned enough.1
