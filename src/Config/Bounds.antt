-- ===== src/Config/Bounds.antt =====
-- The settings that the program accepts.
use shimakaze.Common.{
  ◌⊎◌, inl, inr, Bool-cases, ℕ, ◌+◌, ◌^◌, ◌≤◌, ◌&&◌, ◌||◌, Bool, true, false, if◌then◌else◌, List,
  ◌≡◌, refl, ap, ◌∙◌, sym, subst, arith,
}
use shimakaze.Common.Int.{ℤ, pos, negsuc, at_least_zero, below, above, wrap_int, above-wrap_int}
use shimakaze.Config.Base.{BaseConfig}
use shimakaze.Config.Values.{ConfigError, Result, accepted, refused, bad_conn, ◌>>=◌}
use shimakaze.Config.Checks.{apply_mode, sanitize_common, validate_common_config}
use shimakaze.Config.Reading.{Surroundings, ClientConfig, ServerConfig}
use shimakaze.Config.Parsing.{
  read_client, read_server, check_conn, checked_client, checked_server, finish_common,
  parse_client_config, parse_server_config,
}

unfoldable pub IsFrom : ℕ → ℤ → Type 0
IsFrom low (pos n) = low ≤ n
IsFrom low (negsuc n) = ⊥

unfoldable pub IsUpTo : ℕ → ℤ → Type 0
IsUpTo high (pos n) = n ≤ high
IsUpTo high (negsuc n) = Unit

pub record IsValid (c : BaseConfig) : Type 0 where
  pub mtu : IsFrom 576 c.mtu × IsUpTo 65535 c.mtu
  pub ratelimit : IsFrom 0 c.ratelimit
  pub interval : IsFrom 1 c.interval
  pub windows : IsFrom 1 c.sndwnd × IsFrom 1 c.rcvwnd
  pub shards : IsFrom 0 c.datashard × IsFrom 0 c.parityshard
  pub shard_sum :
      (at_least_zero c.datashard + at_least_zero c.parityshard ≤ 256)
      ⊎ (2 ^ 31 ≤ at_least_zero c.datashard + at_least_zero c.parityshard)
  pub smuxver : IsUpTo 2 c.smuxver
  pub smuxbuf : IsFrom 1 c.smuxbuf
  pub framesize : IsFrom 1 c.framesize
  pub streambuf : IsFrom 1 c.streambuf
  pub keepalive : IsFrom 1 c.keepalive
  pub qpp : (c.qpp ≡ false) ⊎ (IsFrom 1 c.qpp_count × IsUpTo 65535 c.qpp_count)

below-IsFrom : (low : ℕ) (x : ℤ) → below x low ≡ false → IsFrom low x
unfolding IsFrom
below-IsFrom low (pos n) h = ground arith
below-IsFrom low (negsuc n) h = ground arith

above-IsUpTo : (high : ℕ) (x : ℤ) → above x high ≡ false → IsUpTo high x
unfolding IsUpTo
above-IsUpTo high (pos n) h = ground arith
above-IsUpTo high (negsuc n) h = tt

-- A refusal under a test, and the rest.
passed {ℓ} :
    {A : Type ℓ} (b : Bool) (e : ConfigError) (r : Result A) (a : A)
    → (if b then refused e else r) ≡ accepted a
    → (b ≡ false) × (r ≡ accepted a)
passed true e r a h = absurd cc
passed false e r a h = (refl, h)

bind-accepted {ℓ κ} :
    {A : Type ℓ} {B : Type κ} (r : Result A) (f : A → Result B) (b : B)
    → (r >>= f) ≡ accepted b
    → (a : A) × (r ≡ accepted a) × (f a ≡ accepted b)
bind-accepted (accepted a) f b h = (a, refl, h)
bind-accepted (refused e) f b h = absurd cc

accepted-injective {ℓ} : {A : Type ℓ} (a b : A) → accepted a ≡ accepted b → a ≡ b
accepted-injective a b h = cc

or_false : (a b : Bool) → (a || b) ≡ false → (a ≡ false) × (b ≡ false)
or_false false b h = (refl, h)
or_false true b h = absurd (ground arith)

sanitize_common-IsFrom : (c : BaseConfig) → IsFrom 0 (sanitize_common c).ratelimit
unfolding sanitize_common IsFrom
sanitize_common-IsFrom c = go (below c.ratelimit 0) refl
  where
    go :
        (b : Bool)
        → below c.ratelimit 0 ≡ b
        → IsFrom 0 (if b then record c { ratelimit = pos 0 } else c).ratelimit
    go true e = omega arith
    go false e = below-IsFrom 0 c.ratelimit e

qpp_count-lem :
    (c : BaseConfig)
    → (c.qpp && (below c.qpp_count 1 || above c.qpp_count 65535)) ≡ false
    → (c.qpp ≡ false) ⊎ (IsFrom 1 c.qpp_count × IsUpTo 65535 c.qpp_count)
qpp_count-lem c h = elim (Bool-cases c.qpp) [
  | inr off ↦ inl off
  | inl on ↦
      (let sides =
          or_false (below c.qpp_count 1) (above c.qpp_count 65535)
            (ap (λ b. b && (below c.qpp_count 1 || above c.qpp_count 65535)) (sym on) ∙ h) in
        inr (below-IsFrom 1 c.qpp_count sides.0, above-IsUpTo 65535 c.qpp_count sides.1))
]

-- A sum that passes the test is small, or passes `int`.
sum-bound : (sum : ℕ) → above (wrap_int sum) 256 ≡ false → (sum ≤ 256) ⊎ (2 ^ 31 ≤ sum)
sum-bound sum h = ground (arith, h, above-wrap_int sum 256)

validate_common_config-IsValid :
    (c d : BaseConfig) → IsFrom 0 c.ratelimit → validate_common_config c ≡ accepted d → IsValid d
unfolding validate_common_config
validate_common_config-IsValid c d rate h =
    let p1 = passed _ _ _ d h in
    let p2 = passed _ _ _ d p1.1 in
    let p3 = passed _ _ _ d p2.1 in
    let p4 = passed _ _ _ d p3.1 in
    let p5 = passed _ _ _ d p4.1 in
    let p6 = passed _ _ _ d p5.1 in
    let p7 = passed _ _ _ d p6.1 in
    let mtu = or_false (below c.mtu 576) (above c.mtu 65535) p1.0 in
    let windows = or_false (below c.sndwnd 1) (below c.rcvwnd 1) p3.0 in
    let shards = or_false (below c.datashard 0) _ p4.0 in
    let parity = or_false (below c.parityshard 0) _ shards.1 in
    let sizes = or_false (below c.smuxbuf 1) _ p6.0 in
    let frames = or_false (below c.framesize 1) _ sizes.1 in
    let streams = or_false (below c.streambuf 1) _ frames.1 in
    subst IsValid (accepted-injective c d p7.1) (record {
      mtu = (below-IsFrom 576 c.mtu mtu.0, above-IsUpTo 65535 c.mtu mtu.1);
      ratelimit = rate;
      interval = below-IsFrom 1 c.interval p2.0;
      windows = (below-IsFrom 1 c.sndwnd windows.0, below-IsFrom 1 c.rcvwnd windows.1);
      shards = (below-IsFrom 0 c.datashard shards.0, below-IsFrom 0 c.parityshard parity.0);
      shard_sum = sum-bound _ parity.1;
      smuxver = above-IsUpTo 2 c.smuxver p5.0;
      smuxbuf = below-IsFrom 1 c.smuxbuf sizes.0;
      framesize = below-IsFrom 1 c.framesize frames.0;
      streambuf = below-IsFrom 1 c.streambuf streams.0;
      keepalive = below-IsFrom 1 c.keepalive streams.1;
      qpp = qpp_count-lem c p7.0;
    })

finish_common-IsValid : (c d : BaseConfig) → finish_common c ≡ accepted d → IsValid d
unfolding finish_common
finish_common-IsValid c d =
    validate_common_config-IsValid (sanitize_common (apply_mode c)) d
      (sanitize_common-IsFrom (apply_mode c))

module _ (around : Surroundings) where
  -- Whatever the arguments, the environment and the file hold, and in whatever order the entries of the command
  -- line come: settings that `parse_client_config` accepts are in the bounds of `IsValid` (the MTU from 576 to
  -- 65535, positive interval, windows, buffers and keepalive, shards that are not negative and at most 256 in
  -- all unless their sum is 2 ^ 31 or more, which `int` does not hold, a smux version up to 2, and a QPP count from 1
  -- to 65535 where QPP is on), and `conn` is positive.
  pub parse_client_config-IsValid :
      (args : List (List ℕ)) (c : ClientConfig)
      → parse_client_config around args ≡ accepted c
      → IsValid c.base × IsFrom 1 c.conn
  unfolding parse_client_config
  parse_client_config-IsValid args c h =
      let (config, came, left) =
        bind-accepted (read_client around args) (checked_client around) c h in
      let (base, valid, last) =
        bind-accepted (finish_common config.base) (check_conn around config) c left in
      let (conn, same) =
        passed (below config.conn 1) bad_conn (accepted (record config { base = base })) c last in
      subst (λ (t : ClientConfig). IsValid t.base × IsFrom 1 t.conn)
        (accepted-injective (record config { base = base }) c same)
        (finish_common-IsValid config.base base valid, below-IsFrom 1 config.conn conn)

  -- Settings that `parse_server_config` accepts are in the same bounds of `IsValid`; they have no `conn`.
  pub parse_server_config-IsValid :
      (args : List (List ℕ)) (c : ServerConfig)
      → parse_server_config around args ≡ accepted c
      → IsValid c.base
  unfolding parse_server_config
  parse_server_config-IsValid args c h =
      let (config, came, left) =
        bind-accepted (read_server around args) (checked_server around) c h in
      let (base, valid, last) =
        bind-accepted (finish_common config.base) (λ b. accepted (record config { base = b })) c
          left in
      subst (λ (t : ServerConfig). IsValid t.base)
        (accepted-injective (record config { base = base }) c last)
        (finish_common-IsValid config.base base valid)
