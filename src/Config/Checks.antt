-- ===== src/Config/Checks.antt =====
-- The mode presets, `sanitize_common` and `validate_common_config`. The level of the logger is not set here.
use shimakaze.Common.{ℕ, ◌+◌, ◌&&◌, ◌||◌, if◌then◌else◌}
use shimakaze.Common.Int.{pos, at_least_zero, below, above, wrap_int}
use shimakaze.Common.Text.{codes, same}
use shimakaze.Config.Base.{BaseConfig}
use shimakaze.Config.Values.{
  Result, accepted, refused, bad_mtu, bad_interval, bad_window, bad_shards, bad_smuxver, bad_size,
  bad_qpp_count, normalize_key,
}

unfoldable pub preset : ℕ → ℕ → BaseConfig → BaseConfig
preset nodelay interval config = record config {
  nodelay = pos nodelay;
  interval = pos interval;
  resend = pos 2;
  nc = pos 1;
}

unfoldable pub apply_mode : BaseConfig → BaseConfig
unfolding normalize_key preset
apply_mode config =
    let mode = normalize_key config.mode in
    if same mode (codes "normal")
    then preset 0 40 config
    else if same mode (codes "fast")
    then preset 0 30 config
    else if same mode (codes "fast2")
    then preset 1 20 config
    else if same mode (codes "fast3")
    then preset 1 10 config
    else config

unfoldable pub sanitize_common : BaseConfig → BaseConfig
sanitize_common config =
    if below config.ratelimit 0 then record config { ratelimit = pos 0 } else config

unfoldable pub validate_common_config : BaseConfig → Result BaseConfig
unfolding wrap_int
validate_common_config c =
    if below c.mtu 576 || above c.mtu 65535
    then refused bad_mtu
    else if below c.interval 1
    then refused bad_interval
    else if below c.sndwnd 1 || below c.rcvwnd 1
    then refused bad_window
    else if below c.datashard 0
        || (below c.parityshard 0
            || above (wrap_int (at_least_zero c.datashard + at_least_zero c.parityshard)) 256)
    then refused bad_shards
    else if above c.smuxver 2
    then refused bad_smuxver
    else if below c.smuxbuf 1
        || (below c.framesize 1 || (below c.streambuf 1 || below c.keepalive 1))
    then refused bad_size
    else if c.qpp && (below c.qpp_count 1 || above c.qpp_count 65535)
    then refused bad_qpp_count
    else accepted c
