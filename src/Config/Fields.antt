-- ===== src/Config/Fields.antt =====
-- The options that clients and servers share: `assign_common`.
use shimakaze.Common.{Bool, ℕ, ◌||◌, if◌then◌else◌, List}
use shimakaze.Common.Int.{ℤ}
use shimakaze.Common.Text.{codes, same}
use shimakaze.Config.Base.{BaseConfig}
use shimakaze.Config.Values.{
  Result, accepted, refused, unknown_option, ◌>>=◌, normalize_key, parse_bool, parse_int,
}

abbrev with_int : List ℕ → (ℤ → BaseConfig) → Result BaseConfig
with_int value f = parse_int value >>= λ n. accepted (f n)

abbrev with_bool : List ℕ → (Bool → BaseConfig) → Result BaseConfig
with_bool value f = parse_bool value >>= λ b. accepted (f b)

-- The options that hold an integer, by their normalized name.
unfoldable pub assign_int : BaseConfig → List ℕ → List ℕ → Result BaseConfig
assign_int config key value =
    if same key (codes "mtu")
    then with_int value (λ n. record config { mtu = n })
    else if same key (codes "ratelimit")
    then with_int value (λ n. record config { ratelimit = n })
    else if same key (codes "sndwnd")
    then with_int value (λ n. record config { sndwnd = n })
    else if same key (codes "rcvwnd")
    then with_int value (λ n. record config { rcvwnd = n })
    else if same key (codes "datashard") || same key (codes "ds")
    then with_int value (λ n. record config { datashard = n })
    else if same key (codes "parityshard") || same key (codes "ps")
    then with_int value (λ n. record config { parityshard = n })
    else if same key (codes "dscp")
    then with_int value (λ n. record config { dscp = n })
    else if same key (codes "nodelay")
    then with_int value (λ n. record config { nodelay = n })
    else if same key (codes "interval")
    then with_int value (λ n. record config { interval = n })
    else if same key (codes "resend")
    then with_int value (λ n. record config { resend = n })
    else if same key (codes "nc")
    then with_int value (λ n. record config { nc = n })
    else if same key (codes "sockbuf")
    then with_int value (λ n. record config { sockbuf = n })
    else if same key (codes "smuxver")
    then with_int value (λ n. record config { smuxver = n })
    else if same key (codes "smuxbuf")
    then with_int value (λ n. record config { smuxbuf = n })
    else if same key (codes "framesize")
    then with_int value (λ n. record config { framesize = n })
    else if same key (codes "streambuf")
    then with_int value (λ n. record config { streambuf = n })
    else if same key (codes "keepalive")
    then with_int value (λ n. record config { keepalive = n })
    else if same key (codes "closewait")
    then with_int value (λ n. record config { closewait = n })
    else if same key (codes "snmpperiod")
    then with_int value (λ n. record config { snmpperiod = n })
    else if same key (codes "qppcount")
    then with_int value (λ n. record config { qpp_count = n })
    else refused unknown_option

-- The texts and the booleans first: the names differ, so that the order of the tests is free.
unfoldable pub assign_named : BaseConfig → List ℕ → List ℕ → Result BaseConfig
unfolding assign_int
assign_named config key value =
    if same key (codes "key")
    then accepted (record config { key = value })
    else if same key (codes "crypt")
    then accepted (record config { crypt = value })
    else if same key (codes "mode")
    then accepted (record config { mode = value })
    else if same key (codes "snmplog")
    then accepted (record config { snmplog = value })
    else if same key (codes "log")
    then accepted (record config { log_path = value })
    else if same key (codes "loglevel")
    then accepted (record config { loglevel = value })
    else if same key (codes "nocomp")
    then with_bool value (λ b. record config { nocomp = b })
    else if same key (codes "acknodelay")
    then with_bool value (λ b. record config { acknodelay = b })
    else if same key (codes "quiet")
    then with_bool value (λ b. record config { quiet = b })
    else if same key (codes "tcp")
    then with_bool value (λ b. record config { tcp = b })
    else if same key (codes "pprof")
    then with_bool value (λ b. record config { pprof = b })
    else if same key (codes "qpp")
    then with_bool value (λ b. record config { qpp = b })
    else assign_int config key value

unfoldable pub assign_common : BaseConfig → List ℕ → List ℕ → Result BaseConfig
unfolding normalize_key assign_named
assign_common config raw_key value = assign_named config (normalize_key raw_key) value
