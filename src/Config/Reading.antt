-- ===== src/Config/Reading.antt =====
-- `parse_client_config` and `parse_server_config`: the environment, the command line, the JSON file, and the
-- checks. Boost.JSON, the file and the environment are parameters.
use shimakaze.Common.{ℕ, Bool, false, if◌then◌else◌, List, [], ◌∷◌, Option, none, some}
use shimakaze.Common.Int.{ℤ, pos}
use shimakaze.Common.Text.{codes, same}
use shimakaze.Config.Base.{BaseConfig}
use shimakaze.Config.Values.{
  Result, accepted, refused, json_error, ◌>>=◌, normalize_key, is_one_of, parse_int, to_string,
}
use shimakaze.Config.Fields.{assign_common}

-- The kinds of `boost::json::value` that are told apart.
pub data Json : Type 0 where
  string : List ℕ → Json
  boolean : Bool → Json
  integer : ℤ → Json
  other : Json

abbrev pub Object : Type 0
Object = List (List ℕ × Json)

-- `getenv`, the object in a file (`none` is an exception), and the order in which an `unordered_map` gives its
-- entries.
pub record Surroundings : Type 0 where
  pub environment : Option (List ℕ)
  pub read_object : List ℕ → Option Object
  pub iterate : List (List ℕ × List ℕ) → List (List ℕ × List ℕ)

pub record ClientConfig : Type 0 where
  pub base : BaseConfig
  pub localaddr : List ℕ
  pub remoteaddr : List ℕ
  pub conn : ℤ
  pub autoexpire : ℤ
  pub scavengettl : ℤ

pub record ServerConfig : Type 0 where
  pub base : BaseConfig
  pub listen : List ℕ
  pub target : List ℕ

-- The initializers of `BaseConfig`.
abbrev pub default_base : BaseConfig
default_base = record {
  key = codes "it's a secrect";
  crypt = codes "aes";
  mode = codes "fast";
  mtu = pos 1350;
  ratelimit = pos 0;
  sndwnd = pos 128;
  rcvwnd = pos 512;
  datashard = pos 10;
  parityshard = pos 3;
  dscp = pos 0;
  nocomp = false;
  acknodelay = false;
  nodelay = pos 0;
  interval = pos 50;
  resend = pos 0;
  nc = pos 0;
  sockbuf = pos 4194304;
  smuxver = pos 2;
  smuxbuf = pos 4194304;
  framesize = pos 8192;
  streambuf = pos 2097152;
  keepalive = pos 10;
  closewait = pos 0;
  snmplog = [];
  snmpperiod = pos 60;
  log_path = [];
  loglevel = codes "info";
  quiet = false;
  tcp = false;
  pprof = false;
  qpp = false;
  qpp_count = pos 61;
}

abbrev pub default_client : ClientConfig
default_client = record {
  base = record default_base { sndwnd = pos 128; rcvwnd = pos 512; closewait = pos 0 };
  localaddr = codes ":12948";
  remoteaddr = codes "vps:29900";
  conn = pos 1;
  autoexpire = pos 0;
  scavengettl = pos 600;
}

abbrev pub default_server : ServerConfig
default_server = record {
  base = record default_base { sndwnd = pos 1024; rcvwnd = pos 1024; closewait = pos 30 };
  listen = codes ":29900";
  target = codes "127.0.0.1:12948";
}

unfoldable pub json_value_to_string : Json → Result (List ℕ)
unfolding to_string
json_value_to_string (string text) = accepted text
json_value_to_string (boolean b) = accepted (if b then codes "true" else codes "false")
json_value_to_string (integer n) = accepted (to_string n)
json_value_to_string other = refused json_error

unfoldable pub apply_json_common : Object → BaseConfig → Result BaseConfig
unfolding json_value_to_string assign_common
apply_json_common [] config = accepted config
apply_json_common ((key, value) ∷ rest) config =
    let own = is_one_of (normalize_key key) (
      codes "localaddr"
      ∷ codes "remoteaddr"
      ∷ codes "conn"
      ∷ codes "autoexpire"
      ∷ codes "scavengettl"
      ∷ codes "listen"
      ∷ codes "target"
      ∷ []) in
    let assigned : Result BaseConfig =
      if own then accepted config else json_value_to_string value >>= assign_common config key in
    assigned >>= apply_json_common rest

-- `if_contains`.
unfoldable pub lookup : List ℕ → Object → Option Json
lookup key [] = none
lookup key ((k, v) ∷ rest) = let later = lookup key rest in if same k key then some v else later

-- A field that the object may have.
abbrev pub if_given {ℓ} : {A : Type ℓ} → Option Json → (List ℕ → A → Result A) → A → Result A
if_given none f a = accepted a
if_given (some value) f a = json_value_to_string value >>= λ text. f text a

abbrev pub opened : Option Object → Result Object
opened none = refused json_error
opened (some object) = accepted object

module _ (around : Surroundings) where
  unfoldable pub load_client : List ℕ → ClientConfig → Result ClientConfig
  unfolding apply_json_common lookup
  load_client path config = opened (around.read_object path) >>= λ object.
      apply_json_common object config.base >>= λ base.
      if_given (lookup (codes "localaddr") object)
        (λ text (c : ClientConfig). accepted (record c { localaddr = text }))
        (record config { base = base })
      >>= if_given (lookup (codes "remoteaddr") object)
          (λ text (c : ClientConfig). accepted (record c { remoteaddr = text }))
      >>= if_given (lookup (codes "conn") object)
          (λ text (c : ClientConfig). parse_int text >>= λ n. accepted (record c { conn = n }))
      >>= if_given (lookup (codes "autoexpire") object) (λ text (c : ClientConfig).
        parse_int text >>= λ n. accepted (record c { autoexpire = n }))
      >>= if_given (lookup (codes "scavengettl") object) (λ text (c : ClientConfig).
        parse_int text >>= λ n. accepted (record c { scavengettl = n }))

  unfoldable pub load_server : List ℕ → ServerConfig → Result ServerConfig
  unfolding apply_json_common lookup
  load_server path config = opened (around.read_object path) >>= λ object.
      apply_json_common object config.base >>= λ base.
      if_given (lookup (codes "listen") object)
        (λ text (c : ServerConfig). accepted (record c { listen = text }))
        (record config { base = base })
      >>= if_given (lookup (codes "target") object)
          (λ text (c : ServerConfig). accepted (record c { target = text }))
