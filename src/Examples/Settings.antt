-- ===== src/Examples/Settings.antt =====
-- Concrete runs of the reading of the settings.
use shimakaze.Common.{true, [], ◌∷◌, none, some, ◌≡◌, refl}
use shimakaze.Common.Int.{pos, negsuc}
use shimakaze.Common.Text.{codes}
use shimakaze.Config.Values.{
  accepted, refused, bad_mtu, invalid_integer, normalize_key, parse_bool, parse_int,
}
use shimakaze.Config.Reading.{
  Surroundings, ClientConfig, ServerConfig, default_client, default_server,
}
use shimakaze.Config.Parsing.{parse_client_config, parse_server_config}
use shimakaze.Config.Bounds.{
  IsFrom, IsValid, parse_client_config-IsValid, parse_server_config-IsValid,
}

abbrev surroundings : Surroundings
surroundings = record {
  environment = some (codes "k");
  read_object = λ path. none;
  iterate = λ values. values;
}

abbrev client_read : ClientConfig
client_read = record default_client {
  base = record (default_client.base) {
    key = codes "k";
    mtu = pos 1400;
    interval = pos 30;
    resend = pos 2;
    nc = pos 1;
  };
}

client_accepted :
    parse_client_config surroundings (codes "--mtu" ∷ codes "1400" ∷ []) ≡ accepted client_read
unfolding parse_client_config
client_accepted = refl

parse_client_config-IsValid_example : IsValid client_read.base × IsFrom 1 (pos 1)
parse_client_config-IsValid_example =
    parse_client_config-IsValid surroundings (codes "--mtu" ∷ codes "1400" ∷ []) client_read
      client_accepted

abbrev server_read : ServerConfig
server_read = record default_server {
  base = record (default_server.base) {
    key = codes "k";
    interval = pos 30;
    resend = pos 2;
    nc = pos 1;
    nocomp = true;
  };
}

server_accepted : parse_server_config surroundings (codes "-no-comp" ∷ []) ≡ accepted server_read
unfolding parse_server_config parse_bool
server_accepted = refl

parse_server_config-IsValid_example : IsValid server_read.base
parse_server_config-IsValid_example =
    parse_server_config-IsValid surroundings (codes "-no-comp" ∷ []) server_read server_accepted

small_mtu : parse_client_config surroundings (codes "--mtu=500" ∷ []) ≡ refused bad_mtu
unfolding parse_client_config
small_mtu = refl

negative_integer : parse_int (codes " -12") ≡ accepted (negsuc 11)
unfolding parse_int
negative_integer = refl

not_an_integer : parse_int (codes "12x") ≡ refused invalid_integer
unfolding parse_int
not_an_integer = refl

same_name : normalize_key (codes "Data-Shard") ≡ normalize_key (codes "data_shard")
unfolding normalize_key
same_name = refl
