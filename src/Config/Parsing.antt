-- ===== src/Config/Parsing.antt =====
-- The command line applied to the settings, and `parse_client_config` and `parse_server_config`.
use shimakaze.Common.{ℕ, if◌then◌else◌, List, [], ◌∷◌, Option, none, some}
use shimakaze.Common.Int.{below}
use shimakaze.Common.Text.{codes, same}
use shimakaze.Config.Base.{BaseConfig}
use shimakaze.Config.Values.{
  Result, accepted, refused, bad_conn, ◌>>=◌, normalize_key, is_one_of, parse_int,
}
use shimakaze.Config.Fields.{assign_common}
use shimakaze.Config.Arguments.{CliScan, scan_args}
use shimakaze.Config.Checks.{apply_mode, sanitize_common, validate_common_config}
use shimakaze.Config.Reading.{
  Surroundings, ClientConfig, ServerConfig, default_client, default_server, load_client,
  load_server,
}

abbrev Values : Type 0
Values = List (List ℕ × List ℕ)

unfoldable pub apply_cli_common : Values → BaseConfig → Result BaseConfig
unfolding assign_common normalize_key
apply_cli_common [] config = accepted config
apply_cli_common ((key, value) ∷ rest) config =
    let own = is_one_of (normalize_key key) (
      codes "localaddr"
      ∷ codes "l"
      ∷ codes "remoteaddr"
      ∷ codes "r"
      ∷ codes "conn"
      ∷ codes "autoexpire"
      ∷ codes "scavengettl"
      ∷ codes "listen"
      ∷ codes "target"
      ∷ codes "t"
      ∷ []) in
    let assigned = if own then accepted config else assign_common config key value in
    assigned >>= apply_cli_common rest

unfoldable pub assign_client : List ℕ → List ℕ → ClientConfig → Result ClientConfig
unfolding normalize_key parse_int
assign_client key value c =
    let name = normalize_key key in
    if is_one_of name (codes "localaddr" ∷ codes "l" ∷ [])
    then accepted (record c { localaddr = value })
    else if is_one_of name (codes "remoteaddr" ∷ codes "r" ∷ [])
    then accepted (record c { remoteaddr = value })
    else if same name (codes "conn")
    then (parse_int value >>= λ n. accepted (record c { conn = n }))
    else if same name (codes "autoexpire")
    then (parse_int value >>= λ n. accepted (record c { autoexpire = n }))
    else if same name (codes "scavengettl")
    then (parse_int value >>= λ n. accepted (record c { scavengettl = n }))
    else accepted c

unfoldable pub assign_server : List ℕ → List ℕ → ServerConfig → Result ServerConfig
unfolding normalize_key
assign_server key value c =
    let name = normalize_key key in
    if is_one_of name (codes "listen" ∷ codes "l" ∷ [])
    then accepted (record c { listen = value })
    else if is_one_of name (codes "target" ∷ codes "t" ∷ [])
    then accepted (record c { target = value })
    else accepted c

unfoldable pub assign_each {ℓ} :
    {A : Type ℓ} → (List ℕ → List ℕ → A → Result A) → Values → A → Result A
assign_each assign [] c = accepted c
assign_each assign ((key, value) ∷ rest) c = assign key value c >>= assign_each assign rest

unfoldable pub apply_client_cli : Values → ClientConfig → Result ClientConfig
unfolding apply_cli_common assign_client assign_each
apply_client_cli values c = apply_cli_common values c.base >>= λ base.
    assign_each assign_client values (record c { base = base })

unfoldable pub apply_server_cli : Values → ServerConfig → Result ServerConfig
unfolding apply_cli_common assign_server assign_each
apply_server_cli values c = apply_cli_common values c.base >>= λ base.
    assign_each assign_server values (record c { base = base })

unfoldable pub apply_env : Option (List ℕ) → BaseConfig → BaseConfig
apply_env none config = config
apply_env (some []) config = config
apply_env (some (c ∷ cs)) config = record config { key = c ∷ cs }

-- The steps behind the reading.
unfoldable pub finish_common : BaseConfig → Result BaseConfig
unfolding apply_mode sanitize_common validate_common_config
finish_common config = validate_common_config (sanitize_common (apply_mode config))

-- Reading a file, when the command line names one.
abbrev pub unless_empty {ℓ} : {A : Type ℓ} → List ℕ → (List ℕ → A → Result A) → A → Result A
unless_empty [] load c = accepted c
unless_empty (x ∷ xs) load c = load (x ∷ xs) c

module _ (around : Surroundings) where
  abbrev no_values : CliScan
  no_values = record { values = []; config_path = [] }

  -- The settings as read, before they are checked.
  unfoldable pub read_client : List (List ℕ) → Result ClientConfig
  unfolding apply_env scan_args apply_client_cli load_client
  read_client args = scan_args args no_values >>= λ scan.
      apply_client_cli (around.iterate scan.values)
        (record default_client { base = apply_env around.environment default_client.base })
      >>= unless_empty scan.config_path (load_client around)

  unfoldable pub read_server : List (List ℕ) → Result ServerConfig
  unfolding apply_env scan_args apply_server_cli load_server
  read_server args = scan_args args no_values >>= λ scan.
      apply_server_cli (around.iterate scan.values)
        (record default_server { base = apply_env around.environment default_server.base })
      >>= unless_empty scan.config_path (load_server around)

  abbrev pub check_conn : ClientConfig → BaseConfig → Result ClientConfig
  check_conn c base =
      if below c.conn 1 then refused bad_conn else accepted (record c { base = base })

  abbrev pub checked_client : ClientConfig → Result ClientConfig
  checked_client c = finish_common c.base >>= check_conn c

  abbrev pub checked_server : ServerConfig → Result ServerConfig
  checked_server c = finish_common c.base >>= λ base. accepted (record c { base = base })

  unfoldable pub parse_client_config : List (List ℕ) → Result ClientConfig
  unfolding read_client finish_common
  parse_client_config args = read_client args >>= checked_client

  unfoldable pub parse_server_config : List (List ℕ) → Result ServerConfig
  unfolding read_server finish_common
  parse_server_config args = read_server args >>= checked_server
