-- ===== src/Config/Arguments.antt =====
-- The command line: `split_argument` and `scan_args`.
use shimakaze.Common.{
  ℕ, ◌+◌, ◌==◌, not, ◌||◌, if◌then◌else◌, List, [], ◌∷◌, Option, none, some, take, drop, get_or,
}
use shimakaze.Common.Text.{codes, same}
use shimakaze.Address.{find}
use shimakaze.Config.Values.{
  Result, accepted, refused, help_requested, version_requested, unexpected_argument, missing_value,
  normalize_key, is_bool_key,
}

-- `CliScan`: an association list with one value for each name.
pub record CliScan : Type 0 where
  pub values : List (List ℕ × List ℕ)
  pub config_path : List ℕ

unfoldable pub strip_dashes : List ℕ → List ℕ
strip_dashes [] = []
strip_dashes (c ∷ cs) = let rest = strip_dashes cs in if c == b'-' then rest else c ∷ cs

unfoldable pub split_argument : List ℕ → List ℕ × Option (List ℕ)
unfolding strip_dashes find
split_argument raw =
    let arg = strip_dashes raw in
    elim (find b'=' arg) [ none ↦ (arg, none) | some eq ↦ (take eq arg, some (drop (eq + 1) arg)) ]

unfoldable pub put_value : List ℕ → List ℕ → List (List ℕ × List ℕ) → List (List ℕ × List ℕ)
put_value key value [] = (key, value) ∷ []
put_value key value ((k, v) ∷ rest) =
    let later = put_value key value rest in if same k key then (k, value) ∷ rest else (k, v) ∷ later

unfoldable pub note_value : List ℕ → List ℕ → CliScan → CliScan
unfolding put_value
note_value normalized value scan =
    if same normalized (codes "c") || same normalized (codes "config")
    then record scan { config_path = value }
    else record scan { values = put_value normalized value scan.values }

-- What an argument is: a way out, or a flag with its value or without.
pub data Argument : Type 0 where
  stop_help stop_version positional : Argument
  given : List ℕ → List ℕ → Argument
  wanting : List ℕ → Argument

unfoldable pub read_argument : List ℕ → Argument
unfolding split_argument is_bool_key
read_argument raw =
    let (key, inline_value) = split_argument raw in
    let normalized = normalize_key key in
    let flag : Argument = elim inline_value [
      | some value ↦ given normalized value
      | none ↦
          if is_bool_key normalized then given normalized (codes "true") else wanting normalized
    ] in
    if same raw (codes "-h") || same raw (codes "--help") || same raw (codes "help")
    then stop_help
    else if same raw (codes "-v") || same raw (codes "--version") || same raw (codes "version")
    then stop_version
    else if not (get_or raw 0 0 == b'-')
    then positional
    else flag

-- The loop over the arguments behind the program's name.
unfoldable pub scan_args : List (List ℕ) → CliScan → Result CliScan
unfolding read_argument note_value
scan_args [] scan = accepted scan
scan_args (raw ∷ []) scan = elim (read_argument raw) [
  | stop_help ↦ refused help_requested
  | stop_version ↦ refused version_requested
  | positional ↦ refused unexpected_argument
  | given key value ↦ accepted (note_value key value scan)
  | wanting key ↦ refused missing_value
]
scan_args (raw ∷ next ∷ rest) scan = elim (read_argument raw) [
  | stop_help ↦ refused help_requested
  | stop_version ↦ refused version_requested
  | positional ↦ refused unexpected_argument
  | given key value ↦ scan_args (next ∷ rest) (note_value key value scan)
  | wanting key ↦ scan_args rest (note_value key next scan)
]
