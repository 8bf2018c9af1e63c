-- ===== src/Config/Values.antt =====
-- The texts of config.cpp: names of options, booleans and integers, and how reading them fails.
use mathlib.Core.List.{reverse}
use shimakaze.Common.{
  ℕ, zero, suc, ◌^◌, ltb, leb, ◌==◌, Bool, true, false, ◌&&◌, ◌||◌, if◌then◌else◌, List, [], ◌∷◌,
  Option, none, some,
}
use shimakaze.Common.Int.{ℤ, pos, negsuc}
use shimakaze.Common.Text.{codes, same, to_lower}
use shimakaze.Address.{from_chars, digits_from}

-- The exceptions, without their texts.
pub data ConfigError : Type 0 where
  help_requested version_requested unexpected_argument missing_value invalid_boolean
        invalid_integer :
      ConfigError
  unknown_option json_error bad_mtu bad_interval bad_window bad_shards bad_smuxver bad_size
        bad_qpp_count bad_conn :
      ConfigError

pub data Result {ℓ} (A : Type ℓ) : Type ℓ where
  accepted : A → Result A
  refused : ConfigError → Result A

infixl 5 ◌>>=◌
abbrev pub ◌>>=◌ {ℓ κ} : {A : Type ℓ} {B : Type κ} → Result A → (A → Result B) → Result B
accepted a >>= f = f a
refused e >>= f = refused e

unfoldable pub normalize_key : List ℕ → List ℕ
unfolding to_lower
normalize_key [] = []
normalize_key (c ∷ cs) =
    let rest = normalize_key cs in if (c == b'-') || (c == b'_') then rest else to_lower c ∷ rest

abbrev pub is_one_of : List ℕ → List (List ℕ) → Bool
is_one_of key [] = false
is_one_of key (k ∷ ks) = same key k || is_one_of key ks

unfoldable pub is_bool_key : List ℕ → Bool
unfolding normalize_key
is_bool_key key = is_one_of (normalize_key key) (
    codes "nocomp"
    ∷ codes "acknodelay"
    ∷ codes "quiet"
    ∷ codes "tcp"
    ∷ codes "pprof"
    ∷ codes "qpp"
    ∷ [])

unfoldable pub parse_bool : List ℕ → Result Bool
unfolding normalize_key
parse_bool value =
    let normalized = normalize_key value in
    if is_one_of normalized (codes "1" ∷ codes "true" ∷ codes "yes" ∷ codes "on" ∷ [])
    then accepted true
    else if is_one_of normalized (codes "0" ∷ codes "false" ∷ codes "no" ∷ codes "off" ∷ [])
    then accepted false
    else refused invalid_boolean

-- `std::isspace` in the "C" locale.
abbrev pub is_space : ℕ → Bool
is_space c = (c == 32) || (leb 9 c && leb c 13)

unfoldable pub skip_spaces : List ℕ → List ℕ
skip_spaces [] = []
skip_spaces (c ∷ cs) = let rest = skip_spaces cs in if is_space c then rest else c ∷ cs

-- The digits of an `int` from a text that they must fill: `none` is another character, or no digit.
abbrev pub positive : Option ℕ → Result ℤ
positive none = refused invalid_integer
positive (some n) = if ltb n (2 ^ 31) then accepted (pos n) else refused invalid_integer

abbrev pub negative : Option ℕ → Result ℤ
negative none = refused invalid_integer
negative (some zero) = accepted (pos 0)
negative (some (suc n)) = if ltb n (2 ^ 31) then accepted (negsuc n) else refused invalid_integer

unfoldable pub signed : List ℕ → Result ℤ
unfolding from_chars
signed [] = refused invalid_integer
signed (c ∷ cs) =
    if c == b'-'
    then negative (from_chars cs)
    else if c == b'+'
    then positive (from_chars cs)
    else positive (from_chars (c ∷ cs))

-- `parse_int`: `std::stoi`, which skips white space, takes a sign and the digits, and must use the whole text.
unfoldable pub parse_int : List ℕ → Result ℤ
unfolding skip_spaces signed
parse_int value = signed (skip_spaces value)

-- `std::to_string` of a number of 64 bits.
unfoldable pub to_string : ℤ → List ℕ
unfolding digits_from
to_string (pos n) = reverse (digits_from 20 n)
to_string (negsuc n) = b'-' ∷ reverse (digits_from 20 (suc n))
