-- ===== src/Address.antt =====
-- The addresses of utils.cpp: `parse_port`, `split_host_service`, `parse_multiport`, `join_host_port`.
-- An exception is `none`.
pub mod Decimal
pub mod RoundTrip
use mathlib.Core.List.{reverse}
use mathlib.Core.Option.{some-injective}
use mathlib.Core.Path.{subst}
use shimakaze.Common.{
  ℕ, zero, suc, ◌+◌, ◌-◌, ◌*◌, ◌/◌, ◌%◌, ◌<◌, ◌≤◌, ltb, leb, ◌==◌, Bool, true, false, not, ◌&&◌,
  ◌||◌, if◌then◌else◌, List, [], ◌∷◌, ◌++◌, Option, none, some, length, take, drop, get_or, ◌≡◌,
  refl, arith,
}

pub record MultiPort : Type 0 where
  pub host : List ℕ
  pub min_port : ℕ
  pub max_port : ℕ

abbrev pub is_digit : ℕ → Bool
is_digit c = leb b'0' c && leb c b'9'

unfoldable pub digits_value : ℕ → List ℕ → Option ℕ
digits_value value [] = some value
digits_value value (c ∷ cs) =
    let rest = digits_value (value * 10 + (c - b'0')) cs in if is_digit c then rest else none

-- `std::from_chars` that reads the whole text. A value past `unsigned` is its error, and past the
-- ports anyway.
unfoldable pub from_chars : List ℕ → Option ℕ
unfolding digits_value
from_chars [] = none
from_chars (c ∷ cs) = digits_value 0 (c ∷ cs)

abbrev pub check_port : Option ℕ → Option ℕ
check_port none = none
check_port (some value) = if (value == 0) || ltb 65535 value then none else some value

unfoldable pub parse_port : List ℕ → Option ℕ
unfolding from_chars
parse_port text = check_port (from_chars text)

-- `find` and `rfind` of a character.
unfoldable pub find : ℕ → List ℕ → Option ℕ
find c [] = none
find c (x ∷ xs) =
    let later = find c xs in
    if x == c then some 0 else elim later [ none ↦ none | some i ↦ some (suc i) ]

unfoldable pub rfind : ℕ → List ℕ → Option ℕ
rfind c [] = none
rfind c (x ∷ xs) = elim (rfind c xs) [
  | some i ↦ some (suc i)
  | none ↦ if x == c then some 0 else none
]

unfoldable pub split_host_service : List ℕ → Option (List ℕ × List ℕ)
unfolding find rfind
split_host_service address =
    if length address == 0
    then none
    else if get_or address 0 0 == b'['
    then elim (find b']' address) [
      | none ↦ none
      | some close ↦
          if leb (length address) (close + 1) || not (get_or address (close + 1) 0 == b':')
          then none
          else some (take (close - 1) (drop 1 address), drop (close + 2) address)
    ]
    else elim (rfind b':' address) [
      | none ↦ none
      | some colon ↦ some (take colon address, drop (colon + 1) address)
    ]

abbrev pub check_range : List ℕ → Option ℕ → Option ℕ → Option MultiPort
check_range host none high = none
check_range host (some low) none = none
check_range host (some low) (some high) =
    if ltb high low then none else some (record { host = host; min_port = low; max_port = high })

-- `parse_multiport` behind the split; a single port is a range of one.
unfoldable pub parse_range : List ℕ → List ℕ → Option MultiPort
unfolding find parse_port
parse_range host service = elim (find b'-' service) [
  | none ↦ check_range host (parse_port service) (parse_port service)
  | some dash ↦
      check_range host (parse_port (take dash service)) (parse_port (drop (dash + 1) service))
]

unfoldable pub parse_multiport : List ℕ → Option MultiPort
unfolding split_host_service parse_range
parse_multiport address = elim (split_host_service address) [
  | none ↦ none
  | some split ↦ parse_range split.0 split.1
]

-- The digits of a number, least first, with fuel for their count.
unfoldable pub digits_from : ℕ → ℕ → List ℕ
digits_from zero value = []
digits_from (suc fuel) value =
    let rest = digits_from fuel (value / 10) in
    (b'0' + value % 10) ∷ (if ltb value 10 then [] else rest)

-- `std::to_string` of a number of up to 64 bits, which has 20 digits at most.
unfoldable pub to_string : ℕ → List ℕ
unfolding digits_from
to_string value = reverse (digits_from 20 value)

unfoldable pub join_host_port : List ℕ → ℕ → List ℕ
unfolding find to_string
join_host_port host port =
    let bracketed = (get_or host 0 0 == b'[') && (get_or host (length host - 1) 0 == b']') in
    let text = to_string port in
    let plain = host ++ (b':' ∷ text) in
    elim (find b':' host) [
      | none ↦ plain
      | some i ↦ if not bracketed then b'[' ∷ (host ++ (b']' ∷ b':' ∷ text)) else plain
    ]

abbrev pub IsPort : ℕ → Type 0
IsPort p = (0 < p) × (p < 65536)

check_port-IsPort : (o : Option ℕ) (p : ℕ) → check_port o ≡ some p → IsPort p
check_port-IsPort none p e = cc
check_port-IsPort (some value) p e = ground arith

check_range-bounds :
    (host : List ℕ) (low high : Option ℕ) {m : MultiPort}
    → ((p : ℕ) → low ≡ some p → IsPort p)
    → ((p : ℕ) → high ≡ some p → IsPort p)
    → check_range host low high ≡ some m
    → (0 < m.min_port) × (m.min_port ≤ m.max_port) × (m.max_port < 65536)
check_range-bounds host none high l h e = cc
check_range-bounds host (some low) none l h e = cc
check_range-bounds host (some low) (some high) {m} l h e = go (ltb high low) refl e
  where
    range : MultiPort
    range = record { host = host; min_port = low; max_port = high }

    go :
        (b : Bool)
        → ltb high low ≡ b
        → if◌then◌else◌ {A = Option MultiPort} b none (some range) ≡ some m
        → (0 < m.min_port) × (m.min_port ≤ m.max_port) × (m.max_port < 65536)
    go true f q = cc
    go false f q =
        subst
          (λ (r : MultiPort). (0 < r.min_port) × (r.min_port ≤ r.max_port) × (r.max_port < 65536))
          (some-injective range m q) ((l low refl).0, ground arith, (h high refl).1)

-- Whatever the text, an address that is accepted has ports from 1 to 65535, the first at most the last.
pub parse_multiport-bounds :
    (address : List ℕ) {m : MultiPort}
    → parse_multiport address ≡ some m
    → (0 < m.min_port) × (m.min_port ≤ m.max_port) × (m.max_port < 65536)
unfolding parse_multiport parse_range parse_port
parse_multiport-bounds address {m} e = go (split_host_service address) e
  where
    ranged :
        (host service : List ℕ) (dash : Option ℕ)
        → elim dash [
          | none ↦ check_range host (parse_port service) (parse_port service)
          | some d ↦
              check_range host (parse_port (take d service)) (parse_port (drop (d + 1) service))
        ]
          ≡ some m
        → (0 < m.min_port) × (m.min_port ≤ m.max_port) × (m.max_port < 65536)
    ranged host service none q =
        check_range-bounds host _ _ (check_port-IsPort (from_chars service))
          (check_port-IsPort (from_chars service)) q
    ranged host service (some d) q =
        check_range-bounds host _ _ (check_port-IsPort (from_chars (take d service)))
          (check_port-IsPort (from_chars (drop (d + 1) service))) q

    go :
        (o : Option (List ℕ × List ℕ))
        → elim o [ none ↦ none | some split ↦ parse_range split.0 split.1 ] ≡ some m
        → (0 < m.min_port) × (m.min_port ≤ m.max_port) × (m.max_port < 65536)
    go none q = cc
    go (some (host, service)) q = ranged host service (find b'-' service) q
