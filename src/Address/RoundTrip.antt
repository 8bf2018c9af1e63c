-- ===== src/Address/RoundTrip.antt =====
-- An address that `join_host_port` writes is the one that `parse_multiport` reads.
use shimakaze.Common.{
  ℕ, zero, suc, ◌+◌, ◌-◌, ◌^◌, ◌<◌, leb, ◌==◌, false, not, ◌&&◌, ◌||◌, if◌then◌else◌, List, [], ◌∷◌,
  ◌++◌, Option, none, some, All, length, length-append, take, drop, get_or, take-append_length,
  get_or-append_right, inl, inr, ◌⊎◌, ◌≡◌, ◌≢◌, refl, ap, ap₂, ◌∙◌, arith,
}
use shimakaze.Address.{
  MultiPort, check_port, parse_port, parse_range, parse_multiport, find, rfind, split_host_service,
  join_host_port, to_string, IsPort,
}
use shimakaze.Address.Decimal.{IsDigit, to_string-IsDigit, from_chars-to_string}

abbrev pub Lacks : ℕ → List ℕ → Type 0
Lacks c = All (λ x. x ≢ c)

find-append : (c : ℕ) (xs ys : List ℕ) → Lacks c xs → find c (xs ++ (c ∷ ys)) ≡ some (length xs)
unfolding find
find-append c [] ys h = ground arith
find-append c (x ∷ xs) ys h = ground (arith, h.0, find-append c xs ys h.1)

find-none : (c : ℕ) (xs : List ℕ) → Lacks c xs → find c xs ≡ none
unfolding find
find-none c [] h = refl
find-none c (x ∷ xs) h = ground (arith, h.0, find-none c xs h.1)

rfind-none : (c : ℕ) (xs : List ℕ) → Lacks c xs → rfind c xs ≡ none
unfolding rfind
rfind-none c [] h = refl
rfind-none c (x ∷ xs) h = ground (arith, h.0, rfind-none c xs h.1)

rfind-append : (c : ℕ) (xs ys : List ℕ) → Lacks c ys → rfind c (xs ++ (c ∷ ys)) ≡ some (length xs)
unfolding rfind
rfind-append c [] ys h = ground (arith, rfind-none c ys h)
rfind-append c (x ∷ xs) ys h = ground (arith, rfind-append c xs ys h)

lacks : (c : ℕ) (xs : List ℕ) → (c < b'0') ⊎ (b'9' < c) → All IsDigit xs → Lacks c xs
lacks c [] h d = tt
lacks c (x ∷ xs) h d = ((λ e. clash e h), lacks c xs h d.1)
  where
    clash : x ≡ c → (c < b'0') ⊎ (b'9' < c) → ⊥
    clash e (inl p) = omega arith
    clash e (inr p) = omega arith

abbrev at_port : List ℕ → ℕ → MultiPort
at_port host port = record { host = host; min_port = port; max_port = port }

parse_port-to_string : (port : ℕ) → IsPort port → parse_port (to_string port) ≡ some port
unfolding parse_port
parse_port-to_string port h =
    ap check_port (from_chars-to_string port (omega (arith, h.1))) ∙ ground (arith, h.0, h.1)

-- Behind the split, the text of a port is a range of one.
parse_range-to_string :
    (host : List ℕ) (port : ℕ)
    → IsPort port
    → parse_range host (to_string port) ≡ some (at_port host port)
unfolding parse_range
parse_range-to_string host port h = ground (
  arith,
  find-none b'-' (to_string port)
      (lacks b'-' (to_string port) (inl (omega arith)) (to_string-IsDigit port)),
  parse_port-to_string port h,
)

-- Around the first byte behind `xs`.
drop-past : (c n : ℕ) (xs ys : List ℕ) → n ≡ length xs + 1 → drop n (xs ++ (c ∷ ys)) ≡ ys
drop-past c zero xs ys e = absurd (omega arith)
drop-past c (suc n) [] ys e = ap (λ k. drop k ys) {x = n} {y = 0} (omega arith)
drop-past c (suc n) (x ∷ xs) ys e = drop-past c n xs ys (omega arith)

get_or-at : (c n : ℕ) (xs ys : List ℕ) → n ≡ length xs → get_or (xs ++ (c ∷ ys)) n 0 ≡ c
get_or-at c n xs ys e = get_or-append_right xs (c ∷ ys) n 0 0 (omega arith)

-- The two ways to split, at a place that is given.
abbrev at_colon : List ℕ → Option ℕ → Option (List ℕ × List ℕ)
at_colon address none = none
at_colon address (some colon) = some (take colon address, drop (colon + 1) address)

abbrev at_bracket : List ℕ → Option ℕ → Option (List ℕ × List ℕ)
at_bracket address none = none
at_bracket address (some close) =
    if leb (length address) (close + 1) || not (get_or address (close + 1) 0 == b':')
    then none
    else some (take (close - 1) (drop 1 address), drop (close + 2) address)

split_host_service_lem :
    (address : List ℕ)
    → split_host_service address ≡ (
        if length address == 0
        then none
        else if get_or address 0 0 == b'['
        then at_bracket address (find b']' address)
        else at_colon address (rfind b':' address))
unfolding split_host_service
split_host_service_lem address = ground arith

split-plain :
    (host text : List ℕ)
    → get_or host 0 0 ≢ b'['
    → Lacks b':' text
    → split_host_service (host ++ (b':' ∷ text)) ≡ some (host, text)
split-plain host text h d =
    split_host_service_lem (host ++ (b':' ∷ text))
    ∙ first host h
    ∙ ap (at_colon (host ++ (b':' ∷ text))) (rfind-append b':' host text d)
    ∙ ap₂ (λ x y. some (x, y)) (take-append_length host (b':' ∷ text) refl)
        (drop-past b':' (length host + 1) host text refl)
  where
    first :
        (xs : List ℕ)
        → get_or xs 0 0 ≢ b'['
        → (if length (xs ++ (b':' ∷ text)) == 0
            then none
            else if get_or (xs ++ (b':' ∷ text)) 0 0 == b'['
            then at_bracket (xs ++ (b':' ∷ text)) (find b']' (xs ++ (b':' ∷ text)))
            else at_colon (xs ++ (b':' ∷ text)) (rfind b':' (xs ++ (b':' ∷ text))))
          ≡ at_colon (xs ++ (b':' ∷ text)) (rfind b':' (xs ++ (b':' ∷ text)))
    first [] p = ground arith
    first (x ∷ xs) p = ground arith

split-bracketed :
    (host text : List ℕ)
    → Lacks b']' host
    → split_host_service (b'[' ∷ (host ++ (b']' ∷ b':' ∷ text))) ≡ some (host, text)
split-bracketed host text h =
    split_host_service_lem address
    ∙ ground arith
    ∙ ap (at_bracket address)
        (find-append b']' (b'[' ∷ host) (b':' ∷ text) ((λ e. omega (arith, e)), h))
    ∙ ap
        (λ b. if◌then◌else◌ {A = Option (List ℕ × List ℕ)} b none (
          some
            (take (suc (length host) - 1) (drop 1 address), drop (suc (length host) + 2) address)))
        open_end
    ∙ ap₂ (λ x y. some (x, y))
        (take-append_length host (b']' ∷ b':' ∷ text) {n = suc (length host) - 1} (omega arith))
        (ap (λ k. drop k address) {x = suc (length host) + 2} {y = suc (suc (length host + 1))}
            (omega arith)
          ∙ past host)
  where
    address : List ℕ
    address = b'[' ∷ (host ++ (b']' ∷ b':' ∷ text))

    colon : get_or address (suc (length host) + 1) 0 ≡ b':'
    colon =
        ap (λ k. get_or address k 0) {x = suc (length host) + 1} {y = suc (length host + 1)}
          (omega arith)
        ∙ get_or-append_right host (b']' ∷ b':' ∷ text) (length host + 1) 1 0 (omega arith)

    open_end :
        (leb (length address) (suc (length host) + 1)
          || not (get_or address (suc (length host) + 1) 0 == b':'))
        ≡ false
    open_end = ground (arith, length-append host (b']' ∷ b':' ∷ text), colon)

    past : (xs : List ℕ) → drop (suc (length xs + 1)) (xs ++ (b']' ∷ b':' ∷ text)) ≡ text
    past [] = ap (λ k. drop k (b':' ∷ text)) {x = 0 + 1} {y = 1} (omega arith)
    past (x ∷ xs) =
        ap (λ k. drop k (xs ++ (b']' ∷ b':' ∷ text))) {x = suc (length xs) + 1}
          {y = suc (length xs + 1)} (omega arith)
        ∙ past xs

abbrev joined : List ℕ → ℕ → Option ℕ → List ℕ
joined host port none = host ++ (b':' ∷ to_string port)
joined host port (some i) =
    if not ((get_or host 0 0 == b'[') && (get_or host (length host - 1) 0 == b']'))
    then b'[' ∷ (host ++ (b']' ∷ b':' ∷ to_string port))
    else host ++ (b':' ∷ to_string port)

join_host_port_lem :
    (host : List ℕ) (port : ℕ) → join_host_port host port ≡ joined host port (find b':' host)
unfolding join_host_port
join_host_port_lem host port = ground arith

abbrev from_split : Option (List ℕ × List ℕ) → Option MultiPort
from_split none = none
from_split (some split) = parse_range split.0 split.1

parse_multiport_lem :
    (address : List ℕ) → parse_multiport address ≡ from_split (split_host_service address)
unfolding parse_multiport
parse_multiport_lem address = ground arith

-- `parse_multiport` reads what `join_host_port` writes: the host, with a range of the one port. For any port
-- that is not 0, and any host without a closing bracket that does not start with an opening one; it may have
-- colons.
pub parse_multiport-join_host_port :
    (host : List ℕ) (port : ℕ)
    → get_or host 0 0 ≢ b'['
    → Lacks b']' host
    → 0 < port
    → port < 2 ^ 16
    → parse_multiport (join_host_port host port)
      ≡ some (record { host = host; min_port = port; max_port = port })
parse_multiport-join_host_port host port first closed low high =
    parse_multiport_lem (join_host_port host port)
    ∙ ap (λ t. from_split (split_host_service t)) (join_host_port_lem host port)
    ∙ ap from_split (split_joined (find b':' host))
    ∙ parse_range-to_string host port (low, omega (arith, high))
  where
    split_joined :
        (o : Option ℕ) → split_host_service (joined host port o) ≡ some (host, to_string port)
    split_joined none =
        split-plain host (to_string port) first
          (lacks b':' (to_string port) (inr (omega arith)) (to_string-IsDigit port))
    split_joined (some i) =
        ap split_host_service {x = joined host port (some i)}
          {y = b'[' ∷ (host ++ (b']' ∷ b':' ∷ to_string port))} (ground (arith, first))
        ∙ split-bracketed host (to_string port) closed
