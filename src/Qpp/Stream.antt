-- ===== src/Qpp/Stream.antt =====
-- `QppStream` of qpp.hpp and qpp.cpp, and `validate_qpp_params`.
use shimakaze.Common.{
  ℕ, zero, suc, ◌+◌, ◌%◌, ◌==◌, ltb, Bool, true, false, if◌then◌else◌, List, [], ◌∷◌, ◌++◌, Option,
  none, some, length,
}
use shimakaze.Qpp.Prng.{Rand}
use shimakaze.Qpp.Pad.{QppPad, Primitives, create_prng, minimum_seed_length}
use shimakaze.Qpp.Pad

-- A null `pad_` is `none`.
pub record QppStream : Type 0 where
  pub pad : Option QppPad
  pub write_rand : Rand
  pub read_rand : Rand

-- A `Rand` as its default member initialisers leave it.
abbrev pub fresh_rand : Rand
fresh_rand = record { xoshiro = record { s0 = 0; s1 = 0; s2 = 0; s3 = 0 }; seed64 = 0; count = 0 }

unfoldable pub make_stream : Primitives → Option QppPad → List ℕ → QppStream
make_stream crypto none seed = record {
  pad = none;
  write_rand = fresh_rand;
  read_rand = fresh_rand;
}
make_stream crypto (some p) seed = record {
  pad = some p;
  write_rand = create_prng crypto seed;
  read_rand = create_prng crypto seed;
}

unfoldable pub enabled : QppStream → Bool
enabled s = elim s.pad [ none ↦ false | some p ↦ true ]

-- Without a pad the bytes pass.
abbrev pub encrypt_by : Option QppPad → List ℕ → QppStream → List ℕ × QppStream
encrypt_by none data' s = (data', s)
encrypt_by (some p) data' s =
    let (out, rand) = Pad.encrypt p data' s.write_rand in (out, record s { write_rand = rand })

unfoldable pub encrypt : List ℕ → QppStream → List ℕ × QppStream
encrypt data' s = encrypt_by s.pad data' s

abbrev pub decrypt_by : Option QppPad → List ℕ → QppStream → List ℕ × QppStream
decrypt_by none data' s = (data', s)
decrypt_by (some p) data' s =
    let (out, rand) = Pad.decrypt p data' s.read_rand in (out, record s { read_rand = rand })

unfoldable pub decrypt : List ℕ → QppStream → List ℕ × QppStream
decrypt data' s = decrypt_by s.pad data' s

-- The texts of the warnings, with the number that each one prints.
pub data Warning : Type 0 where
  short_key : ℕ → Warning
  few_pads : ℕ → Warning
  not_coprime : ℕ → Warning

-- `std::gcd`, by Euclid's rounds; the second number falls, so `b + 1` rounds are enough.
unfoldable pub gcd : ℕ → ℕ → ℕ → ℕ
gcd zero a b = a
gcd (suc fuel) a b = let rest = gcd fuel b (a % b) in if b == 0 then a else rest

unfoldable pub coprime : ℕ → ℕ → Bool
coprime a b = gcd (b + 1) a b == 1

unfoldable pub warn_if : Bool → Warning → List Warning
warn_if true w = w ∷ []
warn_if false w = []

-- `none` is the exception at a count that is not positive; a negative `int` reads as 0 here.
unfoldable pub validate_qpp_params : ℕ → List ℕ → Option (List Warning)
unfolding coprime gcd warn_if
validate_qpp_params count key =
    if count == 0
    then none
    else some (
        warn_if (ltb (length key) minimum_seed_length) (short_key (length key))
        ++ (warn_if (ltb count 7) (few_pads count)
            ++ warn_if (if coprime count 8 then false else true) (not_coprime count)))
