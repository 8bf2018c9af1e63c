-- ===== src/Qpp/Pad.antt =====
-- `QppPad` of qpp.hpp and qpp.cpp: its construction from a seed, `encrypt` and `decrypt`. The
-- primitives of Crypto++ are parameters.
use mathlib.Core.List.{foldl, reverse}
use shimakaze.Common.{
  ℕ, zero, suc, ◌+◌, ◌*◌, ◌/◌, ◌%◌, ◌^◌, bit_and, bit_xor, ◌==◌, ltb, if◌then◌else◌, List, [], ◌∷◌,
  ◌++◌, map, Option, none, some, length, get_or, set, take, drop, replicate, concat,
}
use shimakaze.Common.Text.{codes}
use shimakaze.Qpp.Prng.{Xoshiro, Rand, xoshiro256ss, advance}

-- What qpp.cpp calls of Crypto++. Keys, digests and blocks are lists of bytes.
pub record Primitives : Type 0 where
  pub pbkdf2_sha1 : List ℕ → List ℕ → ℕ → List ℕ
  pub hmac_sha256 : List ℕ → List ℕ → List ℕ
  pub aes_block : List ℕ → List ℕ → List ℕ

abbrev pub matrix_bytes : ℕ
matrix_bytes = 256

-- `pads_` and `rpads_` hold the matrices one after the other.
pub record QppPad : Type 0 where
  pub pads : List ℕ
  pub rpads : List ℕ
  pub num_pads : ℕ

-- `pad[i] = i`, from `i` on for the entries left.
unfoldable pub fill_from : ℕ → ℕ → List ℕ
fill_from i zero = []
fill_from i (suc left) = i % 256 ∷ fill_from (i + 1) left

unfoldable pub fill_pad : List ℕ
fill_pad = fill_from 0 matrix_bytes

-- `std::swap(pad[i], pad[j])`.
unfoldable pub swap : List ℕ → ℕ → ℕ → List ℕ
swap pad i j = set (set pad i (get_or pad j 0)) j (get_or pad i 0)

-- `rpad[pad[i]] = i`, over the entries of `pad` from index `i` on.
unfoldable pub reverse_from : ℕ → List ℕ → List ℕ → List ℕ
reverse_from i [] rpad = rpad
reverse_from i (x ∷ pad) rpad = reverse_from (i + 1) pad (set rpad x (i % 256))

unfoldable pub reverse_pad : List ℕ → List ℕ
reverse_pad pad = reverse_from 0 pad (replicate matrix_bytes 0)

unfoldable pub mod_big_endian : List ℕ → ℕ → ℕ
mod_big_endian bytes modulus = foldl (λ result byte. (result * 256 + byte) % modulus) 0 bytes

-- The digits of `value`, lowest first; a `uint16_t` has 16 at most.
unfoldable pub binary_digits : ℕ → ℕ → List ℕ
binary_digits zero value = []
binary_digits (suc fuel) value =
    let rest = binary_digits fuel (value / 2) in
    if value == 0 then [] else (if bit_and value 1 == 0 then b'0' else b'1') ∷ rest

unfoldable pub binary_string : ℕ → List ℕ
binary_string value = if value == 0 then codes "0" else reverse (binary_digits 16 value)

-- One round of `encrypt`, on one byte.
unfoldable pub encrypt_byte : QppPad → Rand → ℕ → ℕ
encrypt_byte p rand plain =
    let pad_index = rand.seed64 % 2 ^ 16 % p.num_pads * matrix_bytes in
    let rr = rand.seed64 / 2 ^ (rand.count * 8) % 256 in
    get_or p.pads (pad_index + bit_xor plain rr) 0

unfoldable pub decrypt_byte : QppPad → Rand → ℕ → ℕ
decrypt_byte p rand cipher =
    let pad_index = rand.seed64 % 2 ^ 16 % p.num_pads * matrix_bytes in
    let rr = rand.seed64 / 2 ^ (rand.count * 8) % 256 in
    bit_xor (get_or p.rpads (pad_index + cipher) 0) rr

-- The buffer after the loop, and the generator.
unfoldable pub encrypt : QppPad → List ℕ → Rand → List ℕ × Rand
encrypt p [] rand = ([], rand)
encrypt p (item ∷ rest) rand =
    let (out, rand') = encrypt p rest (advance rand) in (encrypt_byte p rand item ∷ out, rand')

unfoldable pub decrypt : QppPad → List ℕ → Rand → List ℕ × Rand
decrypt p [] rand = ([], rand)
decrypt p (item ∷ rest) rand =
    let (out, rand') = decrypt p rest (advance rand) in (decrypt_byte p rand item ∷ out, rand')

-- `read_le64`: byte `i` is shifted by `i * 8`; the fields are disjoint, so `|=` adds them.
unfoldable pub read_le64 : List ℕ → ℕ
read_le64 [] = 0
read_le64 (byte ∷ rest) = byte + read_le64 rest * 2 ^ 8

abbrev pub minimum_seed_length : ℕ
minimum_seed_length = 211

abbrev pub chunk_derive_salt : List ℕ
chunk_derive_salt = codes "___QUANTUM_PERMUTATION_PAD_SEED_DERIVE___"

abbrev pub shuffle_salt : List ℕ
shuffle_salt = codes "___QUANTUM_PERMUTATION_PAD_SHUFFLE_SALT___"

abbrev pub prng_salt : List ℕ
prng_salt = codes "___QUANTUM_PERMUTATION_PAD_PRNG_SALT___"

module _ (crypto : Primitives) where
  open crypto use {pbkdf2_sha1, hmac_sha256, aes_block}

  -- The bytes `expanded[seed_index % expanded.size()]`, for the rounds left.
  cycle_bytes : List ℕ → ℕ → ℕ → List ℕ
  cycle_bytes expanded seed_index zero = []
  cycle_bytes expanded seed_index (suc left) =
      get_or expanded (seed_index % length expanded) 0 ∷ cycle_bytes expanded (seed_index + 1) left

  -- The chunks from `seed_index` on, for the chunks left.
  derive_chunks : List ℕ → ℕ → ℕ → List (List ℕ)
  derive_chunks expanded seed_index zero = []
  derive_chunks expanded seed_index (suc left) =
      pbkdf2_sha1 (cycle_bytes expanded seed_index 32) chunk_derive_salt 1024
      ∷ derive_chunks expanded (seed_index + 32) left

  unfoldable pub seed_to_chunks : List ℕ → List (List ℕ)
  unfolding cycle_bytes derive_chunks
  seed_to_chunks seed =
      let expanded =
        if ltb (length seed) 32 then pbkdf2_sha1 seed chunk_derive_salt 128 else seed in
      derive_chunks expanded 0 ((minimum_seed_length + 31) / 32)

  -- Every key encrypts both 16-byte blocks of `sum` in place.
  unfoldable pub stir : List (List ℕ) → List ℕ → List ℕ
  stir [] sum = sum
  stir (key ∷ keys) sum =
      stir keys (aes_block key (take 16 sum) ++ aes_block key (take 16 (drop 16 sum)))

  -- The loop of `shuffle_pad` at index `i`, down to 1.
  unfoldable pub shuffle_from : ℕ → List (List ℕ) → List ℕ → List ℕ → List ℕ
  unfolding stir
  shuffle_from zero keys sum pad = pad
  shuffle_from (suc i) keys sum pad =
      let sum' = stir keys sum in
      shuffle_from i keys sum' (swap pad (suc i) (mod_big_endian sum' (suc i + 1)))

  unfoldable pub shuffle_pad : List ℕ → List ℕ → ℕ → List (List ℕ) → List ℕ
  shuffle_pad chunk pad pad_id keys =
      shuffle_from 255 keys (hmac_sha256 chunk (codes "QPP_" ++ binary_string pad_id)) pad

  -- Matrix `i` of the constructor.
  unfoldable pub build_pad : List (List ℕ) → List (List ℕ) → ℕ → List ℕ
  build_pad chunks keys i = shuffle_pad (get_or chunks (i % length chunks) []) fill_pad i keys

  unfoldable pub build_pads : List (List ℕ) → List (List ℕ) → ℕ → ℕ → List (List ℕ)
  build_pads chunks keys i zero = []
  build_pads chunks keys i (suc left) =
      build_pad chunks keys i ∷ build_pads chunks keys (i + 1) left

  -- The constructor `QppPad::QppPad`; `none` is its exception.
  unfoldable pub make_pad : List ℕ → ℕ → Option QppPad
  make_pad seed num_pads =
      if num_pads == 0
      then none
      else (let chunks = seed_to_chunks seed in
          let keys = map (λ chunk. pbkdf2_sha1 chunk shuffle_salt 128) chunks in
          let matrices = build_pads chunks keys 0 num_pads in
          some (record {
            pads = concat matrices;
            rpads = concat (map reverse_pad matrices);
            num_pads = num_pads;
          }))

  unfoldable pub create_prng : List ℕ → Rand
  create_prng seed =
      let mac = hmac_sha256 seed (codes "PERMUTATION_MATRIX_SELECTOR") in
      let words = pbkdf2_sha1 mac prng_salt 128 in
      let initial : Xoshiro = record {
        s0 = read_le64 (take 8 words);
        s1 = read_le64 (take 8 (drop 8 words));
        s2 = read_le64 (take 8 (drop 16 words));
        s3 = read_le64 (take 8 (drop 24 words));
      } in
      let (seed64, state) = xoshiro256ss initial in
      record { xoshiro = state; seed64 = seed64; count = 0 }
