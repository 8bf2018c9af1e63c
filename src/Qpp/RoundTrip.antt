-- ===== src/Qpp/RoundTrip.antt =====
-- `decrypt` undoes `encrypt` when both ends stand at the same point of the same generator.
use shimakaze.Common.{
  ℕ, zero, suc, ◌+◌, ◌*◌, ◌/◌, ◌%◌, ◌^◌, ◌<◌, ◌≡◌, refl, ap, ap₂, ◌∙◌, List, [], ◌∷◌, ◌++◌, map,
  arith, length, get_or, get_or-append_left, get_or-append_right, concat, All, IsByte, IsBytes,
  bit_xor, some,
}
use shimakaze.Common.Bits.{xor_cancel, bit_xor-lt}
use shimakaze.Qpp.Prng.{Rand, advance}
use shimakaze.Qpp.Pad.{
  Primitives, QppPad, reverse_pad, encrypt, decrypt, encrypt_byte, decrypt_byte, make_pad,
}
use shimakaze.Qpp.Permutation.{at, IsPermutation, reverse_pad_lem, length-reverse_pad}
use shimakaze.Qpp.Shuffle.{IsPad, make_pad-IsPad}

-- Entry `k` of block `n` in an array of blocks of 256.
at-concat :
    (blocks : List (List ℕ)) (n k : ℕ)
    → All (λ b. length b ≡ 256) blocks
    → n < length blocks
    → k < 256
    → at (concat blocks) (n * 256 + k) ≡ at (get_or blocks n []) k
at-concat [] n k sizes h hk = absurd (omega arith)
at-concat (b ∷ blocks) zero k sizes h hk =
    ap (at (b ++ concat blocks)) (omega arith)
    ∙ get_or-append_left b (concat blocks) k 0 (omega (arith, sizes.0))
at-concat (b ∷ blocks) (suc n) k sizes h hk =
    get_or-append_right b (concat blocks) (suc n * 256 + k) (n * 256 + k) 0 (omega (arith, sizes.0))
    ∙ at-concat blocks n k sizes.1 (omega arith) hk

permutation-sizes : (ms : List (List ℕ)) → All IsPermutation ms → All (λ b. length b ≡ 256) ms
permutation-sizes [] v = tt
permutation-sizes (m ∷ ms) v = ((v.0).size, permutation-sizes ms v.1)

reverse-sizes : (ms : List (List ℕ)) → All (λ b. length b ≡ 256) (map reverse_pad ms)
reverse-sizes [] = tt
reverse-sizes (m ∷ ms) = (length-reverse_pad m, reverse-sizes ms)

get_or-IsPermutation :
    (ms : List (List ℕ)) (n : ℕ)
    → All IsPermutation ms
    → n < length ms
    → IsPermutation (get_or ms n [])
      × (get_or (map reverse_pad ms) n [] ≡ reverse_pad (get_or ms n []))
      × (n < length (map reverse_pad ms))
get_or-IsPermutation [] n v h = absurd (omega arith)
get_or-IsPermutation (m ∷ ms) zero v h = (v.0, refl, omega arith)
get_or-IsPermutation (m ∷ ms) (suc n) v h =
    let (perm, rev, short) = get_or-IsPermutation ms n v.1 (omega arith) in (perm, rev, omega arith)

-- The second array inverts the first one: where matrix `n` has byte `k`, its reverse has `k` at the byte.
unfoldable pub Inverts : QppPad → Type 0
Inverts p =
    (n k : ℕ)
    → n < p.num_pads
    → k < 256
    → (at p.pads (n * 256 + k) < 256) × (at p.rpads (n * 256 + at p.pads (n * 256 + k)) ≡ k)

IsPad-Inverts : (p : QppPad) → IsPad p → Inverts p
unfolding Inverts
IsPad-Inverts p valid n k hn hk =
    (rw forward (facts.0.bytes k hk), ap (λ b. at p.rpads (n * 256 + b)) forward ∙ backward)
  where
    inside : n < length valid.matrices
    inside = omega (arith, valid.count, hn)

    matrix : List ℕ
    matrix = get_or valid.matrices n []

    facts :
        IsPermutation matrix
        × (get_or (map reverse_pad valid.matrices) n [] ≡ reverse_pad matrix)
        × (n < length (map reverse_pad valid.matrices))
    facts = get_or-IsPermutation valid.matrices n valid.permutations inside

    forward : at p.pads (n * 256 + k) ≡ at matrix k
    forward =
        ap (λ t. at t (n * 256 + k)) valid.forward
        ∙ at-concat valid.matrices n k (permutation-sizes valid.matrices valid.permutations) inside
            hk

    backward : at p.rpads (n * 256 + at matrix k) ≡ k
    backward =
        ap (λ t. at t (n * 256 + at matrix k)) valid.backward
        ∙ at-concat (map reverse_pad valid.matrices) n (at matrix k) (reverse-sizes valid.matrices)
            facts.2 (facts.0.bytes k hk)
        ∙ ap (λ b. at b (at matrix k)) facts.1
        ∙ reverse_pad_lem matrix k facts.0 hk

-- A pad that the constructor makes, from any seed and whatever the primitives return, has the count of matrices
-- that was asked for. Each is a permutation of the 256 byte values, and the second array has its inverse in the same
-- place: where entry `k` of a matrix is the byte `b`, entry `b` of the matrix in the second array is `k`.
pub make_pad-Inverts :
    (crypto : Primitives) (seed : List ℕ) (n : ℕ) {p : QppPad}
    → make_pad crypto seed n ≡ some p
    → IsPad p × Inverts p × (p.num_pads ≡ n)
make_pad-Inverts crypto seed n {p} e =
    let (valid, count) = make_pad-IsPad crypto seed n e in (valid, IsPad-Inverts p valid, count)

module _ (p : QppPad) (valid : IsPad p) (rand : Rand) where
  abbrev index : ℕ
  index = rand.seed64 % 2 ^ 16 % p.num_pads

  abbrev mask : ℕ
  mask = rand.seed64 / 2 ^ (rand.count * 8) % 256

  index-lt : index < length valid.matrices
  index-lt = grind (arith, valid.count, valid.some_matrix)

  -- The cipher byte is an entry of one matrix, at the masked plain byte.
  encrypt_byte_lem :
      (plain : ℕ)
      → IsByte plain
      → encrypt_byte p rand plain ≡ at (get_or valid.matrices index []) (bit_xor plain mask)
  unfolding encrypt_byte
  encrypt_byte_lem plain h =
      ap (λ t. at t (index * 256 + bit_xor plain mask)) valid.forward
      ∙ at-concat valid.matrices index (bit_xor plain mask)
          (permutation-sizes valid.matrices valid.permutations) index-lt
          (bit_xor-lt 8 plain mask h (omega arith))

  encrypt_byte-IsByte : (plain : ℕ) → IsByte plain → IsByte (encrypt_byte p rand plain)
  encrypt_byte-IsByte plain h = rw (encrypt_byte_lem plain h) (
      (get_or-IsPermutation valid.matrices index valid.permutations index-lt).0.bytes
        (bit_xor plain mask) (bit_xor-lt 8 plain mask h (omega arith)))

  decrypt_byte-encrypt_byte :
      (plain : ℕ) → IsByte plain → decrypt_byte p rand (encrypt_byte p rand plain) ≡ plain
  unfolding decrypt_byte
  decrypt_byte-encrypt_byte plain h = ap (λ t. bit_xor t mask) unmatched ∙ xor_cancel plain mask
    where
      masked : ℕ
      masked = bit_xor plain mask

      masked-lt : masked < 256
      masked-lt = bit_xor-lt 8 plain mask h (omega arith)

      matrix : List ℕ
      matrix = get_or valid.matrices index []

      facts :
          IsPermutation matrix
          × (get_or (map reverse_pad valid.matrices) index [] ≡ reverse_pad matrix)
          × (index < length (map reverse_pad valid.matrices))
      facts = get_or-IsPermutation valid.matrices index valid.permutations index-lt

      unmatched : at p.rpads (index * 256 + encrypt_byte p rand plain) ≡ masked
      unmatched =
          ap (λ t. at t (index * 256 + encrypt_byte p rand plain)) valid.backward
          ∙ at-concat (map reverse_pad valid.matrices) index (encrypt_byte p rand plain)
              (reverse-sizes valid.matrices) facts.2 (encrypt_byte-IsByte plain h)
          ∙ ap₂ at facts.1 (encrypt_byte_lem plain h)
          ∙ reverse_pad_lem matrix masked facts.0 masked-lt

decrypt-encrypt_loop :
    (p : QppPad) (data' : List ℕ) (rand : Rand)
    → IsPad p
    → IsBytes data'
    → decrypt p (encrypt p data' rand).0 rand ≡ (data', (encrypt p data' rand).1)
unfolding encrypt decrypt
decrypt-encrypt_loop p [] rand v h = refl
decrypt-encrypt_loop p (x ∷ xs) rand v h =
    ap₂ (λ b r. (b ∷ r.0, r.1)) (decrypt_byte-encrypt_byte p v rand x h.0)
      (decrypt-encrypt_loop p xs (advance rand) v h.1)

-- Encrypting in pieces is encrypting the whole: the generator carries on where it stopped.
pub encrypt-append :
    (p : QppPad) (xs ys : List ℕ) (rand : Rand)
    → encrypt p (xs ++ ys) rand ≡ (
      (encrypt p xs rand).0 ++ (encrypt p ys (encrypt p xs rand).1).0,
      (encrypt p ys (encrypt p xs rand).1).1,
    )
unfolding encrypt
encrypt-append p [] ys rand = refl
encrypt-append p (x ∷ xs) ys rand =
    ap (λ r. (encrypt_byte p rand x ∷ r.0, r.1)) (encrypt-append p xs ys (advance rand))

pub decrypt-append :
    (p : QppPad) (xs ys : List ℕ) (rand : Rand)
    → decrypt p (xs ++ ys) rand ≡ (
      (decrypt p xs rand).0 ++ (decrypt p ys (decrypt p xs rand).1).0,
      (decrypt p ys (decrypt p xs rand).1).1,
    )
unfolding decrypt
decrypt-append p [] ys rand = refl
decrypt-append p (x ∷ xs) ys rand =
    ap (λ r. (decrypt_byte p rand x ∷ r.0, r.1)) (decrypt-append p xs ys (advance rand))

-- With a pad that the constructor made from any seed, and the same generator state at both ends,
-- `decrypt` gives back every byte string that `encrypt` masked, and both ends reach the same state.
pub decrypt_pad-encrypt_pad :
    (crypto : Primitives) (seed : List ℕ) (n : ℕ) {p : QppPad} (data' : List ℕ) (rand : Rand)
    → make_pad crypto seed n ≡ some p
    → IsBytes data'
    → decrypt p (encrypt p data' rand).0 rand ≡ (data', (encrypt p data' rand).1)
decrypt_pad-encrypt_pad crypto seed n {p} data' rand made h =
    decrypt-encrypt_loop p data' rand (make_pad-IsPad crypto seed n made).0 h
