-- ===== src/Checksum.antt =====
-- The table-driven cyclic redundancy check that crypto.cpp (CRC-32) and snappy_stream.cpp (CRC-32C)
-- each carry a copy of; the reversed polynomial is the parameter.
use mathlib.Core.List.{foldl}
use shimakaze.Common.{
  ℕ, zero, suc, ◌/◌, ◌%◌, ◌^◌, ◌<◌, ◌==◌, ◌≡◌, refl, bit_xor, if◌then◌else◌, List, [], ◌∷◌, arith,
}
use shimakaze.Common.Bits.{bit_xor-lt}

module _ (poly : ℕ) where
  -- One round of the loop over `bit`: `(crc & 1) ? (poly ^ (crc >> 1)) : (crc >> 1)`.
  unfoldable pub crc_bit : ℕ → ℕ
  crc_bit crc = if crc % 2 == 1 then bit_xor poly (crc / 2) else crc / 2

  unfoldable pub crc_bits : ℕ → ℕ → ℕ
  crc_bits zero crc = crc
  crc_bits (suc left) crc = crc_bits left (crc_bit crc)

  -- `table[i]`.
  unfoldable pub crc_table : ℕ → ℕ
  unfolding crc_bit crc_bits
  crc_table i = crc_bits 8 i

  unfoldable pub crc_byte : ℕ → ℕ → ℕ
  unfolding crc_table
  crc_byte crc byte = bit_xor (crc_table (bit_xor crc byte % 256)) (crc / 2 ^ 8)

  unfoldable pub crc32 : List ℕ → ℕ
  unfolding crc_byte
  crc32 bytes = bit_xor (foldl crc_byte 0xffff_ffff bytes) 0xffff_ffff

  crc_bit-lt : poly < 2 ^ 32 → (crc : ℕ) → crc < 2 ^ 32 → crc_bit crc < 2 ^ 32
  unfolding crc_bit
  crc_bit-lt hp crc h = ground (arith, bit_xor-lt 32 poly (crc / 2) hp (omega arith))

  crc_bits-lt : poly < 2 ^ 32 → (n crc : ℕ) → crc < 2 ^ 32 → crc_bits n crc < 2 ^ 32
  unfolding crc_bits
  crc_bits-lt hp zero crc h = h
  crc_bits-lt hp (suc n) crc h = crc_bits-lt hp n (crc_bit crc) (crc_bit-lt hp crc h)

  foldl_crc-lt :
      poly < 2 ^ 32 → (bytes : List ℕ) (crc : ℕ) → crc < 2 ^ 32 → foldl crc_byte crc bytes < 2 ^ 32
  foldl_crc-lt hp [] crc h = h
  foldl_crc-lt hp (b ∷ bytes) crc h = foldl_crc-lt hp bytes (crc_byte crc b) (
      unfold crc_byte in
      bit_xor-lt 32 (crc_bits 8 (bit_xor crc b % 256)) (crc / 2 ^ 8)
        (crc_bits-lt hp 8 (bit_xor crc b % 256) (omega arith)) (omega arith))

  -- A checksum is a `uint32_t`.
  pub crc32-lt : poly < 2 ^ 32 → (bytes : List ℕ) → crc32 bytes < 2 ^ 32
  unfolding crc32
  crc32-lt hp bytes =
      bit_xor-lt 32 (foldl crc_byte 0xffff_ffff bytes) 0xffff_ffff
        (foldl_crc-lt hp bytes 0xffff_ffff (omega arith)) (omega arith)

check_value :
    crc32 0xedb88320 (b'1' ∷ b'2' ∷ b'3' ∷ b'4' ∷ b'5' ∷ b'6' ∷ b'7' ∷ b'8' ∷ b'9' ∷ [])
    ≡ 0xcbf43926
unfolding crc32
check_value = refl
