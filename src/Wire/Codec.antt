-- ===== src/Wire/Codec.antt =====
-- `write_le16`, `write_le32`, `read_le16`, `read_le32`, `write_len24`, `read_len24`, `read_be32`,
-- `write_be32`. `value & 0xff` is the remainder by 256, `value >> k` the quotient by 2 ^ k.
use shimakaze.Common.{ℕ, ◌*◌, ◌/◌, ◌%◌, ◌^◌, bit_or, List, [], ◌∷◌, get_or}

unfoldable pub write_le16 : ℕ → List ℕ
write_le16 value = (value % 256) ∷ (value / 2 ^ 8 % 256) ∷ []

unfoldable pub write_le32 : ℕ → List ℕ
write_le32 value =
    (value % 256) ∷ (value / 2 ^ 8 % 256) ∷ (value / 2 ^ 16 % 256) ∷ (value / 2 ^ 24 % 256) ∷ []

unfoldable pub read_le16 : List ℕ → ℕ
read_le16 bytes = bit_or (get_or bytes 0 0) (get_or bytes 1 0 * 2 ^ 8)

unfoldable pub read_le32 : List ℕ → ℕ
read_le32 bytes =
    bit_or
      (bit_or (bit_or (get_or bytes 0 0) (get_or bytes 1 0 * 2 ^ 8)) (get_or bytes 2 0 * 2 ^ 16))
      (get_or bytes 3 0 * 2 ^ 24)

-- The three length bytes of a snappy chunk header.
unfoldable pub write_len24 : ℕ → List ℕ
write_len24 length = (length % 256) ∷ (length / 2 ^ 8 % 256) ∷ (length / 2 ^ 16 % 256) ∷ []

unfoldable pub read_len24 : List ℕ → ℕ
read_len24 bytes =
    bit_or (bit_or (get_or bytes 0 0) (get_or bytes 1 0 * 2 ^ 8)) (get_or bytes 2 0 * 2 ^ 16)

unfoldable pub read_be32 : List ℕ → ℕ
read_be32 bytes =
    bit_or
      (bit_or (bit_or (get_or bytes 0 0 * 2 ^ 24) (get_or bytes 1 0 * 2 ^ 16))
        (get_or bytes 2 0 * 2 ^ 8))
      (get_or bytes 3 0)

unfoldable pub write_be32 : ℕ → List ℕ
write_be32 value =
    (value / 2 ^ 24 % 256) ∷ (value / 2 ^ 16 % 256) ∷ (value / 2 ^ 8 % 256) ∷ (value % 256) ∷ []
