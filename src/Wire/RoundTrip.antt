-- ===== src/Wire/RoundTrip.antt =====
-- What was written is read back, whatever follows it in the buffer.
use shimakaze.Common.{
  ℕ, ◌+◌, ◌*◌, ◌/◌, ◌%◌, ◌^◌, ◌<◌, ◌≡◌, bit_or, List, [], ◌∷◌, ◌++◌, arith, length, IsByte, IsBytes,
  ◌∙◌,
}
use shimakaze.Common.Bits.{bit_or-shifted, bit_or_comm}
use shimakaze.Wire.Codec.{
  write_le16, write_le32, read_le16, read_le32, write_len24, read_len24, read_be32, write_be32,
}

-- Two, three and four bytes joined by `|` are a sum.
join-two : (a b : ℕ) → IsByte a → bit_or a (b * 2 ^ 8) ≡ a + b * 2 ^ 8
join-two a b h = bit_or-shifted 8 a b (omega arith)

join-three :
    (a b c : ℕ)
    → IsByte a
    → IsByte b
    → bit_or (bit_or a (b * 2 ^ 8)) (c * 2 ^ 16) ≡ a + b * 2 ^ 8 + c * 2 ^ 16
join-three a b c ha hb = rw (join-two a b ha) (bit_or-shifted 16 (a + b * 2 ^ 8) c (omega arith))

join-four :
    (a b c d : ℕ)
    → IsByte a
    → IsByte b
    → IsByte c
    → bit_or (bit_or (bit_or a (b * 2 ^ 8)) (c * 2 ^ 16)) (d * 2 ^ 24)
      ≡ a + b * 2 ^ 8 + c * 2 ^ 16 + d * 2 ^ 24
join-four a b c d ha hb hc =
    rw (join-three a b c ha hb) (bit_or-shifted 24 (a + b * 2 ^ 8 + c * 2 ^ 16) d (omega arith))

pub read_le16-write_le16 :
    (v : ℕ) (rest : List ℕ) → v < 2 ^ 16 → read_le16 (write_le16 v ++ rest) ≡ v
unfolding read_le16 write_le16
read_le16-write_le16 v rest h = join-two (v % 256) (v / 2 ^ 8 % 256) (omega arith) ∙ omega arith

pub read_le32-write_le32 :
    (v : ℕ) (rest : List ℕ) → v < 2 ^ 32 → read_le32 (write_le32 v ++ rest) ≡ v
unfolding read_le32 write_le32
read_le32-write_le32 v rest h =
    join-four (v % 256) (v / 2 ^ 8 % 256) (v / 2 ^ 16 % 256) (v / 2 ^ 24 % 256) (omega arith)
      (omega arith) (omega arith)
    ∙ omega arith

pub read_len24-write_len24 :
    (v : ℕ) (rest : List ℕ) → v < 2 ^ 24 → read_len24 (write_len24 v ++ rest) ≡ v
unfolding read_len24 write_len24
read_len24-write_len24 v rest h =
    join-three (v % 256) (v / 2 ^ 8 % 256) (v / 2 ^ 16 % 256) (omega arith) (omega arith)
    ∙ omega arith

-- The big-endian reader joins the same four fields in the other order.
join-four_be :
    (a b c d : ℕ)
    → IsByte b
    → IsByte c
    → IsByte d
    → bit_or (bit_or (bit_or (a * 2 ^ 24) (b * 2 ^ 16)) (c * 2 ^ 8)) d
      ≡ d + c * 2 ^ 8 + b * 2 ^ 16 + a * 2 ^ 24
join-four_be a b c d hb hc hd =
    rw
      (
        bit_or_comm (bit_or (bit_or (a * 2 ^ 24) (b * 2 ^ 16)) (c * 2 ^ 8)) d,
        bit_or_comm (a * 2 ^ 24) (b * 2 ^ 16),
        shifted_pair,
        bit_or_comm ((b + a * 2 ^ 8) * 2 ^ 16) (c * 2 ^ 8),
        shifted_triple,
        bit_or-shifted 8 d (c + (b + a * 2 ^ 8) * 2 ^ 8) (omega arith),
      )
      (omega arith)
  where
    shifted_pair : bit_or (b * 2 ^ 16) (a * 2 ^ 24) ≡ (b + a * 2 ^ 8) * 2 ^ 16
    shifted_pair = bit_or-shifted 24 (b * 2 ^ 16) a (omega arith) ∙ omega arith

    shifted_triple :
        bit_or (c * 2 ^ 8) ((b + a * 2 ^ 8) * 2 ^ 16) ≡ (c + (b + a * 2 ^ 8) * 2 ^ 8) * 2 ^ 8
    shifted_triple = bit_or-shifted 16 (c * 2 ^ 8) (b + a * 2 ^ 8) (omega arith) ∙ omega arith

pub read_be32-write_be32 :
    (v : ℕ) (rest : List ℕ) → v < 2 ^ 32 → read_be32 (write_be32 v ++ rest) ≡ v
unfolding read_be32 write_be32
read_be32-write_be32 v rest h =
    join-four_be (v / 2 ^ 24 % 256) (v / 2 ^ 16 % 256) (v / 2 ^ 8 % 256) (v % 256) (omega arith)
      (omega arith) (omega arith)
    ∙ omega arith

pub write_le32-IsBytes : (v : ℕ) → IsBytes (write_le32 v)
unfolding write_le32
write_le32-IsBytes v = omega arith

pub length-write_le32 : (v : ℕ) → length (write_le32 v) ≡ 4
unfolding write_le32
length-write_le32 v = omega arith

-- A header field of two bytes is below 2 ^ 16.
pub read_le16-lt : (bytes : List ℕ) → IsBytes bytes → read_le16 bytes < 2 ^ 16
unfolding read_le16
read_le16-lt [] h = omega (arith, join-two 0 0 (omega arith))
read_le16-lt (a ∷ []) h = omega (arith, join-two a 0 h.0)
read_le16-lt (a ∷ b ∷ rest) h = omega (arith, join-two a b h.0, h.1.0)
