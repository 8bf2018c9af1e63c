-- ===== src/Snappy/Stream.antt =====
-- `SnappyStreamEncoder`, `SnappyStreamDecoder` and the chunk format.
use shimakaze.Common.{
  ℕ, zero, suc, ◌+◌, ◌*◌, ◌/◌, ◌%◌, ◌^◌, ltb, leb, ◌==◌, Bool, true, not, ◌||◌, if◌then◌else◌,
  bit_or, List, [], ◌∷◌, ◌++◌, Option, none, some, length, get_or, take, drop, min,
}
use shimakaze.Common.Text.{codes, same}
use shimakaze.Checksum.{crc32}
use shimakaze.Wire.Codec.{write_le32, read_le32, write_len24, read_len24}

-- `snappy::Uncompress` answers `none` where it returns false.
pub record Snappy : Type 0 where
  pub compress : List ℕ → List ℕ
  pub uncompress : List ℕ → Option (List ℕ)

abbrev pub max_uncompressed_chunk : ℕ
max_uncompressed_chunk = 65536

abbrev pub stream_identifier : List ℕ
stream_identifier = 0xff ∷ 0x06 ∷ 0x00 ∷ 0x00 ∷ codes "sNaPpY"

unfoldable pub crc32c : List ℕ → ℕ
crc32c = crc32 0x82f63b78

unfoldable pub mask_crc : ℕ → ℕ
mask_crc crc = (bit_or (crc / 2 ^ 15) (crc * 2 ^ 17 % 2 ^ 32) + 0xa282_ead8) % 2 ^ 32

-- The messages of the exceptions.
pub data Error : Type 0 where
  invalid_identifier before_identifier invalid_length uncompress_failed crc_mismatch : Error
  unsupported_chunk : Error

pub record Decoder : Type 0 where
  pub buffer : List ℕ
  pub saw_identifier : Bool

-- A chunk that is whole: the plain bytes it adds, if any, and `saw_identifier_` after it.
pub data Chunk : Type 0 where
  accepted : Option (List ℕ) → Bool → Chunk
  refused : Error → Chunk

pub data Step : Type 0 where
  wait : Step
  fail : Error → Step
  next : Option (List ℕ) → Decoder → Step

abbrev pub after_chunk : List ℕ → Chunk → Step
after_chunk rest (accepted out saw) = next out (record { buffer = rest; saw_identifier = saw })
after_chunk rest (refused e) = fail e

abbrev pub chunk_length : List ℕ → ℕ
chunk_length buffer = read_len24 (drop 1 buffer)

-- The chunks of a call and the decoder after it, or the exception. `stuck` is no C++ value: the
-- fuel ran out.
pub data Decoded : Type 0 where
  decoded : List (List ℕ) → Decoder → Decoded
  failed : Error → Decoded
  stuck : Decoded

infixl 5 ◌>>=◌
abbrev pub ◌>>=◌ : Decoded → (List (List ℕ) → Decoder → Decoded) → Decoded
decoded out d >>= f = f out d
failed e >>= f = failed e
stuck >>= f = stuck

-- `out.push_back`, where the chunk adds bytes.
abbrev pub push : Option (List ℕ) → List (List ℕ) → List (List ℕ)
push none out = out
push (some plain) out = plain ∷ out

-- The loop goes on by `again` when a chunk was whole.
abbrev pub after_step : Decoder → Step → (Decoder → Decoded) → Decoded
after_step d wait again = decoded [] d
after_step d (fail e) again = failed e
after_step d (next out d') again = again d' >>= λ rest d''. decoded (push out rest) d''

module _ (snappy : Snappy) where
  unfoldable pub make_data_chunk : List ℕ → List ℕ
  make_data_chunk plain =
      let compressed = snappy.compress plain in
      let use_compressed = ltb (length compressed) (length plain) in
      let payload = if use_compressed then compressed else plain in
      (if use_compressed then 0x00 else 0x01)
      ∷ (write_len24 (4 + length payload) ++ (write_le32 (mask_crc (crc32c plain)) ++ payload))

  -- The loop of `encode` from `offset` on, with `bytes` what is left. Each round takes a byte at
  -- least, so `length bytes` rounds are enough.
  unfoldable pub encode_chunks : ℕ → List ℕ → List (List ℕ)
  encode_chunks fuel [] = []
  encode_chunks zero (b ∷ bytes) = []
  encode_chunks (suc fuel) (b ∷ bytes) =
      let count = min max_uncompressed_chunk (length (b ∷ bytes)) in
      make_data_chunk (take count (b ∷ bytes)) ∷ encode_chunks fuel (drop count (b ∷ bytes))

  -- `SnappyStreamEncoder::encode`; the state is `wrote_identifier_`.
  unfoldable pub encode : Bool → List ℕ → List (List ℕ) × Bool
  encode wrote_identifier bytes =
      let chunks = encode_chunks (length bytes) bytes in
      ((if wrote_identifier then chunks else stream_identifier ∷ chunks), true)

  unfoldable pub plain_data : ℕ → List ℕ → Option (List ℕ)
  plain_data chunk_type bytes = if chunk_type == 0x00 then snappy.uncompress bytes else some bytes

  unfoldable pub check_plain : ℕ → Option (List ℕ) → Chunk
  check_plain expected_crc none = refused uncompress_failed
  check_plain expected_crc (some plain) =
      if mask_crc (crc32c plain) == expected_crc
      then accepted (some plain) true
      else refused crc_mismatch

  -- The body of the loop on a chunk of type `chunk_type` with its payload.
  unfoldable pub read_chunk : ℕ → List ℕ → Bool → Chunk
  unfolding plain_data check_plain
  read_chunk chunk_type payload saw =
      if chunk_type == 0xff
      then (if same payload (codes "sNaPpY")
          then accepted none true
          else refused invalid_identifier)
      else if leb 0x80 chunk_type
      then accepted none saw
      else if (chunk_type == 0x00) || (chunk_type == 0x01)
      then (if not saw
          then refused before_identifier
          else if ltb (length payload) 4
          then refused invalid_length
          else check_plain (read_le32 payload) (plain_data chunk_type (drop 4 payload)))
      else refused unsupported_chunk

  -- One round of the loop of `decode`; `wait` is its end, for want of bytes.
  unfoldable pub step : Decoder → Step
  step d =
      if ltb (length d.buffer) 4
      then wait
      else if ltb (length d.buffer) (4 + chunk_length d.buffer)
      then wait
      else after_chunk (drop (4 + chunk_length d.buffer) d.buffer) (
          read_chunk (get_or d.buffer 0 0) (take (chunk_length d.buffer) (drop 4 d.buffer))
            d.saw_identifier)

  unfoldable pub decode_loop : ℕ → Decoder → Decoded
  decode_loop zero d = stuck
  decode_loop (suc fuel) d = after_step d (step d) (decode_loop fuel)

  -- `SnappyStreamDecoder::decode`. Each round takes 4 bytes at least, so a round for each byte and
  -- one more are enough.
  unfoldable pub decode : Decoder → List ℕ → Decoded
  decode d bytes =
      let buffer = d.buffer ++ bytes in
      decode_loop (suc (length buffer)) (record d { buffer = buffer })

  -- A decoder that gets its bytes piece by piece, one call of `decode` for each.
  unfoldable pub feed : Decoder → List (List ℕ) → Decoded
  feed d [] = decoded [] d
  feed d (piece ∷ pieces) =
      decode d piece >>= λ xs d'. feed d' pieces >>= λ ys d''. decoded (xs ++ ys) d''
