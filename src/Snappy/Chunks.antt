-- ===== src/Snappy/Chunks.antt =====
-- A chunk of the encoder, and what one round of the decoder does with it.
use shimakaze.Common.{
  ℕ, suc, ◌+◌, ◌≤◌, ◌<◌, ◌^◌, ◌≡◌, refl, ap, sym, ◌∙◌, Bool, true, List, ◌∷◌, ◌++◌, some, length,
  take, drop, arith, length-append, take-append_length, drop-append_length, append_assoc,
  if◌then◌else◌, ltb, Bool-cases, inl, inr,
}
use shimakaze.Wire.Codec.{write_len24, write_le32, read_len24, read_le32}
use shimakaze.Wire.RoundTrip.{read_len24-write_len24, read_le32-write_le32, length-write_le32}
use shimakaze.Snappy.Stream.{
  Snappy, accepted, read_chunk, after_chunk, step, mask_crc, crc32c, make_data_chunk, check_plain,
}

-- What snappy documents: `Uncompress` undoes `Compress`.
pub record IsSnappy (snappy : Snappy) : Type 0 where
  pub uncompress-compress :
      (plain : List ℕ) → snappy.uncompress (snappy.compress plain) ≡ some plain

pub length-write_len24 : (v : ℕ) → length (write_len24 v) ≡ 3
unfolding write_len24
length-write_len24 v = omega arith

-- A round on a buffer that begins with a whole chunk.
pub step_chunk :
    (snappy : Snappy) (t : ℕ) (body rest : List ℕ) (saw : Bool)
    → length body < 2 ^ 24
    → step snappy (record {
      buffer = t ∷ (write_len24 (length body) ++ (body ++ rest));
      saw_identifier = saw;
    })
      ≡ after_chunk rest (read_chunk snappy t body saw)
unfolding step
step_chunk snappy t body rest saw h =
    let head : List ℕ = write_len24 (length body) in
    let size : length (head ++ (body ++ rest)) ≡ 3 + length body + length rest = omega (
      arith,
      length-append head (body ++ rest),
      length-append body rest,
      length-write_len24 (length body),
    ) in
    let field : read_len24 (head ++ (body ++ rest)) ≡ length body =
      read_len24-write_len24 (length body) (body ++ rest) h in
    let tail : drop 3 (head ++ (body ++ rest)) ≡ body ++ rest =
      drop-append_length head (body ++ rest) {n = 3}
        (omega (arith, length-write_len24 (length body))) in
    let payload : take (length body) (body ++ rest) ≡ body = take-append_length body rest refl in
    let after : drop (3 + length body) (head ++ (body ++ rest)) ≡ rest =
      ap (drop (3 + length body)) (sym (append_assoc head body rest))
      ∙ drop-append_length (head ++ body) rest {n = 3 + length body}
          (omega (arith, length-append head body, length-write_len24 (length body))) in
    let dropped : drop (4 + length body) (t ∷ (head ++ (body ++ rest))) ≡ rest =
      ap (λ (k : ℕ). drop k (t ∷ (head ++ (body ++ rest)))) (add_four (length body)) ∙ after in
    ground (arith, size, field, tail, payload, dropped)
  where
    add_four : (n : ℕ) → 4 + n ≡ suc (3 + n)
    add_four n = omega arith

pub mask_crc-lt : (crc : ℕ) → mask_crc crc < 2 ^ 32
unfolding mask_crc
mask_crc-lt crc = omega arith

module _ (snappy : Snappy) (laws : IsSnappy snappy) where
  abbrev pub body : List ℕ → List ℕ
  body plain =
      write_le32 (mask_crc (crc32c plain))
      ++ (if ltb (length (snappy.compress plain)) (length plain)
          then snappy.compress plain
          else plain)

  abbrev pub kind : List ℕ → ℕ
  kind plain = if ltb (length (snappy.compress plain)) (length plain) then 0x00 else 0x01

  pub length-body : (plain : List ℕ) → length (body plain) ≤ 4 + length plain
  length-body plain = ground (
    arith,
    length-append (write_le32 (mask_crc (crc32c plain))) (snappy.compress plain),
    length-append (write_le32 (mask_crc (crc32c plain))) plain,
    length-write_le32 (mask_crc (crc32c plain)),
  )

  pub make_data_chunk_lem :
      (plain rest : List ℕ)
      → make_data_chunk snappy plain ++ rest
        ≡ kind plain ∷ (write_len24 (length (body plain)) ++ (body plain ++ rest))
  unfolding make_data_chunk
  make_data_chunk_lem plain rest =
      let payload : List ℕ =
        if ltb (length (snappy.compress plain)) (length plain)
        then snappy.compress plain
        else plain in
      let sum : List ℕ = write_le32 (mask_crc (crc32c plain)) in
      let size : 4 + length payload ≡ length (sum ++ payload) =
        omega (arith, length-append sum payload, length-write_le32 (mask_crc (crc32c plain))) in
      ap (λ t. kind plain ∷ (t ++ rest)) (ap (λ n. write_len24 n ++ (sum ++ payload)) size)
      ∙ ap (◌∷◌ (kind plain))
          (append_assoc (write_len24 (length (sum ++ payload))) (sum ++ payload) rest)

  -- A data chunk behind the identifier, of either kind.
  pub read_chunk_data :
      (m : ℕ) (payload : List ℕ)
      → m < 2 ^ 32
      → (read_chunk snappy 0x00 (write_le32 m ++ payload) true
          ≡ check_plain snappy m (snappy.uncompress payload))
        × (read_chunk snappy 0x01 (write_le32 m ++ payload) true
            ≡ check_plain snappy m (some payload))
  unfolding read_chunk write_le32
  read_chunk_data m payload h =
      let field : read_le32 (write_le32 m ++ payload) ≡ m = read_le32-write_le32 m payload h in
      (ground (arith, field), ground (arith, field))

  pub check_plain_lem :
      (plain : List ℕ)
      → check_plain snappy (mask_crc (crc32c plain)) (some plain) ≡ accepted (some plain) true
  unfolding check_plain
  check_plain_lem plain = ground arith

  pub read_chunk_lem :
      (plain : List ℕ)
      → read_chunk snappy (kind plain) (body plain) true ≡ accepted (some plain) true
  read_chunk_lem plain =
      let m : ℕ = mask_crc (crc32c plain) in
      elim (Bool-cases (ltb (length (snappy.compress plain)) (length plain))) [
        | inl small ↦ rw small (
            (read_chunk_data m (snappy.compress plain) (mask_crc-lt _)).0
            ∙ ap (check_plain snappy m) (laws.uncompress-compress plain)
            ∙ check_plain_lem plain)
        | inr large ↦ rw large ((read_chunk_data m plain (mask_crc-lt _)).1 ∙ check_plain_lem plain)
      ]
