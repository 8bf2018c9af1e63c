-- ===== src/Kcp/Parse.antt =====
-- Reading a frame of `KcpSession` back, and reading with more bytes behind it.
use shimakaze.Common.{
  ℕ, ◌+◌, ◌*◌, ◌^◌, ◌<◌, ◌≤◌, ltb, Bool, true, false, if◌then◌else◌, bit_or, List, [], ◌∷◌, ◌++◌,
  length, take, drop, ◌≡◌, refl, ap, ◌∙◌, sym, arith, length-append, length-drop,
  take-append_length, drop-append_length, take-append_le, drop-append_le, append_assoc,
}
use shimakaze.Wire.Codec.{write_be32, read_be32}
use shimakaze.Wire.RoundTrip.{read_be32-write_be32}
use shimakaze.Kcp.State.{FrameType}
use shimakaze.Kcp.Frame.{
  max_frame_payload, type_byte, make_frame, Received, incomplete, oversized, frame, read_frame,
}

length-write_be32 : (v : ℕ) → length (write_be32 v) ≡ 4
unfolding write_be32
length-write_be32 v = omega arith

-- A buffer that begins with a header and the payload that it announces.
read_frame_whole :
    (type : ℕ) (size payload rest : List ℕ)
    → length size ≡ 4
    → length payload ≤ max_frame_payload
    → read_be32 (size ++ (payload ++ rest)) ≡ length payload
    → read_frame (type ∷ (size ++ (payload ++ rest))) ≡ frame type payload rest
unfolding read_frame
read_frame_whole type size payload rest four small announced =
    let tail : List ℕ = size ++ (payload ++ rest) in
    let total : length tail ≡ 4 + length payload + length rest =
      omega (arith, length-append size (payload ++ rest), length-append payload rest) in
    let behind_size : drop 4 tail ≡ payload ++ rest =
      drop-append_length size (payload ++ rest) {n = 4} (sym four) in
    let taken : take (length payload) (payload ++ rest) ≡ payload =
      take-append_length payload rest refl in
    let dropped : drop (4 + length payload) tail ≡ rest =
      ap (drop (4 + length payload)) (sym (append_assoc size payload rest))
      ∙ drop-append_length (size ++ payload) rest (omega (arith, length-append size payload)) in
    ground (arith, total, behind_size, taken, dropped)

-- The receiver reads the frame that the sender made, of either type and any payload within the limit, and
-- leaves what follows it.
pub read_frame-make_frame :
    (type : FrameType) (payload rest : List ℕ)
    → length payload ≤ max_frame_payload
    → read_frame (make_frame type payload ++ rest) ≡ frame (type_byte type) payload rest
unfolding make_frame
read_frame-make_frame type payload rest small =
    ap (λ t. read_frame (type_byte type ∷ t))
      (append_assoc (write_be32 (length payload)) payload rest)
    ∙ read_frame_whole (type_byte type) (write_be32 (length payload)) payload rest
        (length-write_be32 (length payload)) small
        (read_be32-write_be32 (length payload) (payload ++ rest) (omega arith))

-- More bytes behind the buffer change nothing for a round that acts, but for what it leaves.
abbrev pub Extends : List ℕ → Received → Received → Type 0
Extends more incomplete r = Unit
Extends more oversized r = r ≡ oversized
Extends more (frame type payload rest) r = r ≡ frame type payload (rest ++ more)

-- The tests of a round, without and with the bytes that follow.
tests-Extends :
    (more : List ℕ) (type : ℕ) (payload payload' rest rest' : List ℕ)
    (few few' large short short' : Bool)
    → few ≡ false
    → few' ≡ false
    → (short ≡ false → (short' ≡ false) × (payload' ≡ payload) × (rest' ≡ rest ++ more))
    → Extends more
        (if few
          then incomplete
          else if large
          then oversized
          else if short
          then incomplete
          else frame type payload rest)
        (if few'
          then incomplete
          else if large
          then oversized
          else if short'
          then incomplete
          else frame type payload' rest')
tests-Extends more type payload payload' rest rest' true few' large short short' f f' h =
    absurd (ground arith)
tests-Extends more type payload payload' rest rest' false true large short short' f f' h =
    absurd (ground arith)
tests-Extends more type payload payload' rest rest' false false true short short' f f' h = refl
tests-Extends more type payload payload' rest rest' false false false true short' f f' h = tt
tests-Extends more type payload payload' rest rest' false false false false short' f f' h =
    let (long, same, left) = h refl in rw (long, same, left) refl

pub read_frame-Extends :
    (buffer more : List ℕ) → Extends more (read_frame buffer) (read_frame (buffer ++ more))
unfolding read_frame read_be32
read_frame-Extends [] more = tt
read_frame-Extends (a ∷ []) more = tt
read_frame-Extends (a ∷ b ∷ []) more = tt
read_frame-Extends (a ∷ b ∷ c ∷ []) more = tt
read_frame-Extends (a ∷ b ∷ c ∷ d ∷ []) more = tt
read_frame-Extends (a ∷ b ∷ c ∷ d ∷ e ∷ t) more =
    tests-Extends more a _ _ _ _ (ltb (length buffer) 5) (ltb (length (buffer ++ more)) 5)
      (ltb max_frame_payload size) (ltb (length buffer) (5 + size))
      (ltb (length (buffer ++ more)) (5 + size)) (ground arith) (ground arith)
      (λ long. (
        ground (arith, length-append t more),
        take-append_le size t more (ground arith),
        drop-append_le (5 + size) buffer more (ground arith),
      ))
  where
    buffer : List ℕ
    buffer = a ∷ b ∷ c ∷ d ∷ e ∷ t

    size : ℕ
    size = bit_or (bit_or (bit_or (b * 2 ^ 24) (c * 2 ^ 16)) (d * 2 ^ 8)) e

-- A frame takes bytes off the buffer.
abbrev pub Shorter : List ℕ → Received → Type 0
Shorter buffer (frame type payload rest) = length rest < length buffer
Shorter buffer r = Unit

tests-Shorter :
    (buffer payload : List ℕ) (type size : ℕ) (few large short : Bool)
    → ltb (length buffer) 5 ≡ few
    → Shorter buffer (
        if few
        then incomplete
        else if large
        then oversized
        else if short
        then incomplete
        else frame type payload (drop (5 + size) buffer))
tests-Shorter buffer payload type size true large short h = tt
tests-Shorter buffer payload type size false true short h = tt
tests-Shorter buffer payload type size false false true h = tt
tests-Shorter buffer payload type size false false false h =
    ground (arith, length-drop (5 + size) buffer)

pub read_frame-Shorter : (buffer : List ℕ) → Shorter buffer (read_frame buffer)
unfolding read_frame
read_frame-Shorter buffer =
    tests-Shorter buffer _ _ (read_be32 (drop 1 buffer)) (ltb (length buffer) 5)
      (ltb max_frame_payload (read_be32 (drop 1 buffer)))
      (ltb (length buffer) (5 + read_be32 (drop 1 buffer))) refl
