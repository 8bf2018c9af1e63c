-- ===== src/Kcp/Frame.antt =====
-- The frame of `KcpSession`: what `send_frame` writes and the head of the loop of `parse_frames` reads.
use shimakaze.Common.{ℕ, ◌+◌, ltb, if◌then◌else◌, List, ◌∷◌, ◌++◌, length, get_or, take, drop}
use shimakaze.Wire.Codec.{write_be32, read_be32}
use shimakaze.Kcp.State.{FrameType, data', fin}

abbrev pub frame_header_size : ℕ
frame_header_size = 5

abbrev pub max_frame_payload : ℕ
max_frame_payload = 16777216

unfoldable pub type_byte : FrameType → ℕ
type_byte data' = 1
type_byte fin = 2

unfoldable pub make_frame : FrameType → List ℕ → List ℕ
unfolding type_byte
make_frame type payload = type_byte type ∷ (write_be32 (length payload) ++ payload)

-- What a round of the loop finds at the front of its buffer: too few bytes, a length above the limit, or a
-- frame, with the bytes behind it.
pub data Received : Type 0 where
  incomplete : Received
  oversized : Received
  frame : ℕ → List ℕ → List ℕ → Received

unfoldable pub read_frame : List ℕ → Received
read_frame buffer =
    let length' = read_be32 (drop 1 buffer) in
    if ltb (length buffer) frame_header_size
    then incomplete
    else if ltb max_frame_payload length'
    then oversized
    else if ltb (length buffer) (frame_header_size + length')
    then incomplete
    else frame (get_or buffer 0 0) (take length' (drop 5 buffer))
        (drop (frame_header_size + length') buffer)
