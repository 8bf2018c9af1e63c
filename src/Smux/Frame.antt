-- ===== src/Smux/Frame.antt =====
-- The smux frame: what `send_frame` writes and the head of the loop of `consume_stream_bytes` reads.
use shimakaze.Common.{
  ℕ, ◌+◌, ◌==◌, ltb, not, if◌then◌else◌, List, ◌∷◌, ◌++◌, length, get_or, take, drop,
}
use shimakaze.Common.Int.{low_byte}
use shimakaze.Config.Base.{BaseConfig}
use shimakaze.Wire.Codec.{write_le16, write_le32, read_le16, read_le32}
use shimakaze.Smux.State.{Command, syn, fin, psh, nop, upd}

abbrev pub smux_header_size : ℕ
smux_header_size = 8

-- The values of `SmuxSession::Command`.
unfoldable pub command_byte : Command → ℕ
command_byte syn = 0
command_byte fin = 1
command_byte psh = 2
command_byte nop = 3
command_byte upd = 4

unfoldable pub make_frame : BaseConfig → Command → ℕ → List ℕ → List ℕ
make_frame config command stream_id payload =
    low_byte config.smuxver
    ∷ command_byte command
    ∷ (write_le16 (length payload) ++ (write_le32 stream_id ++ payload))

-- What a round of the loop finds at the front of its buffer: too few bytes, another version, or a
-- frame, with the bytes behind it.
pub data Received : Type 0 where
  incomplete : Received
  mismatch : Received
  frame : ℕ → ℕ → List ℕ → List ℕ → Received

unfoldable pub read_frame : BaseConfig → List ℕ → Received
read_frame config buffer =
    let length' = read_le16 (drop 2 buffer) in
    if ltb (length buffer) smux_header_size
    then incomplete
    else if not (get_or buffer 0 0 == low_byte config.smuxver)
    then mismatch
    else if ltb (length buffer) (smux_header_size + length')
    then incomplete
    else frame (get_or buffer 1 0) (read_le32 (drop 4 buffer)) (take length' (drop 8 buffer))
        (drop (smux_header_size + length') buffer)
