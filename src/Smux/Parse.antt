-- ===== src/Smux/Parse.antt =====
-- Reading a frame back, and reading with more bytes behind it.
use shimakaze.Common.{
  length-drop, ◌<◌, [], Bool, true, false, ltb, not, ◌==◌, if◌then◌else◌, bit_or, take-append_le,
  drop-append_le, ◌+◌, ◌*◌, ◌^◌, get_or, ℕ, ◌+◌, ◌^◌, ◌<◌, List, ◌∷◌, ◌++◌, length, take, drop, ◌≡◌,
  refl, ap, ◌∙◌, sym, arith, length-append, take-append_length, drop-append_length, append_assoc,
  drop-drop,
}
use shimakaze.Config.Base.{BaseConfig}
use shimakaze.Common.Int.{low_byte}
use shimakaze.Wire.Codec.{write_le16, write_le32, read_le16, read_le32}
use shimakaze.Wire.RoundTrip.{read_le16-write_le16, read_le32-write_le32, length-write_le32}
use shimakaze.Smux.State.{Command}
use shimakaze.Smux.Frame.{
  Received, incomplete, mismatch, command_byte, make_frame, frame, read_frame,
}

length-write_le16 : (v : ℕ) → length (write_le16 v) ≡ 2
unfolding write_le16
length-write_le16 v = omega arith

-- A buffer that begins with a header of this version and the payload that it announces.
read_frame_whole :
    (config : BaseConfig) (command id : ℕ) (size head payload rest : List ℕ)
    → length size ≡ 2
    → length head ≡ 4
    → read_le16 (size ++ (head ++ (payload ++ rest))) ≡ length payload
    → read_le32 (head ++ (payload ++ rest)) ≡ id
    → read_frame config (low_byte config.smuxver ∷ command ∷ (size ++ (head ++ (payload ++ rest))))
      ≡ frame command id payload rest
unfolding read_frame
read_frame_whole config command id size head payload rest two four announced named =
    let tail : List ℕ = size ++ (head ++ (payload ++ rest)) in
    let buffer : List ℕ = low_byte config.smuxver ∷ command ∷ tail in
    let total : length tail ≡ 6 + length payload + length rest = omega (
      arith,
      length-append size (head ++ (payload ++ rest)),
      length-append head (payload ++ rest),
      length-append payload rest,
    ) in
    let behind_size : drop 2 tail ≡ head ++ (payload ++ rest) =
      drop-append_length size (head ++ (payload ++ rest)) {n = 2} (sym two) in
    let behind_head : drop 6 tail ≡ payload ++ rest =
      ap (drop 6) (sym (append_assoc size head (payload ++ rest)))
      ∙ drop-append_length (size ++ head) (payload ++ rest) {n = 6}
          (omega (arith, length-append size head)) in
    let taken : take (length payload) (payload ++ rest) ≡ payload =
      take-append_length payload rest refl in
    let dropped : drop (8 + length payload) buffer ≡ rest =
      sym (drop-drop (length payload) 8 buffer)
      ∙ ap (drop (length payload)) behind_head
      ∙ drop-append_length payload rest refl in
    ground (arith, total, behind_size, behind_head, taken, dropped)

-- The receiver reads the frame that the sender made, of any command, any stream id below 2 ^ 32 and
-- any payload of less than 2 ^ 16 bytes, and leaves what follows it.
pub read_frame-make_frame :
    (config : BaseConfig) (command : Command) (id : ℕ) (payload rest : List ℕ)
    → id < 2 ^ 32
    → length payload < 2 ^ 16
    → read_frame config (make_frame config command id payload ++ rest)
      ≡ frame (command_byte command) id payload rest
unfolding make_frame
read_frame-make_frame config command id payload rest hi hp =
    ap (λ t. read_frame config (low_byte config.smuxver ∷ command_byte command ∷ t)) shape
    ∙ read_frame_whole config (command_byte command) id size head payload rest
        (length-write_le16 (length payload)) (length-write_le32 id)
        (read_le16-write_le16 (length payload) (head ++ (payload ++ rest)) hp)
        (read_le32-write_le32 id (payload ++ rest) hi)
  where
    size : List ℕ
    size = write_le16 (length payload)

    head : List ℕ
    head = write_le32 id

    shape : (size ++ (head ++ payload)) ++ rest ≡ size ++ (head ++ (payload ++ rest))
    shape =
        append_assoc size (head ++ payload) rest ∙ ap (◌++◌ size) (append_assoc head payload rest)

read_le32-four :
    (a b c d : ℕ) (xs ys : List ℕ) → read_le32 (a ∷ b ∷ c ∷ d ∷ xs) ≡ read_le32 (a ∷ b ∷ c ∷ d ∷ ys)
unfolding read_le32
read_le32-four a b c d xs ys = refl

read_le16-two : (a b : ℕ) (xs ys : List ℕ) → read_le16 (a ∷ b ∷ xs) ≡ read_le16 (a ∷ b ∷ ys)
unfolding read_le16
read_le16-two a b xs ys = refl

-- More bytes behind the buffer change nothing for a round that acts, but for what it leaves.
abbrev pub Extends : List ℕ → Received → Received → Type 0
Extends more incomplete r = Unit
Extends more mismatch r = r ≡ mismatch
Extends more (frame command id payload rest) r = r ≡ frame command id payload (rest ++ more)

-- The three tests of a round, without and with the bytes that follow.
tests-Extends :
    (more : List ℕ) (command id : ℕ) (payload payload' rest rest' : List ℕ)
    (few few' version short short' : Bool)
    → few ≡ false
    → few' ≡ false
    → (short ≡ false → (short' ≡ false) × (payload' ≡ payload) × (rest' ≡ rest ++ more))
    → Extends more
        (if few
          then incomplete
          else if not version
          then mismatch
          else if short
          then incomplete
          else frame command id payload rest)
        (if few'
          then incomplete
          else if not version
          then mismatch
          else if short'
          then incomplete
          else frame command id payload' rest')
tests-Extends more command id payload payload' rest rest' true few' version short short' f f' h =
    absurd (ground arith)
tests-Extends more command id payload payload' rest rest' false true version short short' f f' h =
    absurd (ground arith)
tests-Extends more command id payload payload' rest rest' false false false short short' f f' h =
    refl
tests-Extends more command id payload payload' rest rest' false false true true short' f f' h = tt
tests-Extends more command id payload payload' rest rest' false false true false short' f f' h =
    let (long, same, left) = h refl in rw (long, same, left) refl

pub read_frame-Extends :
    (config : BaseConfig) (buffer more : List ℕ)
    → Extends more (read_frame config buffer) (read_frame config (buffer ++ more))
unfolding read_frame read_le16 read_le32
read_frame-Extends config [] more = tt
read_frame-Extends config (a ∷ []) more = tt
read_frame-Extends config (a ∷ b ∷ []) more = tt
read_frame-Extends config (a ∷ b ∷ c ∷ []) more = tt
read_frame-Extends config (a ∷ b ∷ c ∷ d ∷ []) more = tt
read_frame-Extends config (a ∷ b ∷ c ∷ d ∷ e ∷ []) more = tt
read_frame-Extends config (a ∷ b ∷ c ∷ d ∷ e ∷ f ∷ []) more = tt
read_frame-Extends config (a ∷ b ∷ c ∷ d ∷ e ∷ f ∷ g ∷ []) more = tt
read_frame-Extends config (a ∷ b ∷ c ∷ d ∷ e ∷ f ∷ g ∷ h ∷ t) more =
    tests-Extends more b _ _ _ _ _ (ltb (length buffer) 8) (ltb (length (buffer ++ more)) 8)
      (a == low_byte config.smuxver) (ltb (length buffer) (8 + size))
      (ltb (length (buffer ++ more)) (8 + size)) (ground arith) (ground arith)
      (λ long. (
        ground (arith, length-append t more),
        take-append_le size t more (ground arith),
        drop-append_le (8 + size) buffer more (ground arith),
      ))
  where
    buffer : List ℕ
    buffer = a ∷ b ∷ c ∷ d ∷ e ∷ f ∷ g ∷ h ∷ t

    size : ℕ
    size = bit_or c (d * 2 ^ 8)

-- A frame takes bytes off the buffer.
abbrev pub Shorter : List ℕ → Received → Type 0
Shorter buffer (frame command id payload rest) = length rest < length buffer
Shorter buffer r = Unit

tests-Shorter :
    (buffer payload : List ℕ) (command id size : ℕ) (few version short : Bool)
    → ltb (length buffer) 8 ≡ few
    → Shorter buffer (
        if few
        then incomplete
        else if not version
        then mismatch
        else if short
        then incomplete
        else frame command id payload (drop (8 + size) buffer))
tests-Shorter buffer payload command id size true version short h = tt
tests-Shorter buffer payload command id size false false short h = tt
tests-Shorter buffer payload command id size false true true h = tt
tests-Shorter buffer payload command id size false true false h =
    ground (arith, length-drop (8 + size) buffer)

pub read_frame-Shorter :
    (config : BaseConfig) (buffer : List ℕ) → Shorter buffer (read_frame config buffer)
unfolding read_frame
read_frame-Shorter config buffer =
    tests-Shorter buffer _ _ _ (read_le16 (drop 2 buffer)) (ltb (length buffer) 8)
      (get_or buffer 0 0 == low_byte config.smuxver)
      (ltb (length buffer) (8 + read_le16 (drop 2 buffer))) refl
