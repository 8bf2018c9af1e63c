-- ===== src/Fec/Exchange.antt =====
-- From `encode` to `decode`.
use shimakaze.Common.{
  either, ℕ, ◌+◌, ◌/◌, ◌%◌, ◌^◌, ◌≤◌, ◌==◌, ltb, not, ◌||◌, Bool, true, false, if◌then◌else◌, List,
  [], ◌∷◌, ◌++◌, Option, none, some, length, drop, ◌≡◌, ◌⊎◌, inl, inr, refl, ap, sym, ◌∙◌, arith,
  subst,
}
use shimakaze.Wire.Codec.{write_le16, write_le32, read_le16, read_le32}
use shimakaze.Wire.RoundTrip.{read_le16-write_le16}
use shimakaze.Fec.Matrix.{Matrix}
use shimakaze.Fec.Codec.{
  end_if_full, add_data, FecCodec, fec_header_size, fec_header_size_plus_size, fec_type_data,
  fec_type_parity, fec_type_oob, seal_packet, encode, fec_kcp_payload_offset,
}
use shimakaze.Fec.Decoder.{open_set, store_shard, add_shard, add_output, decode_shard, decode}

if_false {ℓ} : {A : Type ℓ} (b : Bool) (x y : A) → b ≡ false → (if b then x else y) ≡ y
if_false true x y h = absurd (ground arith)
if_false false x y h = refl

or_false : (a b : Bool) → a ≡ false → b ≡ false → (a || b) ≡ false
or_false false b ha hb = hb
or_false true b ha hb = ha

-- A data packet, whatever its number.
decode_data :
    (packet : List ℕ) (r : FecCodec)
    → r.enabled ≡ true
    → 8 ≤ length packet
    → read_le16 (drop 4 packet) ≡ fec_type_data
    → decode packet r ≡ decode_shard packet (drop fec_header_size_plus_size packet ∷ []) r
unfolding decode
decode_data packet r working long data' =
    if_false _ (some (packet ∷ []), r) _ not_passed
    ∙ if_false (read_le16 (drop 4 packet) == fec_type_oob) (some [], r) _ (ground (arith, data'))
    ∙ ap (λ b. decode_shard packet (if b then drop fec_header_size_plus_size packet ∷ [] else []) r)
        is_data
  where
    is_data : (read_le16 (drop 4 packet) == fec_type_data) ≡ true
    is_data = ground (arith, data')

    not_passed :
        (not r.enabled
          || (ltb (length packet) fec_header_size_plus_size
              || not (
                  (read_le16 (drop 4 packet) == fec_type_data)
                  || ((read_le16 (drop 4 packet) == fec_type_parity)
                      || (read_le16 (drop 4 packet) == fec_type_oob)))))
        ≡ false
    not_passed = or_false (not r.enabled) _ (ap not working) (
        or_false (ltb (length packet) fec_header_size_plus_size) _ (ground arith) (
          ap
            (λ b. not (
              b
              || ((read_le16 (drop 4 packet) == fec_type_parity)
                  || (read_le16 (drop 4 packet) == fec_type_oob))))
            is_data))

-- A packet first in what `decode` gives, when it does not throw.
unfoldable pub StartsWith : List ℕ → Option Matrix → Type 0
StartsWith p given = (given ≡ none) ⊎ ((more : Matrix) × (given ≡ some (p ∷ more)))

decode_shard-StartsWith :
    (packet p : List ℕ) (r : FecCodec) → StartsWith p (decode_shard packet (p ∷ []) r).0
unfolding decode_shard StartsWith add_output
decode_shard-StartsWith packet p r =
    either (λ (t : Option Matrix × FecCodec). StartsWith p t.0) _ (some (p ∷ []), r) _
      (inr ([], refl)) (added more)
  where
    more : Option Matrix
    more =
        (add_shard (read_le32 packet / r.shard_size)
          (store_shard (read_le32 packet % r.shard_size) (drop fec_header_size packet)
            (read_le16 (drop 4 packet) == fec_type_data)
            (open_set (read_le32 packet / r.shard_size) r))
          r).0

    added : (more : Option Matrix) → StartsWith p (add_output (p ∷ []) more)
    added none = inl refl
    added (some packets) = inr (packets, refl)

data_packet : ℕ → ℕ → List ℕ → List ℕ
data_packet seq size p = write_le32 seq ++ (write_le16 fec_type_data ++ (write_le16 size ++ p))

data_packet-long : (seq size : ℕ) (p : List ℕ) → 8 ≤ length (data_packet seq size p)
unfolding data_packet write_le32 write_le16
data_packet-long seq size p = omega arith

data_packet-flag :
    (seq size : ℕ) (p : List ℕ) → read_le16 (drop 4 (data_packet seq size p)) ≡ fec_type_data
unfolding data_packet write_le32
data_packet-flag seq size p =
    read_le16-write_le16 fec_type_data (write_le16 size ++ p) (omega arith)

data_packet-body : (seq size : ℕ) (p : List ℕ) → drop 8 (data_packet seq size p) ≡ p
unfolding data_packet write_le32 write_le16
data_packet-body seq size p = refl

offset_data :
    (packet : List ℕ)
    → 8 ≤ length packet
    → read_le16 (drop 4 packet) ≡ fec_type_data
    → fec_kcp_payload_offset packet ≡ some fec_header_size_plus_size
unfolding fec_kcp_payload_offset
offset_data packet long data' =
    if_false (ltb (length packet) 8) (some 0) _ (ground arith)
    ∙ ap
        (λ b.
          if b || (read_le16 (drop 4 packet) == fec_type_oob)
          then some 8
          else if read_le16 (drop 4 packet) == fec_type_parity
          then none
          else some 0)
        is_data
  where
    is_data : (read_le16 (drop 4 packet) == fec_type_data) ≡ true
    is_data = ground (arith, data')

-- The first packet brings `p` to the receiver, at the offset `fec_kcp_payload_offset` gives when it is sealed.
unfoldable pub Delivered : List ℕ → FecCodec → FecCodec → Matrix → Type 0
Delivered p s r [] = ⊥
Delivered p s r (first ∷ parity) =
    StartsWith p (decode first r).0
    × ((s.enabled ≡ false) ⊎ ((fec_kcp_payload_offset first ≡ some 8) × (drop 8 first ≡ p)))

disabled-StartsWith :
    (p : List ℕ) (r : FecCodec) (b : Bool)
    → b ≡ false
    → StartsWith p (decode p (record r { enabled = b })).0
unfolding decode StartsWith
disabled-StartsWith p r false e = inr ([], refl)
disabled-StartsWith p r true e = absurd (ground arith)

-- `encode` and then `decode` of the first packet it gives, on codecs that are both enabled or both not:
-- `decode` throws, or what it gives starts with the KCP packet. On an enabled sender `fec_kcp_payload_offset`
-- of that packet is 8, and behind these 8 bytes is the KCP packet.
pub decode-encode :
    (now : ℕ) (p : List ℕ) (s r : FecCodec)
    → s.enabled ≡ r.enabled
    → Delivered p s r (encode now p s).0
unfolding encode seal_packet Delivered data_packet
decode-encode now p s r e = go s.enabled refl
  where
    go :
        (b : Bool)
        → b ≡ s.enabled
        → Delivered p (record s { enabled = b }) r (encode now p (record s { enabled = b })).0
    go true same = (
      subst (StartsWith p) (ap (λ (t : Option Matrix × FecCodec). t.0) (sym received))
          (decode_shard-StartsWith packet p r),
      inr (offset_data packet long flag, data_packet-body s.next_seq size p),
    )
      where
        size : ℕ
        size = (length p + 2) % 2 ^ 16

        packet : List ℕ
        packet = data_packet s.next_seq size p

        long : 8 ≤ length packet
        long = data_packet-long s.next_seq size p

        flag : read_le16 (drop 4 packet) ≡ fec_type_data
        flag = data_packet-flag s.next_seq size p

        received : decode packet r ≡ decode_shard packet (p ∷ []) r
        received =
            decode_data packet r (sym (same ∙ e)) long flag
            ∙ ap (λ q. decode_shard packet (q ∷ []) r) (data_packet-body s.next_seq size p)
    go false same = (disabled-StartsWith p r r.enabled (sym (same ∙ e)), inl refl)

-- There is a first packet, with at most the eight bytes of the header more.
pub encode-first :
    (now : ℕ) (p : List ℕ) (s : FecCodec)
    → (first : List ℕ) × (parity : Matrix) × ((encode now p s).0 ≡ first ∷ parity)
      × (length first ≤ length p + 8)
unfolding encode seal_packet data_packet write_le32 write_le16
encode-first now p s = go s.enabled
  where
    size : ℕ
    size = (length p + 2) % 2 ^ 16

    go :
        (b : Bool)
        → (first : List ℕ) × (parity : Matrix) × ((encode now p (record s { enabled = b })).0
            ≡ first ∷ parity)
          × (length first ≤ length p + 8)
    go true = (
      data_packet s.next_seq size p,
      (end_if_full now (
          add_data (write_le16 size ++ p)
            (seal_packet (write_le16 size ++ p) fec_type_data (record s { enabled = true })).1)).0,
      refl,
      omega arith,
    )
    go false = (p, [], refl, omega arith)
