-- ===== src/Fec/Sending.antt =====
-- What `encode` keeps, and the numbers of the packets it gives.
use shimakaze.Common.{
  ℕ, ◌+◌, ◌%◌, ◌^◌, ◌==◌, ==_iff, Bool, true, false, if◌then◌else◌, List, [], ◌∷◌, ◌++◌, length,
  set, drop, length-set, ◌≡◌, inl, refl, ◌∙◌, arith, subst,
}
use shimakaze.Wire.Codec.{write_le16, read_le16, read_le32}
use shimakaze.Fec.Matrix.{Matrix}
use shimakaze.Fec.Codec.{
  FecCodec, fec_type_data, seal_packet, end_group, add_data, end_if_full, encode,
}
use shimakaze.Fec.Sequence.{
  IsAt, IsAt-place, IsAt-narrow, IsAt-further, Numbered, seal_packet-header,
}
use shimakaze.Fec.Grouping.{IsCodec, AreParity, end_group-lem}

-- What `encode` gives: a data packet, and no parity packet or those of the group.
unfoldable pub AreSent : FecCodec → Matrix → Type 0
AreSent s [] = ⊥
AreSent s (packet ∷ parity) =
    Numbered s.next_seq fec_type_data (packet ∷ [])
    × AreParity s.parity_shards (s.next_seq + 1) parity

unfoldable FollowedBy : FecCodec → Matrix × FecCodec → Type 0
FollowedBy s r = IsCodec r.1 × AreParity s.parity_shards s.next_seq r.0

-- `seal_packet` and `add_data` on a codec that is filling a group, then the end of the group if it is full.
end_if_full-lem :
    (now : ℕ) (shard : List ℕ) (s : FecCodec)
    → IsCodec s
    → FollowedBy
        (record s { next_seq = s.next_seq + 1 })
        (end_if_full now
          (add_data shard (record s { next_seq = (s.next_seq + 1) % 2 ^ 32 % s.paws })))
unfolding end_if_full add_data FollowedBy AreParity Numbered
end_if_full-lem now shard s h = decide (s.shard_count + 1 == s.data_shards) refl
  where
    t : FecCodec
    t = add_data shard (record s { next_seq = (s.next_seq + 1) % 2 ^ 32 % s.paws })

    next :
        ((s.next_seq + 1) % 2 ^ 32 % s.paws ≡ s.next_seq + 1)
        × IsAt s.shard_size s.paws ((s.next_seq + 1) % 2 ^ 32 % s.paws) (s.shard_count + 1)
    next = IsAt-further h.place 1 (omega (arith, h.filling, h.size, h.some_parity))

    held : length (set s.encode_shards s.shard_count shard) ≡ s.data_shards
    held = length-set s.encode_shards s.shard_count shard ∙ h.held

    decide :
        (b : Bool)
        → (s.shard_count + 1 == s.data_shards) ≡ b
        → FollowedBy
            (record s { next_seq = s.next_seq + 1 })
            (if◌then◌else◌ {A = Matrix × FecCodec} b (end_group now t) ([], t))
    decide true e =
        (full.0, subst (λ n. AreParity s.parity_shards n (end_group now t).0) next.0 full.1)
      where
        full :
            IsCodec (end_group now t).1 × AreParity s.parity_shards t.next_seq (end_group now t).0
        full = end_group-lem now t (record {
          working = h.working;
          size = h.size;
          some_data = h.some_data;
          some_parity = h.some_parity;
          place =
              subst (IsAt s.shard_size s.paws t.next_seq)
                ((==_iff (s.shard_count + 1) s.data_shards).0 e) next.1;
          held = held;
          generated = h.generated;
        })
    decide false e = (
      record {
        working = h.working;
        size = h.size;
        some_data = h.some_data;
        some_parity = h.some_parity;
        place = next.1;
        filling = ground (arith, h.filling);
        held = held;
        generated = h.generated;
      },
      (tt, inl refl),
    )

encode-lem :
    (now : ℕ) (p : List ℕ) (s : FecCodec) (b : Bool)
    → b ≡ true
    → IsCodec (record s { enabled = b })
    → IsCodec (encode now p (record s { enabled = b })).1
      × AreSent s (encode now p (record s { enabled = b })).0
unfolding encode AreSent seal_packet Numbered FollowedBy
encode-lem now p s false e h = absurd (ground arith)
encode-lem now p s true e h = (
  record {
    working = rest.0.working;
    size = rest.0.size;
    some_data = rest.0.some_data;
    some_parity = rest.0.some_parity;
    place = rest.0.place;
    filling = rest.0.filling;
    held = rest.0.held;
    generated = rest.0.generated;
  },
  ((header.0, header.1, tt), rest.1),
)
  where
    t : FecCodec
    t = record s { enabled = true }

    shard : List ℕ
    shard = write_le16 ((length p + 2) % 2 ^ 16) ++ p

    header :
        (read_le32 (seal_packet shard fec_type_data t).0 ≡ s.next_seq)
        × (read_le16 (drop 4 (seal_packet shard fec_type_data t).0) ≡ fec_type_data)
    header =
        seal_packet-header shard fec_type_data t (omega arith)
          (IsAt-narrow h.place (omega (arith, h.filling, h.size, h.some_parity)))

    rest :
        FollowedBy
          (record t { next_seq = t.next_seq + 1 })
          (end_if_full now
            (add_data shard (record t { next_seq = (t.next_seq + 1) % 2 ^ 32 % t.paws })))
    rest = end_if_full-lem now shard t h

-- `encode` keeps `IsCodec`: the codec is enabled, with data and parity shards, the next number is the place of
-- the next data shard in a group below `paws_`, fewer than `data_shards_` shards are held in room for all of
-- them, and Reed-Solomon makes `parity_shards_` parity shards.
pub encode-IsCodec : (now : ℕ) (p : List ℕ) (s : FecCodec) → IsCodec s → IsCodec (encode now p s).1
encode-IsCodec now p s h = (encode-lem now p s s.enabled h.working h).0

-- On a codec with `IsCodec`, `encode` gives a data packet and then parity packets: none, or one for each
-- parity shard. The data packet has the next number, whose remainder by the group's size is the count of the
-- shards held, and each packet after it has the number after the one before, so that all are of one group.
pub encode-AreSent :
    (now : ℕ) (p : List ℕ) (s : FecCodec)
    → IsCodec s
    → AreSent s (encode now p s).0 × (s.next_seq % s.shard_size ≡ s.shard_count)
encode-AreSent now p s h = (
  (encode-lem now p s s.enabled h.working h).1,
  IsAt-place h.place (omega (arith, h.filling, h.size, h.some_parity)),
)
