-- ===== src/Fec/Codec.antt =====
-- `FecCodec`: the packets that carry the shards, and the sets that wait for theirs. The statistics are
-- left out.
use shimakaze.Common.{
  ℕ, ◌+◌, ◌-◌, ◌*◌, ◌/◌, ◌%◌, ◌^◌, max, ◌==◌, ltb, not, ◌&&◌, ◌||◌, Bool, true, false,
  if◌then◌else◌, List, [], ◌∷◌, ◌++◌, Option, none, some, map, length, set, take, drop, replicate,
}
use shimakaze.Common.Int.{ℤ, at_least_zero, above, wrap_int}
use shimakaze.Config.Base.{BaseConfig}
use shimakaze.Wire.Codec.{write_le16, write_le32, read_le16}
use shimakaze.Fec.Matrix.{Matrix}
use shimakaze.Fec.ReedSolomon.{ReedSolomon, make_reed_solomon}
use shimakaze.Fec.ReedSolomon

abbrev pub fec_header_size : ℕ
fec_header_size = 6

abbrev pub fec_header_size_plus_size : ℕ
fec_header_size_plus_size = 8

abbrev pub fec_type_data : ℕ
fec_type_data = 0x00f1

abbrev pub fec_type_parity : ℕ
fec_type_parity = 0x00f2

abbrev pub fec_type_oob : ℕ
fec_type_oob = 0x00f3

unfoldable pub fec_kcp_payload_offset : List ℕ → Option ℕ
fec_kcp_payload_offset packet =
    let flag = read_le16 (drop 4 packet) in
    if ltb (length packet) fec_header_size_plus_size
    then some 0
    else if (flag == fec_type_data) || (flag == fec_type_oob)
    then some fec_header_size_plus_size
    else if flag == fec_type_parity
    then none
    else some 0

pub record ShardSet : Type 0 where
  pub shards : Matrix
  pub present : List Bool
  pub data_shard : List Bool

pub record FecCodec : Type 0 where
  pub data_shards : ℕ
  pub parity_shards : ℕ
  pub shard_size : ℕ
  pub enabled : Bool
  pub paws : ℕ
  pub next_seq : ℕ
  pub shard_count : ℕ
  pub max_shard_len : ℕ
  pub latest_packet_ms : ℕ
  pub newest_shard_id : ℕ
  pub encode_shards : Matrix
  pub decode_sets : List (ℕ × ShardSet)
  pub rs : ReedSolomon

abbrev pub no_reed_solomon : ReedSolomon
no_reed_solomon = record { data_shards = 0; parity_shards = 0; matrix = [] }

-- `datashard > 0 && parityshard > 0 && datashard + parityshard <= 256`.
unfoldable pub is_enabled : ℤ → ℤ → Bool
unfolding wrap_int
is_enabled datashard parityshard =
    above datashard 0
    && above parityshard 0
    && not (above (wrap_int (at_least_zero datashard + at_least_zero parityshard)) 256)

abbrev pub fresh : ℕ → ℕ → Bool → ReedSolomon → FecCodec
fresh data_shards parity_shards enabled rs = record {
  data_shards = data_shards;
  parity_shards = parity_shards;
  shard_size = data_shards + parity_shards;
  enabled = enabled;
  paws =
      if enabled
      then 0xffff_ffff / (data_shards + parity_shards) * (data_shards + parity_shards)
      else 0;
  next_seq = 0;
  shard_count = 0;
  max_shard_len = 0;
  latest_packet_ms = 0;
  newest_shard_id = 0;
  encode_shards = if enabled then replicate data_shards [] else [];
  decode_sets = [];
  rs = rs;
}

abbrev pub with_reed_solomon : ℕ → ℕ → Option ReedSolomon → Option FecCodec
with_reed_solomon data_shards parity_shards none = none
with_reed_solomon data_shards parity_shards (some rs) =
    some (fresh data_shards parity_shards true rs)

-- The constructor. A codec that is not enabled uses none of its numbers.
unfoldable pub make_codec : BaseConfig → Option FecCodec
unfolding make_reed_solomon is_enabled
make_codec config =
    let data' = at_least_zero config.datashard in
    let parity = at_least_zero config.parityshard in
    let made = with_reed_solomon data' parity (make_reed_solomon data' parity) in
    if is_enabled config.datashard config.parityshard
    then made
    else some (fresh data' parity false no_reed_solomon)

-- `packet` behind its first six bytes, under a header.
unfoldable pub seal_packet : List ℕ → ℕ → FecCodec → List ℕ × FecCodec
seal_packet body type s = (
  write_le32 s.next_seq ++ (write_le16 type ++ body),
  record s { next_seq = (s.next_seq + 1) % 2 ^ 32 % s.paws },
)

unfoldable pub skip_parity : FecCodec → FecCodec
skip_parity s = record s { next_seq = (s.next_seq + s.parity_shards) % 2 ^ 32 % s.paws }

-- `resize(size, 0)`.
abbrev pub resize : ℕ → List ℕ → List ℕ
resize size bytes = take size bytes ++ replicate (size - length bytes) 0

unfoldable pub seal_all : Matrix → FecCodec → Matrix × FecCodec
unfolding seal_packet
seal_all [] s = ([], s)
seal_all (shard ∷ shards) s =
    let (packet, s') = seal_packet shard fec_type_parity s in
    let (rest, s'') = seal_all shards s' in (packet ∷ rest, s'')

-- The end of a group of `data_shards_` packets: the parity, unless the packets come too slowly.
unfoldable pub end_group : ℕ → FecCodec → Matrix × FecCodec
unfolding seal_all skip_parity
end_group now s =
    let padded = map (resize s.max_shard_len) s.encode_shards in
    let (packets, sealed) =
      seal_all (ReedSolomon.encode s.rs padded s.max_shard_len)
        (record s { encode_shards = padded }) in
    let (parity, s') =
      if◌then◌else◌ {A = Matrix × FecCodec}
        (not (s.latest_packet_ms == 0) && ltb now (s.latest_packet_ms + 500)) (packets, sealed)
        ([], skip_parity s) in
    (parity, record s' { shard_count = 0; max_shard_len = 0 })

-- A data shard joins the group.
unfoldable pub add_data : List ℕ → FecCodec → FecCodec
add_data shard s = record s {
  max_shard_len = max s.max_shard_len (length shard);
  encode_shards = set s.encode_shards s.shard_count shard;
  shard_count = s.shard_count + 1;
}

unfoldable pub end_if_full : ℕ → FecCodec → Matrix × FecCodec
unfolding end_group
end_if_full now s =
    if◌then◌else◌ {A = Matrix × FecCodec} (s.shard_count == s.data_shards) (end_group now s) ([], s)

-- `encode` at the clock's `now`.
unfoldable pub encode : ℕ → List ℕ → FecCodec → Matrix × FecCodec
unfolding seal_packet add_data end_if_full
encode now kcp_packet s =
    let shard = write_le16 ((length kcp_packet + 2) % 2 ^ 16) ++ kcp_packet in
    let (data_packet, s1) = seal_packet shard fec_type_data s in
    let (parity, s2) = end_if_full now (add_data shard s1) in
    if◌then◌else◌ {A = Matrix × FecCodec} s.enabled
      (data_packet ∷ parity, record s2 { latest_packet_ms = now }) (kcp_packet ∷ [], s)
