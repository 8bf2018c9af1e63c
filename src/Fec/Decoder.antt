-- ===== src/Fec/Decoder.antt =====
-- `FecCodec::decode`: the packets that arrive, the sets of shards they fill, and what a full set gives
-- back. The statistics are left out.
use shimakaze.Common.{
  ℕ, zero, suc, ◌+◌, ◌-◌, ◌*◌, ◌/◌, ◌%◌, ◌^◌, max, ◌==◌, ltb, leb, not, ◌&&◌, ◌||◌, Bool, true,
  false, if◌then◌else◌, List, [], ◌∷◌, ◌++◌, Option, none, some, length, get_or, set, take, drop,
  replicate,
}
use shimakaze.Common.Int.{ℤ, pos, negsuc, above}
use shimakaze.Wire.Codec.{read_le16, read_le32}
use shimakaze.Fec.Matrix.{Matrix, row_of}
use shimakaze.Fec.ReedSolomon.{too_few, singular, restored, reconstruct_data}
use shimakaze.Fec.Codec.{
  fec_header_size, fec_header_size_plus_size, fec_type_data, fec_type_parity, fec_type_oob,
  ShardSet, FecCodec, resize,
}

-- The difference of two numbers of 32 bits as a signed one.
unfoldable pub timediff : ℕ → ℕ → ℤ
timediff later earlier =
    let d = (later + 2 ^ 32 - earlier) % 2 ^ 32 in
    if ltb d (2 ^ 31) then pos d else negsuc (2 ^ 32 - d - 1)

abbrev pub Sets : Type 0
Sets = List (ℕ × ShardSet)

unfoldable pub find_set : ℕ → Sets → Option ShardSet
find_set id [] = none
find_set id ((i, s) ∷ rest) = let later = find_set id rest in if i == id then some s else later

unfoldable pub erase_set : ℕ → Sets → Sets
erase_set id [] = []
erase_set id ((i, s) ∷ rest) =
    let later = erase_set id rest in if i == id then later else (i, s) ∷ later

unfoldable pub put_set : ℕ → ShardSet → Sets → Sets
unfolding erase_set
put_set id s sets = (id, s) ∷ erase_set id sets

unfoldable pub empty_set : ℕ → ShardSet
empty_set size = record {
  shards = replicate size [];
  present = replicate size false;
  data_shard = replicate size false;
}

unfoldable pub unless_empty : ℕ → Matrix → ShardSet → ShardSet
unfolding empty_set
unless_empty size [] found = empty_set size
unless_empty size (shard ∷ shards) found = found

unfoldable pub opened : ℕ → Option ShardSet → ShardSet
unfolding empty_set unless_empty
opened size none = empty_set size
opened size (some found) = unless_empty size found.shards found

-- The set of an id, made when the map has none or an empty one.
unfoldable pub open_set : ℕ → FecCodec → ShardSet
unfolding find_set opened
open_set id s = opened s.shard_size (find_set id s.decode_sets)

unfoldable pub store_shard : ℕ → List ℕ → Bool → ShardSet → ShardSet
store_shard index shard is_data found = record {
  shards = set found.shards index shard;
  present = set found.present index true;
  data_shard = set found.data_shard index is_data;
}

unfoldable pub count_present : List Bool → ℕ
count_present [] = 0
count_present (true ∷ bs) = count_present bs + 1
count_present (false ∷ bs) = count_present bs

-- The greatest length of a shard that is present.
unfoldable pub max_present_len : Matrix → List Bool → ℕ
max_present_len [] present = 0
max_present_len (s ∷ ss) [] = 0
max_present_len (s ∷ ss) (b ∷ bs) =
    let later = max_present_len ss bs in if b then max (length s) later else later

unfoldable pub resize_present : ℕ → Matrix → List Bool → Matrix
resize_present len [] present = []
resize_present len (s ∷ ss) [] = s ∷ ss
resize_present len (s ∷ ss) (b ∷ bs) = (if b then resize len s else s) ∷ resize_present len ss bs

-- What a recovered shard holds: the packet behind the size, when the size fits.
unfoldable pub recovered_packet : List ℕ → Matrix
recovered_packet recovered =
    let size = read_le16 recovered in
    if not (ltb (length recovered) 2) && (leb 2 size && leb size (length recovered))
    then take (size - 2) (drop 2 recovered) ∷ []
    else []

-- The packets of the shards that were missing, `left` of them from `i` on.
unfoldable pub recovered_packets : ℕ → ℕ → List Bool → Matrix → Matrix
unfolding recovered_packet
recovered_packets zero i present shards = []
recovered_packets (suc left) i present shards =
    let rest = recovered_packets left (i + 1) present shards in
    if get_or present i false then rest else recovered_packet (row_of shards i) ++ rest

-- What a set with enough shards gives: `none` is the exception of a matrix that has no inverse, after
-- which the set with the resized shards is still there.
unfoldable pub finish_set : FecCodec → ShardSet → Option Matrix × ShardSet
unfolding count_present max_present_len resize_present recovered_packets reconstruct_data
finish_set s found =
    let padded =
      resize_present (max_present_len found.shards found.present) found.shards found.present in
    let given : Option Matrix = elim (reconstruct_data s.rs padded found.present) [
      | singular ↦ none
      | too_few ↦ some []
      | restored shards ↦ some (recovered_packets s.data_shards 0 found.present shards)
    ] in
    if◌then◌else◌ {A = Option Matrix × ShardSet}
      (count_present (take s.data_shards found.present) == s.data_shards) (some [], found)
      (given, record found { shards = padded })

unfoldable pub discard_from : ℕ → ℕ → Sets → Sets
unfolding timediff
discard_from newest size [] = []
discard_from newest size ((id, found) ∷ rest) =
    let kept = discard_from newest size rest in
    if above (timediff (newest * size % 2 ^ 32) (id * size % 2 ^ 32)) (3 * size)
    then kept
    else (id, found) ∷ kept

unfoldable pub discard_old_shards : ℕ → FecCodec → FecCodec
unfolding discard_from
discard_old_shards newest s = record s {
  decode_sets = discard_from newest s.shard_size s.decode_sets;
}

-- A shard of a later set moves the newest id on and drops the sets that are too old.
unfoldable pub note_newest : ℕ → FecCodec → FecCodec
unfolding discard_old_shards timediff
note_newest id s =
    if above (timediff (id * s.shard_size % 2 ^ 32) (s.newest_shard_id * s.shard_size % 2 ^ 32)) 0
    then discard_old_shards id (record s { newest_shard_id = id })
    else s

-- After a set has given its packets, or thrown.
unfoldable pub close_set : ℕ → ShardSet → Option Matrix → FecCodec → Option Matrix × FecCodec
unfolding put_set erase_set note_newest
close_set id tried none s = (none, record s { decode_sets = put_set id tried s.decode_sets })
close_set id tried (some packets) s =
    (some packets, note_newest id (record s { decode_sets = erase_set id s.decode_sets }))

-- A set that has one shard more: `none` is an exception.
unfoldable pub add_shard : ℕ → ShardSet → FecCodec → Option Matrix × FecCodec
unfolding finish_set count_present put_set close_set note_newest
add_shard id found s =
    let (given, tried) = finish_set s found in
    if◌then◌else◌ {A = Option Matrix × FecCodec} (leb s.data_shards (count_present found.present))
      (close_set id tried given s)
      (some [], note_newest id (record s { decode_sets = put_set id found s.decode_sets }))

unfoldable pub add_output : Matrix → Option Matrix → Option Matrix
add_output output none = none
add_output output (some packets) = some (output ++ packets)

-- What a shard adds to the `output` so far.
unfoldable pub decode_shard : List ℕ → Matrix → FecCodec → Option Matrix × FecCodec
unfolding open_set store_shard add_shard add_output
decode_shard packet output s =
    let seq = read_le32 packet in
    let index = seq % s.shard_size in
    let id = seq / s.shard_size in
    let found = open_set id s in
    let flag = read_le16 (drop 4 packet) in
    let (more, s') =
      add_shard id (store_shard index (drop fec_header_size packet) (flag == fec_type_data) found)
        s in
    if◌then◌else◌ {A = Option Matrix × FecCodec}
      (leb s.paws seq || get_or found.present index false) (some output, s)
      (add_output output more, s')

-- `decode`: the KCP packets it gives, `none` for an exception.
unfoldable pub decode : List ℕ → FecCodec → Option Matrix × FecCodec
unfolding decode_shard
decode packet s =
    let flag = read_le16 (drop 4 packet) in
    let is_fec = (flag == fec_type_data) || ((flag == fec_type_parity) || (flag == fec_type_oob)) in
    let output = if flag == fec_type_data then drop fec_header_size_plus_size packet ∷ [] else [] in
    if◌then◌else◌ {A = Option Matrix × FecCodec}
      (not s.enabled || (ltb (length packet) fec_header_size_plus_size || not is_fec))
      (some (packet ∷ []), s)
      (if◌then◌else◌ {A = Option Matrix × FecCodec} (flag == fec_type_oob) (some [], s)
        (decode_shard packet output s))
