-- ===== src/Fec/Receiving.antt =====
-- What `decode` keeps.
use native.Mathlib.Nat.{div-mul-le_self}
use mathlib.Core.Option.{none-ne-some}
use shimakaze.Common.{
  either, ℕ, ◌/◌, ◌%◌, ◌<◌, ◌==◌, leb, ◌||◌, Bool, true, false, if◌then◌else◌, List, [], ◌∷◌,
  Option, none, some, get_or, drop, length-set, ◌≡◌, ◌≢◌, refl, sym, ◌∙◌, arith,
}
use shimakaze.Wire.Codec.{read_le16, read_le32}
use shimakaze.Fec.Matrix.{Matrix}
use shimakaze.Fec.Codec.{FecCodec, ShardSet, fec_header_size, fec_type_data, fec_type_oob}
use shimakaze.Fec.Decoder.{
  put_set, open_set, store_shard, count_present, finish_set, discard_old_shards, note_newest,
  close_set, add_shard, add_output, decode_shard, decode,
}
use shimakaze.Fec.OpenSets.{
  IsOpen, IsReceiver, erase_set-AreOpen, discard_from-AreOpen, open_set-IsOpen,
}

discard_old_shards-IsReceiver :
    (newest : ℕ) (s : FecCodec) → IsReceiver s → IsReceiver (discard_old_shards newest s)
unfolding discard_old_shards
discard_old_shards-IsReceiver newest s h = record {
  some_data = h.some_data;
  sets = discard_from-AreOpen s newest s.decode_sets h.sets;
}

note_newest-IsReceiver : (id : ℕ) (s : FecCodec) → IsReceiver s → IsReceiver (note_newest id s)
unfolding note_newest
note_newest-IsReceiver id s h =
    either IsReceiver _ (discard_old_shards id (record s { newest_shard_id = id })) s
      (discard_old_shards-IsReceiver id _ (record { some_data = h.some_data; sets = h.sets })) h

Accepted : Option Matrix × FecCodec → Type 0
Accepted r = r.0 ≢ none → IsReceiver r.1

close_set-IsReceiver :
    (id : ℕ) (tried : ShardSet) (given : Option Matrix) (s : FecCodec)
    → IsReceiver s
    → Accepted (close_set id tried given s)
unfolding close_set Accepted
close_set-IsReceiver id tried none s h given = absurd (given refl)
close_set-IsReceiver id tried (some packets) s h given =
    note_newest-IsReceiver id _
      (record { some_data = h.some_data; sets = erase_set-AreOpen s id s.decode_sets h.sets })

add_shard-IsReceiver :
    (id : ℕ) (found : ShardSet) (s : FecCodec)
    → IsReceiver s
    → (count_present found.present < s.data_shards
        → IsOpen s.shard_size s.data_shards s.paws (id, found))
    → Accepted (add_shard id found s)
unfolding add_shard Accepted put_set
add_shard-IsReceiver id found s h open_found =
    go (leb s.data_shards (count_present found.present)) refl
  where
    go :
        (b : Bool)
        → leb s.data_shards (count_present found.present) ≡ b
        → Accepted (
            if◌then◌else◌ {A = Option Matrix × FecCodec} b
              (close_set id (finish_set s found).1 (finish_set s found).0 s)
              (some [], note_newest id (record s { decode_sets = put_set id found s.decode_sets })))
    go true e given =
        close_set-IsReceiver id (finish_set s found).1 (finish_set s found).0 s h given
    go false e given =
        note_newest-IsReceiver id (record s { decode_sets = put_set id found s.decode_sets })
          (record {
            some_data = h.some_data;
            sets = (open_found (ground (arith, e)), erase_set-AreOpen s id s.decode_sets h.sets);
          })

store_shard-IsOpen :
    (size data_shards paws id index : ℕ) (shard : List ℕ) (b : Bool) (found : ShardSet)
    → IsOpen size data_shards paws (id, found)
    → count_present (store_shard index shard b found).present < data_shards
    → IsOpen size data_shards paws (id, store_shard index shard b found)
unfolding store_shard
store_shard-IsOpen size data_shards paws id index shard b found h waiting = record {
  numbered = h.numbered;
  shards = length-set found.shards index shard ∙ h.shards;
  present = length-set found.present index true ∙ h.present;
  data_shard = length-set found.data_shard index b ∙ h.data_shard;
  waiting = waiting;
}

add_output-none :
    (output : Matrix) (more : Option Matrix) → add_output output more ≢ none → more ≢ none
unfolding add_output
add_output-none output none h = h
add_output-none output (some packets) h = λ e. absurd (none-ne-some packets (sym e))

decode_shard-IsReceiver :
    (packet : List ℕ) (output : Matrix) (s : FecCodec)
    → IsReceiver s
    → Accepted (decode_shard packet output s)
unfolding decode_shard Accepted
decode_shard-IsReceiver packet output s h = go (leb s.paws seq) refl
  where
    seq : ℕ
    seq = read_le32 packet

    found : ShardSet
    found = open_set (seq / s.shard_size) s

    is_data : Bool
    is_data = read_le16 (drop 4 packet) == fec_type_data

    stored : ShardSet
    stored = store_shard (seq % s.shard_size) (drop fec_header_size packet) is_data found

    added : Option Matrix × FecCodec
    added = add_shard (seq / s.shard_size) stored s

    unless_repeat :
        seq < s.paws
        → (b : Bool)
        → Accepted (
            if◌then◌else◌ {A = Option Matrix × FecCodec} b
              (some output, s)
              (add_output output added.0, added.1))
    unless_repeat inside true given = h
    unless_repeat inside false given =
        add_shard-IsReceiver (seq / s.shard_size) stored s h
          (store_shard-IsOpen s.shard_size s.data_shards s.paws (seq / s.shard_size)
            (seq % s.shard_size) (drop fec_header_size packet) is_data found
            (open_set-IsOpen s (seq / s.shard_size) h
              (omega (arith, inside, div-mul-le_self seq s.shard_size))))
          (add_output-none output added.0 given)

    go :
        (b : Bool)
        → leb s.paws seq ≡ b
        → Accepted (
            if◌then◌else◌ {A = Option Matrix × FecCodec}
              (b || get_or found.present (seq % s.shard_size) false)
              (some output, s)
              (add_output output added.0, added.1))
    go true e given = h
    go false e given =
        unless_repeat (ground (arith, e)) (get_or found.present (seq % s.shard_size) false) given

-- `decode` keeps `IsReceiver`, whatever the packet, when it does not throw: each set that waits has room for
-- every shard of its group, has fewer than `data_shards_` of them, and is a group of numbers below `paws_`.
pub decode-IsReceiver :
    (packet : List ℕ) (s : FecCodec)
    → IsReceiver s
    → (decode packet s).0 ≢ none
    → IsReceiver (decode packet s).1
unfolding decode Accepted
decode-IsReceiver packet s h =
    either Accepted _ (some (packet ∷ []), s) _ (λ given. h)
      (either Accepted (read_le16 (drop 4 packet) == fec_type_oob) (some [], s) _ (λ given. h)
        (decode_shard-IsReceiver packet _ s h))
