-- ===== src/Fec/Grouping.antt =====
-- What a codec that sends holds, and the end of a group: its parity packets, or none.
use shimakaze.Common.{
  ℕ, zero, suc, ◌+◌, ◌<◌, ◌==◌, ltb, not, ◌&&◌, Bool, true, false, if◌then◌else◌, List, [], ◌∷◌,
  map, length, ◌≡◌, ◌⊎◌, inl, inr, refl, ap, sym, ◌∙◌, arith, subst,
}
use shimakaze.Fec.Matrix.{Matrix, indices}
use shimakaze.Fec.ReedSolomon.{ReedSolomon, make_reed_solomon}
use shimakaze.Fec.ReedSolomon
use shimakaze.Fec.Codec.{FecCodec, fec_type_parity, seal_all, resize, skip_parity, end_group}
use shimakaze.Fec.Sequence.{IsAt, IsAt-next, Numbered, seal_all-next, seal_all-lem, length-seal_all}

-- The state of a codec that is enabled.
pub record IsCodec (s : FecCodec) : Type 0 where
  pub working : s.enabled ≡ true
  pub size : s.shard_size ≡ s.data_shards + s.parity_shards
  pub some_data : 0 < s.data_shards
  pub some_parity : 0 < s.parity_shards
  pub place : IsAt s.shard_size s.paws s.next_seq s.shard_count
  pub filling : s.shard_count < s.data_shards
  pub held : length s.encode_shards ≡ s.data_shards
  pub generated : s.rs.parity_shards ≡ s.parity_shards

-- The state when a group has its last data shard.
pub record IsFull (s : FecCodec) : Type 0 where
  pub working : s.enabled ≡ true
  pub size : s.shard_size ≡ s.data_shards + s.parity_shards
  pub some_data : 0 < s.data_shards
  pub some_parity : 0 < s.parity_shards
  pub place : IsAt s.shard_size s.paws s.next_seq s.data_shards
  pub held : length s.encode_shards ≡ s.data_shards
  pub generated : s.rs.parity_shards ≡ s.parity_shards

-- Parity packets with the numbers from `seq` on: none, or all of a group.
unfoldable pub AreParity : ℕ → ℕ → Matrix → Type 0
AreParity parity_shards seq packets =
    Numbered seq fec_type_parity packets × ((packets ≡ []) ⊎ (length packets ≡ parity_shards))

length-indices : (i n : ℕ) → length (indices i n) ≡ n
unfolding indices
length-indices i zero = refl
length-indices i (suc n) = ap suc (length-indices (i + 1) n)

length-map {ℓ κ} :
    {A : Type ℓ} {B : Type κ} (f : A → B) (xs : List A) → length (map f xs) ≡ length xs
length-map f [] = refl
length-map f (x ∷ xs) = ap suc (length-map f xs)

length-encode :
    (s : FecCodec) (shards : Matrix) (size : ℕ)
    → length (ReedSolomon.encode s.rs shards size) ≡ s.rs.parity_shards
unfolding ReedSolomon.encode
length-encode s shards size =
    length-map _ (indices 0 s.rs.parity_shards) ∙ length-indices 0 s.rs.parity_shards

-- The end of a group, from the packets it gives and the codec before the counts are cleared.
Ends : FecCodec → Matrix × FecCodec → Type 0
Ends s r =
    IsCodec (record r.1 { shard_count = 0; max_shard_len = 0 })
    × AreParity s.parity_shards s.next_seq r.0

skip_parity-Ends : (s : FecCodec) → IsFull s → Ends s ([], skip_parity s)
unfolding Ends AreParity Numbered skip_parity
skip_parity-Ends s h = (
  record {
    working = h.working;
    size = h.size;
    some_data = h.some_data;
    some_parity = h.some_parity;
    place = IsAt-next h.place s.parity_shards (sym h.size);
    filling = h.some_data;
    held = h.held;
    generated = h.generated;
  },
  (tt, inl refl),
)

seal_all-Ends :
    (parity : Matrix) (s : FecCodec)
    → IsFull s
    → length parity ≡ s.parity_shards
    → Ends s (seal_all parity s)
unfolding Ends AreParity
seal_all-Ends parity s h e = (
  subst (λ t. IsCodec (record t { shard_count = 0; max_shard_len = 0 }))
      (sym (seal_all-next parity s))
      (record {
        working = h.working;
        size = h.size;
        some_data = h.some_data;
        some_parity = h.some_parity;
        place = sealed.1;
        filling = h.some_data;
        held = h.held;
        generated = h.generated;
      }),
  (sealed.0, inr (length-seal_all parity s ∙ e)),
)
  where
    sealed :
        Numbered s.next_seq fec_type_parity (seal_all parity s).0
        × IsAt s.shard_size s.paws (seal_all parity s).1.next_seq 0
    sealed =
        seal_all-lem parity s s.data_shards h.place (omega (arith, e, h.size))
          (omega (arith, e, h.some_parity))

pub end_group-lem :
    (now : ℕ) (s : FecCodec)
    → IsFull s
    → IsCodec (end_group now s).1 × AreParity s.parity_shards s.next_seq (end_group now s).0
unfolding end_group Ends
end_group-lem now s h = decide (not (s.latest_packet_ms == 0) && ltb now (s.latest_packet_ms + 500))
  where
    t : FecCodec
    t = record s { encode_shards = map (resize s.max_shard_len) s.encode_shards }

    parity : Matrix
    parity = ReedSolomon.encode s.rs t.encode_shards s.max_shard_len

    decide :
        (b : Bool)
        → Ends s (if◌then◌else◌ {A = Matrix × FecCodec} b (seal_all parity t) ([], skip_parity s))
    decide true =
        seal_all-Ends parity t
          (record {
            working = h.working;
            size = h.size;
            some_data = h.some_data;
            some_parity = h.some_parity;
            place = h.place;
            held = length-map (resize s.max_shard_len) s.encode_shards ∙ h.held;
            generated = h.generated;
          })
          (length-encode s t.encode_shards s.max_shard_len ∙ h.generated)
    decide false = skip_parity-Ends s h
