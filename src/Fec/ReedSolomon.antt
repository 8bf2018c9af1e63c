-- ===== src/Fec/ReedSolomon.antt =====
-- `FecCodec::ReedSolomon`: the parity of a set of shards, and the data that is missing from one.
use shimakaze.Common.{
  ℕ, zero, suc, ◌+◌, ◌==◌, ltb, Bool, false, if◌then◌else◌, List, [], ◌∷◌, Option, none, some, map,
  length, get_or, set, take, replicate,
}
use shimakaze.Fec.Matrix.{Matrix, row_of, add_scaled, invert_matrix, build_rs_matrix, indices}

pub record ReedSolomon : Type 0 where
  pub data_shards : ℕ
  pub parity_shards : ℕ
  pub matrix : Matrix

-- `none` is an exception of `build_rs_matrix`.
unfoldable pub make_reed_solomon : ℕ → ℕ → Option ReedSolomon
unfolding build_rs_matrix
make_reed_solomon data_shards parity_shards =
    elim (build_rs_matrix data_shards (data_shards + parity_shards)) [
      | none ↦ none
      | some m ↦
          some (record { data_shards = data_shards; parity_shards = parity_shards; matrix = m })
    ]

-- The sum of shards by their coefficients, onto `out`.
unfoldable pub combine : List ℕ → Matrix → List ℕ → List ℕ
unfolding add_scaled
combine [] shards out = out
combine (k ∷ ks) [] out = out
combine (k ∷ ks) (s ∷ ss) out = combine ks ss (if k == 0 then out else add_scaled k out s)

-- `encode`, into parity shards of `size` bytes.
unfoldable pub encode : ReedSolomon → Matrix → ℕ → Matrix
unfolding combine indices
encode rs data' size =
    map
      (λ p.
        combine (row_of rs.matrix (rs.data_shards + p)) (take rs.data_shards data')
          (replicate size 0))
      (indices 0 rs.parity_shards)

-- The first `wanted` indices that are present, from `index` on.
unfoldable pub valid_from : ℕ → ℕ → List Bool → List ℕ
valid_from wanted index [] = []
valid_from zero index (b ∷ bs) = []
valid_from (suc wanted) index (b ∷ bs) =
    let later = valid_from (suc wanted) (index + 1) bs in
    let fewer = valid_from wanted (index + 1) bs in if b then index ∷ fewer else later

-- How `reconstruct_data` ends: it returns false, throws, or returns true with the shards.
pub data Reconstructed : Type 0 where
  too_few : Reconstructed
  singular : Reconstructed
  restored : Matrix → Reconstructed

-- The loop over the missing shards, `left` of them from `missing` on.
unfoldable pub restore : ℕ → ℕ → List Bool → List ℕ → Matrix → ℕ → Matrix → Matrix
unfolding combine
restore zero missing present valid decode shard_len shards = shards
restore (suc left) missing present valid decode shard_len shards =
    let recovered =
      combine (row_of decode missing) (map (row_of shards) valid) (replicate shard_len 0) in
    restore left (missing + 1) present valid decode shard_len
      (if get_or present missing false then shards else set shards missing recovered)

unfoldable pub reconstruct_data : ReedSolomon → Matrix → List Bool → Reconstructed
unfolding valid_from invert_matrix restore
reconstruct_data rs shards present =
    let valid = valid_from rs.data_shards 0 present in
    let shard_len = length (row_of shards (get_or valid 0 0)) in
    let decoded : Reconstructed = elim (invert_matrix (map (row_of rs.matrix) valid)) [
      | none ↦ singular
      | some decode ↦ restored (restore rs.data_shards 0 present valid decode shard_len shards)
    ] in
    if ltb (length valid) rs.data_shards then too_few else decoded
