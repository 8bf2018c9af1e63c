-- ===== src/Fec/Matrix.antt =====
-- The matrices of fec.cpp, as lists of rows: `multiply_matrix`, `invert_matrix`, `build_rs_matrix`.
use shimakaze.Common.{
  ℕ, zero, suc, ◌+◌, ◌-◌, ◌%◌, ◌==◌, if◌then◌else◌, bit_xor, List, [], ◌∷◌, ◌++◌, Option, none,
  some, map, length, get_or, set, take, drop, replicate,
}
use shimakaze.Fec.Field.{gf_mul, gf_pow, gf_inv}

abbrev pub Matrix : Type 0
Matrix = List (List ℕ)

abbrev pub row_of : Matrix → ℕ → List ℕ
row_of m r = get_or m r []

abbrev pub cell : Matrix → ℕ → ℕ → ℕ
cell m r c = get_or (row_of m r) c 0

-- The numbers from `start` on, `count` of them.
unfoldable pub indices : ℕ → ℕ → List ℕ
indices start zero = []
indices start (suc count) = start ∷ indices (start + 1) count

-- The innermost loop of `multiply_matrix`: `value ^= gf_mul(left, right)` over a row and a column.
unfoldable pub dot : ℕ → List ℕ → List ℕ → ℕ
dot value [] column = value
dot value (l ∷ ls) [] = value
dot value (l ∷ ls) (x ∷ xs) = dot (bit_xor value (gf_mul l x)) ls xs

abbrev pub column : Matrix → ℕ → List ℕ
column m c = map (λ row. get_or row c 0) m

unfoldable pub multiply_matrix : Matrix → Matrix → Matrix
unfolding indices dot
multiply_matrix left right =
    map (λ row. map (λ c. dot 0 row (column right c)) (indices 0 (length (row_of right 0)))) left

-- `a[c] ^= gf_mul(scale, b[c])` for all columns.
unfoldable pub add_scaled : ℕ → List ℕ → List ℕ → List ℕ
add_scaled scale [] bs = []
add_scaled scale (a ∷ as') [] = a ∷ as'
add_scaled scale (a ∷ as') (b ∷ bs) = bit_xor a (gf_mul scale b) ∷ add_scaled scale as' bs

unfoldable pub unit_row : ℕ → ℕ → List ℕ
unit_row zero r = []
unit_row (suc size) zero = 1 ∷ replicate size 0
unit_row (suc size) (suc r) = 0 ∷ unit_row size r

-- `work`: the rows of a square matrix, from row `r` on, each followed by its row of the identity.
unfoldable pub augment : ℕ → ℕ → Matrix → Matrix
unfolding unit_row
augment size r [] = []
augment size r (row ∷ rows) = (row ++ unit_row size r) ∷ augment size (r + 1) rows

-- The first row from `row` on, of `left` rows, that is not zero in column `c`.
unfoldable pub find_row : ℕ → ℕ → ℕ → Matrix → Option ℕ
find_row zero row c work = none
find_row (suc left) row c work =
    let below = find_row left (row + 1) c work in if cell work row c == 0 then below else some row

unfoldable pub swap_rows : ℕ → ℕ → Matrix → Matrix
swap_rows i j work = set (set work i (row_of work j)) j (row_of work i)

unfoldable pub pivot : ℕ → ℕ → Matrix → Matrix
unfolding find_row swap_rows
pivot size r work =
    let swapped : Matrix = elim (find_row (size - (r + 1)) (r + 1) r work) [
      | none ↦ work
      | some below ↦ swap_rows r below work
    ] in
    if cell work r r == 0 then swapped else work

abbrev pub scale_row : ℕ → List ℕ → List ℕ
scale_row scale row = map (λ x. gf_mul x scale) row

-- Scales row `r` to a 1 on the diagonal; `none` is the exception of a singular matrix.
unfoldable pub normalize : ℕ → Matrix → Option Matrix
normalize r work =
    let scaled : Option Matrix = elim (gf_inv (cell work r r)) [
      | none ↦ none
      | some scale ↦ some (set work r (scale_row scale (row_of work r)))
    ] in
    if cell work r r == 0 then none else if cell work r r == 1 then some work else scaled

-- Clears column `r` of one row by row `r`,
unfoldable pub clear_row : ℕ → ℕ → Matrix → Matrix
unfolding add_scaled
clear_row r row work =
    let scale = cell work row r in
    if scale == 0 then work else set work row (add_scaled scale (row_of work row) (row_of work r))

-- and of `count` rows, from `row` on.
unfoldable pub clear_rows : ℕ → ℕ → ℕ → Matrix → Matrix
unfolding clear_row
clear_rows zero row r work = work
clear_rows (suc count) row r work = clear_rows count (row + 1) r (clear_row r row work)

-- The first elimination, with `left` rows to go from row `r` on.
unfoldable pub forward : ℕ → ℕ → ℕ → Matrix → Option Matrix
unfolding pivot normalize clear_rows
forward zero size r work = some work
forward (suc left) size r work = elim (normalize r (pivot size r work)) [
  | none ↦ none
  | some w ↦ forward left size (r + 1) (clear_rows (size - (r + 1)) (r + 1) r w)
]

-- The second, above the diagonal, from row `d` on.
unfoldable pub backward : ℕ → ℕ → Matrix → Matrix
unfolding clear_rows
backward zero d work = work
backward (suc left) d work = backward left (d + 1) (clear_rows d 0 d work)

unfoldable pub invert_matrix : Matrix → Option Matrix
unfolding augment forward backward
invert_matrix input =
    let size = length input in
    elim (forward size size 0 (augment size 0 input)) [
      | none ↦ none
      | some work ↦ some (map (drop size) (backward size 0 work))
    ]

unfoldable pub vandermonde : ℕ → ℕ → Matrix
unfolding indices
vandermonde data_shards total_shards =
    map (λ r. map (gf_pow (r % 256)) (indices 0 data_shards)) (indices 0 total_shards)

unfoldable pub build_rs_matrix : ℕ → ℕ → Option Matrix
unfolding vandermonde invert_matrix multiply_matrix
build_rs_matrix data_shards total_shards =
    let rows = vandermonde data_shards total_shards in
    elim (invert_matrix (take data_shards rows)) [
      | none ↦ none
      | some inverse ↦ some (multiply_matrix rows inverse)
    ]
