-- ===== src/Crypto/Cipher.antt =====
-- The transformations of crypto.cpp on a buffer in place: `block_cfb_crypt`, `salsa20_crypt`,
-- `xor_crypt`. The ciphers of Crypto++ are parameters.
use shimakaze.Common.{
  ℕ, zero, suc, ◌==◌, leb, Bool, if◌then◌else◌, bit_xor, List, [], ◌∷◌, ◌++◌, Option, none, some,
  length, take, drop, min,
}
use mathlib.Core.Option

-- A keyed `BlockTransformation`: its `BlockSize` and `ProcessBlock`.
pub record Block : Type 0 where
  pub block_size : ℕ
  pub process : List ℕ → List ℕ

abbrev pub initial_vector : List ℕ
initial_vector =
    167 ∷ 115 ∷ 79 ∷ 156 ∷ 18 ∷ 172 ∷ 27 ∷ 1 ∷ 164 ∷ 21 ∷ 242 ∷ 193 ∷ 252 ∷ 120 ∷ 230 ∷ 107 ∷ []

-- `data[i] ^= mask[i]` as far as both go.
unfoldable pub xor_with : List ℕ → List ℕ → List ℕ
xor_with [] mask = []
xor_with (d ∷ ds) [] = d ∷ ds
xor_with (d ∷ ds) (m ∷ ms) = bit_xor d m ∷ xor_with ds ms

-- The loop of `block_cfb_crypt` from `offset` on, with `data` what is left; `none` means that the
-- fuel ran out. The cipher block is what was written when encrypting, and what was read otherwise.
unfoldable pub cfb_loop : Block → Bool → ℕ → List ℕ → List ℕ → Option (List ℕ)
cfb_loop b encrypting zero current [] = some []
cfb_loop b encrypting zero current (d ∷ ds) = none
cfb_loop b encrypting (suc fuel) current [] = some []
cfb_loop b encrypting (suc fuel) current (d ∷ ds) =
    let data' = d ∷ ds in
    let count = min b.block_size (length data') in
    let out = xor_with (take count data') current in
    let cipher = if encrypting then out else take count data' in
    let rest = cfb_loop b encrypting fuel (b.process cipher) (drop count data') in
    if count == b.block_size then Option.map (λ r. out ++ r) rest else some out

-- Each full block takes a byte at least, so `length data` rounds are enough. A null `block_` leaves
-- the buffer alone.
unfoldable pub block_cfb_crypt : Option Block → Bool → List ℕ → Option (List ℕ)
block_cfb_crypt none encrypting data' = some data'
block_cfb_crypt (some b) encrypting data' =
    cfb_loop b encrypting (length data') (b.process initial_vector) data'

-- The stream cipher under `key`, from the 8 bytes at the front as its nonce.
unfoldable pub salsa20_crypt : (List ℕ → List ℕ → List ℕ → List ℕ) → List ℕ → List ℕ → List ℕ
salsa20_crypt salsa20 key data' =
    if leb (length data') 8
    then data'
    else take 8 data' ++ salsa20 key (take 8 data') (drop 8 data')

unfoldable pub xor_crypt : List ℕ → List ℕ → List ℕ
xor_crypt xor_table data' = xor_with data' xor_table
