-- ===== src/Qpp/Shuffle.antt =====
-- `shuffle_pad` and the constructor of `QppPad` only ever swap entries, so every matrix that is built
-- is a permutation, whatever the primitives return.
use mathlib.Core.List.{foldl}
use mathlib.Core.Path.{subst}
use shimakaze.Common.{
  ℕ, zero, suc, ◌+◌, ◌*◌, ◌%◌, ◌<◌, ◌≡◌, refl, ap, List, [], ◌∷◌, map, arith, length, concat, All,
  some,
}
use shimakaze.Qpp.Pad.{
  Primitives, QppPad, fill_pad, reverse_pad, mod_big_endian, shuffle_from, shuffle_pad, build_pad,
  build_pads, make_pad, stir, seed_to_chunks, shuffle_salt, swap,
}
use shimakaze.Qpp.Permutation.{IsPermutation, fill_pad-IsPermutation, swap-IsPermutation}

foldl_mod-lt :
    (bytes : List ℕ) (acc m : ℕ)
    → acc < m
    → foldl (λ result byte. (result * 256 + byte) % m) acc bytes < m
foldl_mod-lt [] acc m h = h
foldl_mod-lt (b ∷ bytes) acc m h = foldl_mod-lt bytes ((acc * 256 + b) % m) m (grind arith)

mod_big_endian-lt : (bytes : List ℕ) (m : ℕ) → 0 < m → mod_big_endian bytes m < m
unfolding mod_big_endian
mod_big_endian-lt bytes m h = foldl_mod-lt bytes 0 m h

-- The matrices behind the two flat arrays of a `QppPad`.
pub record IsPad (p : QppPad) : Type 0 where
  pub matrices : List (List ℕ)
  pub permutations : All IsPermutation matrices
  pub count : length matrices ≡ p.num_pads
  pub some_matrix : 0 < p.num_pads
  pub forward : p.pads ≡ concat matrices
  pub backward : p.rpads ≡ concat (map reverse_pad matrices)

module _ (crypto : Primitives) where
  shuffle_from-IsPermutation :
      (i : ℕ) (keys : List (List ℕ)) (sum pad : List ℕ)
      → i < 256
      → IsPermutation pad
      → IsPermutation (shuffle_from crypto i keys sum pad)
  unfolding shuffle_from
  shuffle_from-IsPermutation zero keys sum pad h v = v
  shuffle_from-IsPermutation (suc i) keys sum pad h v =
      let sum' = stir crypto keys sum in
      let j = mod_big_endian sum' (suc i + 1) in
      shuffle_from-IsPermutation i keys sum' (swap pad (suc i) j) (omega arith) (
        swap-IsPermutation pad (suc i) j h
          (omega (arith, mod_big_endian-lt sum' (suc i + 1) (omega arith))) v)

  build_pads-IsPermutation :
      (chunks keys : List (List ℕ)) (i n : ℕ)
      → All IsPermutation (build_pads crypto chunks keys i n)
        × (length (build_pads crypto chunks keys i n) ≡ n)
  unfolding build_pads build_pad shuffle_pad
  build_pads-IsPermutation chunks keys i zero = (tt, refl)
  build_pads-IsPermutation chunks keys i (suc n) =
      let (all, count) = build_pads-IsPermutation chunks keys (i + 1) n in
      (
        (shuffle_from-IsPermutation 255 keys _ fill_pad (omega arith) fill_pad-IsPermutation, all),
        ap suc count,
      )

  -- A pad that the constructor makes has the count of matrices that was asked for, each a permutation.
  pub make_pad-IsPad :
      (seed : List ℕ) (n : ℕ) {p : QppPad}
      → make_pad crypto seed n ≡ some p
      → IsPad p × (p.num_pads ≡ n)
  unfolding make_pad
  make_pad-IsPad seed zero e = cc
  make_pad-IsPad seed (suc n) {p} e = subst (λ q. IsPad q × (q.num_pads ≡ suc n)) made (built, refl)
    where
      chunks : List (List ℕ)
      chunks = seed_to_chunks crypto seed

      keys : List (List ℕ)
      keys = map (λ chunk. crypto.pbkdf2_sha1 chunk shuffle_salt 128) chunks

      matrices : List (List ℕ)
      matrices = build_pads crypto chunks keys 0 (suc n)

      pad : QppPad
      pad = record {
        pads = concat matrices;
        rpads = concat (map reverse_pad matrices);
        num_pads = suc n;
      }

      made : pad ≡ p
      made = ground arith

      built : IsPad pad
      built = record {
        matrices = matrices;
        permutations = (build_pads-IsPermutation chunks keys 0 (suc n)).0;
        count = (build_pads-IsPermutation chunks keys 0 (suc n)).1;
        some_matrix = omega arith;
        forward = refl;
        backward = refl;
      }
