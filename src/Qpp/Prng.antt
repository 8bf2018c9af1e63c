-- ===== src/Qpp/Prng.antt =====
-- The generator of qpp.cpp: `xoshiro256ss`, and the `Rand` that deals one byte of each 64-bit word.
use shimakaze.Common.{ℕ, ◌+◌, ◌-◌, ◌*◌, ◌/◌, ◌%◌, ◌^◌, bit_or, bit_xor, ◌==◌, if◌then◌else◌}

pub record Xoshiro : Type 0 where
  pub s0 : ℕ
  pub s1 : ℕ
  pub s2 : ℕ
  pub s3 : ℕ

abbrev pub u64 : ℕ → ℕ
u64 x = x % 2 ^ 64

-- `std::rotl` on a `uint64_t`, for 0 < k < 64.
unfoldable pub rotl : ℕ → ℕ → ℕ
rotl x k = bit_or (u64 (x * 2 ^ k)) (x / 2 ^ (64 - k))

-- The word that is drawn, and the state after it.
unfoldable pub xoshiro256ss : Xoshiro → ℕ × Xoshiro
xoshiro256ss s =
    let result = u64 (rotl (u64 (s.s1 * 5)) 7 * 9) in
    let t = u64 (s.s1 * 2 ^ 17) in
    let s2 = bit_xor s.s2 s.s0 in
    let s3 = bit_xor s.s3 s.s1 in
    (
      result,
      record { s0 = bit_xor s.s0 s3; s1 = bit_xor s.s1 s2; s2 = bit_xor s2 t; s3 = rotl s3 45 },
    )

-- `QppPad::Rand`.
pub record Rand : Type 0 where
  pub xoshiro : Xoshiro
  pub seed64 : ℕ
  pub count : ℕ

-- The end of one round of the loops of `encrypt` and `decrypt`: the next byte of the word, or the
-- next word. `r` and `count` are kept in the record, where the source writes them back at the end.
unfoldable pub advance : Rand → Rand
advance rand =
    let count = (rand.count + 1) % 2 ^ 8 in
    if count == 8
    then (let (r, state) = xoshiro256ss rand.xoshiro in
        record { xoshiro = state; seed64 = r; count = 0 })
    else record rand { count = count }
