-- ===== src/Qpp/Permutation.antt =====
-- The matrices of qpp.cpp are permutations of the bytes, and `reverse_pad` inverts them.
use shimakaze.Common.{
  ℕ, zero, suc, ◌+◌, ◌%◌, ◌≤◌, ◌<◌, ◌≡◌, refl, ap, ◌∙◌, ◌≢◌, ◌==◌, if◌then◌else◌, List, [], ◌∷◌,
  arith, length, get_or, set, replicate, length-set, get_or-set_self, get_or-set_ne,
}
use shimakaze.Qpp.Pad.{fill_from, fill_pad, swap, reverse_from, reverse_pad, matrix_bytes}

abbrev pub at : List ℕ → ℕ → ℕ
at pad i = get_or pad i 0

-- Every byte stands in the matrix exactly once.
pub record IsPermutation (pad : List ℕ) : Type 0 where
  pub size : length pad ≡ 256
  pub bytes : (i : ℕ) → i < 256 → at pad i < 256
  pub distinct : (i j : ℕ) → i < 256 → j < 256 → at pad i ≡ at pad j → i ≡ j

length-fill_from : (i n : ℕ) → length (fill_from i n) ≡ n
unfolding fill_from
length-fill_from i zero = refl
length-fill_from i (suc n) = ap suc (length-fill_from (i + 1) n)

at-fill_from : (i n k : ℕ) → k < n → at (fill_from i n) k ≡ (i + k) % 256
unfolding fill_from
at-fill_from i zero k h = absurd (omega arith)
at-fill_from i (suc n) zero h = omega arith
at-fill_from i (suc n) (suc k) h = omega (arith, at-fill_from (i + 1) n k (omega arith))

pub fill_pad-IsPermutation : IsPermutation fill_pad
unfolding fill_pad
fill_pad-IsPermutation = record {
  size = length-fill_from 0 256;
  bytes = λ i h. omega (arith, at-fill_from 0 256 i h);
  distinct = λ i j hi hj e. omega (arith, at-fill_from 0 256 i hi, at-fill_from 0 256 j hj);
}

at-swap :
    (pad : List ℕ) (i j k : ℕ)
    → i < length pad
    → j < length pad
    → at (swap pad i j) k ≡ (if k == j then at pad i else if k == i then at pad j else at pad k)
unfolding swap
at-swap pad i j k hi hj = ground (
  arith,
  get_or-set_self (set pad i (at pad j)) j (at pad i) 0,
  get_or-set_ne (set pad i (at pad j)) j k (at pad i) 0,
  get_or-set_self pad i (at pad j) 0,
  get_or-set_ne pad i k (at pad j) 0,
  length-set pad i (at pad j),
)

pub swap-IsPermutation :
    (pad : List ℕ) (i j : ℕ) → i < 256 → j < 256 → IsPermutation pad → IsPermutation (swap pad i j)
swap-IsPermutation pad i j hi hj v = record {
  size = unfold swap in length-set (set pad i _) j _ ∙ length-set pad i _ ∙ v.size;
  bytes = λ k h. ground (arith, v.size, swapped k, v.bytes i, v.bytes j, v.bytes k);
  distinct = λ k l hk hl e. ground (
    arith,
    v.size,
    swapped k,
    swapped l,
    v.distinct i j,
    v.distinct i l,
    v.distinct j l,
    v.distinct k i,
    v.distinct k j,
    v.distinct k l,
  );
}
  where
    swapped :
        (k : ℕ)
        → at (swap pad i j) k ≡ (if k == j then at pad i else if k == i then at pad j else at pad k)
    swapped k = at-swap pad i j k (omega (arith, v.size)) (omega (arith, v.size))

length-reverse_from : (i : ℕ) (pad rpad : List ℕ) → length (reverse_from i pad rpad) ≡ length rpad
unfolding reverse_from
length-reverse_from i [] rpad = refl
length-reverse_from i (x ∷ pad) rpad =
    length-reverse_from (i + 1) pad (set rpad x (i % 256)) ∙ length-set rpad x (i % 256)

-- An entry that the rest of the matrix does not hold is not written again.
reverse_from_other :
    (i : ℕ) (pad rpad : List ℕ) (x : ℕ)
    → ((k : ℕ) → k < length pad → at pad k ≢ x)
    → at (reverse_from i pad rpad) x ≡ at rpad x
unfolding reverse_from
reverse_from_other i [] rpad x h = refl
reverse_from_other i (y ∷ pad) rpad x h =
    reverse_from_other (i + 1) pad (set rpad y (i % 256)) x (λ k l. h (suc k) (omega arith))
    ∙ get_or-set_ne rpad y x (i % 256) 0 (h 0 (omega arith))

reverse_from_lem :
    (i : ℕ) (pad rpad : List ℕ)
    → i + length pad ≤ 256
    → ((k : ℕ) → k < length pad → at pad k < length rpad)
    → ((k l : ℕ) → k < length pad → l < length pad → at pad k ≡ at pad l → k ≡ l)
    → (k : ℕ) → k < length pad
    → at (reverse_from i pad rpad) (at pad k) ≡ i + k
unfolding reverse_from
reverse_from_lem i [] rpad fits low distinct k h = absurd (omega arith)
reverse_from_lem i (x ∷ pad) rpad fits low distinct zero h =
    reverse_from_other (i + 1) pad (set rpad x (i % 256)) x
      (λ k l e. omega (arith, distinct (suc k) 0 (omega arith) (omega arith) e))
    ∙ get_or-set_self rpad x (i % 256) 0 (low 0 h)
    ∙ omega arith
reverse_from_lem i (x ∷ pad) rpad fits low distinct (suc k) h =
    reverse_from_lem (i + 1) pad (set rpad x (i % 256)) (omega arith)
      (λ m l. omega (arith, low (suc m) (omega arith), length-set rpad x (i % 256)))
      (λ m n hm hn e. omega (arith, distinct (suc m) (suc n) (omega arith) (omega arith) e)) k
      (omega arith)
    ∙ omega arith

length-replicate : (n a : ℕ) → length (replicate n a) ≡ n
length-replicate zero a = refl
length-replicate (suc n) a = ap suc (length-replicate n a)

pub length-reverse_pad : (pad : List ℕ) → length (reverse_pad pad) ≡ 256
unfolding reverse_pad
length-reverse_pad pad =
    length-reverse_from 0 pad (replicate matrix_bytes 0) ∙ length-replicate matrix_bytes 0

-- The reversed matrix undoes the matrix.
pub reverse_pad_lem :
    (pad : List ℕ) (k : ℕ) → IsPermutation pad → k < 256 → at (reverse_pad pad) (at pad k) ≡ k
unfolding reverse_pad
reverse_pad_lem pad k v h =
    reverse_from_lem 0 pad (replicate matrix_bytes 0) (omega (arith, v.size))
      (λ m hm.
        omega (arith, v.size, v.bytes m (omega (arith, v.size)), length-replicate matrix_bytes 0))
      (λ m n hm hn e. v.distinct m n (omega (arith, v.size)) (omega (arith, v.size)) e) k
      (omega (arith, v.size))
    ∙ omega arith
