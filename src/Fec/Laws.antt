-- ===== src/Fec/Laws.antt =====
-- The laws of the field: `gf_mul` is bilinear over `^`, commutative and associative on bytes.
use shimakaze.Common.{
  ℕ, zero, suc, ◌*◌, ◌/◌, ◌%◌, ◌^◌, ◌<◌, ◌==◌, Bool, true, false, ◌&&◌, if◌then◌else◌, bit_xor, ◌≡◌,
  refl, ap, ap₂, ◌∙◌, sym, subst, arith, IsByte, Bool-cases, inl, inr,
}
use native.Mathlib.Nat.{pow-suc}
use shimakaze.Common.Bits.{
  bit_xor-lt, xor_assoc, xor_self, xor-half, xor-parity, xor-zero, zero-xor, xor_medial,
}
use shimakaze.Fec.Field.{double, mul_loop, gf_mul}

-- A test of all numbers below a bound, by evaluation.
unfoldable pub all_below : (ℕ → Bool) → ℕ → Bool
all_below f zero = true
all_below f (suc n) = f n && all_below f n

pub all_below→at : (f : ℕ → Bool) (n i : ℕ) → all_below f n ≡ true → i < n → f i ≡ true
unfolding all_below
all_below→at f zero i h p = absurd (omega arith)
all_below→at f (suc n) i h p = ground (arith, all_below→at f n i)

double-xor_checked :
    all_below (λ a. all_below (λ b. double (bit_xor a b) == bit_xor (double a) (double b)) 256) 256
    ≡ true
unfolding all_below double
double-xor_checked = refl

double-xor : (a b : ℕ) → IsByte a → IsByte b → double (bit_xor a b) ≡ bit_xor (double a) (double b)
double-xor a b ha hb = eq (
    all_below→at (λ b'. double (bit_xor a b') == bit_xor (double a) (double b')) 256 b
      (all_below→at
        (λ a'. all_below (λ b'. double (bit_xor a' b') == bit_xor (double a') (double b')) 256) 256
        a double-xor_checked ha)
      hb)
  where
    eq : {m n : ℕ} → (m == n) ≡ true → m ≡ n
    eq h = ground arith

double-IsByte : (a : ℕ) → IsByte (double a)
unfolding double
double-IsByte a = ground (arith, bit_xor-lt 8 (a * 2 % 256) 0x1d (omega arith) (omega arith))

-- The product without the accumulator and without the early end.
abbrev when_odd : ℕ → ℕ → ℕ
when_odd b a = if b % 2 == 1 then a else 0

unfoldable pub times : ℕ → ℕ → ℕ → ℕ
times zero a b = 0
times (suc n) a b = bit_xor (when_odd b a) (times n (double a) (b / 2))

when_odd-lt : (a b : ℕ) → IsByte a → IsByte (when_odd b a)
when_odd-lt a b h = ground arith

times-IsByte : (n a b : ℕ) → IsByte a → IsByte (times n a b)
unfolding times
times-IsByte zero a b h = omega arith
times-IsByte (suc n) a b h =
    bit_xor-lt 8 (when_odd b a) (times n (double a) (b / 2)) (when_odd-lt a b h)
      (times-IsByte n (double a) (b / 2) (double-IsByte a))

times-zero : (n a : ℕ) → times n a 0 ≡ 0
unfolding times
times-zero zero a = refl
times-zero (suc n) a = zero-xor (times n (double a) 0) ∙ times-zero n (double a)

mul_loop-times : (n result a b : ℕ) → mul_loop n result a b ≡ bit_xor result (times n a b)
unfolding mul_loop times
mul_loop-times zero result a b = sym (xor-zero result)
mul_loop-times (suc n) result a b = elim (Bool-cases (b == 0)) [
  | inl none_left ↦
      rw none_left (sym (xor-zero result) ∙ ap (bit_xor result) (sym (none a b (ground arith))))
  | inr more ↦ rw more (
      mul_loop-times n _ (double a) (b / 2)
      ∙ ap (λ t. bit_xor t (times n (double a) (b / 2))) (added (b % 2 == 1))
      ∙ xor_assoc result (when_odd b a) (times n (double a) (b / 2)))
]
  where
    none : (x y : ℕ) → y ≡ 0 → bit_xor (when_odd y x) (times n (double x) (y / 2)) ≡ 0
    none x y e = ap (times (suc n) x) e ∙ times-zero (suc n) x

    added :
        (odd : Bool)
        → (if odd then bit_xor result a else result) ≡ bit_xor result (if odd then a else 0)
    added true = refl
    added false = sym (xor-zero result)

gf_mul-times : (a b : ℕ) → gf_mul a b ≡ times 8 a b
unfolding gf_mul
gf_mul-times a b = mul_loop-times 8 0 a b ∙ zero-xor (times 8 a b)

-- Linear in the second number,
when_odd-xor : (a b c : ℕ) → when_odd (bit_xor b c) a ≡ bit_xor (when_odd b a) (when_odd c a)
when_odd-xor a b c = ground (arith, xor-parity b c, xor_self a, xor-zero a, zero-xor a, xor_self 0)

times-xor : (n a b c : ℕ) → times n a (bit_xor b c) ≡ bit_xor (times n a b) (times n a c)
unfolding times
times-xor zero a b c = sym (xor_self 0)
times-xor (suc n) a b c =
    ap₂ bit_xor (when_odd-xor a b c)
      (ap (times n (double a)) (xor-half b c) ∙ times-xor n (double a) (b / 2) (c / 2))
    ∙ xor_medial (when_odd b a) (when_odd c a) (times n (double a) (b / 2))
        (times n (double a) (c / 2))

-- and in the first.
xor-times :
    (n a b c : ℕ)
    → IsByte a
    → IsByte b
    → times n (bit_xor a b) c ≡ bit_xor (times n a c) (times n b c)
unfolding times
xor-times zero a b c ha hb = sym (xor_self 0)
xor-times (suc n) a b c ha hb =
    ap₂ bit_xor odd (
      ap (λ t. times n t (c / 2)) (double-xor a b ha hb)
      ∙ xor-times n (double a) (double b) (c / 2) (double-IsByte a) (double-IsByte b))
    ∙ xor_medial (when_odd c a) (when_odd c b) (times n (double a) (c / 2))
        (times n (double b) (c / 2))
  where
    odd : when_odd c (bit_xor a b) ≡ bit_xor (when_odd c a) (when_odd c b)
    odd = ground (arith, xor_self 0)

-- Doubling a number doubles the product.
double-when_odd : (a b : ℕ) → double (when_odd b a) ≡ when_odd b (double a)
unfolding double
double-when_odd a b = ground arith

times-double : (n a b : ℕ) → IsByte a → times n (double a) b ≡ double (times n a b)
unfolding times
times-double zero a b h = unfold double in refl
times-double (suc n) a b h =
    ap₂ bit_xor (sym (double-when_odd a b)) (times-double n (double a) (b / 2) (double-IsByte a))
    ∙ sym (
        double-xor (when_odd b a) (times n (double a) (b / 2)) (when_odd-lt a b h)
          (times-IsByte n (double a) (b / 2) (double-IsByte a)))

-- The digits of a byte: its parity, and its half doubled.
double-half : (b : ℕ) → IsByte b → bit_xor (b % 2) (double (b / 2)) ≡ b
double-half b h = all_below→eq b h
  where
    checked : all_below (λ i. bit_xor (i % 2) (double (i / 2)) == i) 256 ≡ true
    checked = unfold all_below in unfold double in refl

    all_below→eq : (i : ℕ) → i < 256 → bit_xor (i % 2) (double (i / 2)) ≡ i
    all_below→eq i p =
        let e : (bit_xor (i % 2) (double (i / 2)) == i) ≡ true =
          all_below→at (λ j. bit_xor (j % 2) (double (j / 2)) == j) 256 i checked p in
        ground arith

zero-times : (n b : ℕ) → times n 0 b ≡ 0
unfolding times double
zero-times zero b = refl
zero-times (suc n) b =
    ap₂ bit_xor {x = when_odd b 0} {y = 0} (ground arith) (zero-times n (b / 2)) ∙ xor_self 0

times-parity : (a b : ℕ) → IsByte a → times 8 (b % 2) a ≡ when_odd b a
times-parity a b h = elim (Bool-cases (b % 2 == 1)) [
  | inl odd ↦ rw odd (ap (λ t. times 8 t a) {x = b % 2} {y = 1} (ground arith) ∙ one a h)
  | inr even ↦ rw even (ap (λ t. times 8 t a) {x = b % 2} {y = 0} (ground arith) ∙ zero-times 8 a)
]
  where
    checked : all_below (λ i. times 8 1 i == i) 256 ≡ true
    checked = unfold all_below in unfold times in unfold double in refl

    one : (i : ℕ) → i < 256 → times 8 1 i ≡ i
    one i p =
        let e : (times 8 1 i == i) ≡ true = all_below→at (λ j. times 8 1 j == j) 256 i checked p in
        ground arith

-- The same laws of `gf_mul`.
pub gf_mul-IsByte : (a b : ℕ) → IsByte a → IsByte (gf_mul a b)
gf_mul-IsByte a b h = subst IsByte (sym (gf_mul-times a b)) (times-IsByte 8 a b h)

pub gf_mul-xor : (a b c : ℕ) → gf_mul a (bit_xor b c) ≡ bit_xor (gf_mul a b) (gf_mul a c)
gf_mul-xor a b c =
    gf_mul-times a (bit_xor b c)
    ∙ times-xor 8 a b c
    ∙ ap₂ bit_xor (sym (gf_mul-times a b)) (sym (gf_mul-times a c))

pub xor-gf_mul :
    (a b c : ℕ) → IsByte a → IsByte b → gf_mul (bit_xor a b) c ≡ bit_xor (gf_mul a c) (gf_mul b c)
xor-gf_mul a b c ha hb =
    gf_mul-times (bit_xor a b) c
    ∙ xor-times 8 a b c ha hb
    ∙ ap₂ bit_xor (sym (gf_mul-times a c)) (sym (gf_mul-times b c))

gf_mul-double : (a b : ℕ) → IsByte a → gf_mul (double a) b ≡ double (gf_mul a b)
gf_mul-double a b h =
    gf_mul-times (double a) b ∙ times-double 8 a b h ∙ ap double (sym (gf_mul-times a b))

gf_mul-parity : (a b : ℕ) → IsByte a → gf_mul (b % 2) a ≡ when_odd b a
gf_mul-parity a b h = gf_mul-times (b % 2) a ∙ times-parity a b h

pub zero-gf_mul : (a : ℕ) → gf_mul 0 a ≡ 0
zero-gf_mul a = gf_mul-times 0 a ∙ zero-times 8 a

pub gf_mul-zero : (a : ℕ) → gf_mul a 0 ≡ 0
gf_mul-zero a = gf_mul-times a 0 ∙ times-zero 8 a

pub one-gf_mul : (a : ℕ) → IsByte a → gf_mul 1 a ≡ a
one-gf_mul a h = gf_mul-parity a 1 h

times_comm : (n a b : ℕ) → IsByte a → IsByte b → b < 2 ^ n → times n a b ≡ gf_mul b a
unfolding times
times_comm zero a b ha hb small =
    sym (ap (λ t. gf_mul t a) {x = b} {y = 0} (omega arith) ∙ zero-gf_mul a)
times_comm (suc n) a b ha hb small =
    ap (bit_xor (when_odd b a)) (
      times-double n a (b / 2) ha
      ∙ ap double (times_comm n a (b / 2) ha (omega arith) (omega (arith, pow-suc 2 n)))
      ∙ sym (gf_mul-double (b / 2) a (omega arith)))
    ∙ ap (λ t. bit_xor t (gf_mul (double (b / 2)) a)) (sym (gf_mul-parity a b ha))
    ∙ sym (xor-gf_mul (b % 2) (double (b / 2)) a (omega arith) (double-IsByte (b / 2)))
    ∙ ap (λ t. gf_mul t a) (double-half b hb)

pub gf_mul_comm : (a b : ℕ) → IsByte a → IsByte b → gf_mul a b ≡ gf_mul b a
gf_mul_comm a b ha hb = gf_mul-times a b ∙ times_comm 8 a b ha hb (omega arith)

gf_mul_move : (a b : ℕ) → IsByte a → IsByte b → gf_mul a (double b) ≡ gf_mul (double a) b
gf_mul_move a b ha hb =
    gf_mul_comm a (double b) ha (double-IsByte b)
    ∙ gf_mul-double b a hb
    ∙ ap double (gf_mul_comm b a hb ha)
    ∙ sym (gf_mul-double a b ha)

gf_mul-when_odd : (a b c : ℕ) → gf_mul a (when_odd c b) ≡ when_odd c (gf_mul a b)
gf_mul-when_odd a b c = ground (arith, gf_mul-zero a)

times_assoc : (n a b c : ℕ) → IsByte a → IsByte b → times n (gf_mul a b) c ≡ gf_mul a (times n b c)
unfolding times
times_assoc zero a b c ha hb = sym (gf_mul-zero a)
times_assoc (suc n) a b c ha hb =
    ap₂ bit_xor (sym (gf_mul-when_odd a b c)) (
      ap (λ t. times n t (c / 2)) (sym (gf_mul-double a b ha))
      ∙ times_assoc n (double a) b (c / 2) (double-IsByte a) hb
      ∙ sym (gf_mul_move a (times n b (c / 2)) ha (times-IsByte n b (c / 2) hb))
      ∙ ap (gf_mul a) (sym (times-double n b (c / 2) hb)))
    ∙ sym (gf_mul-xor a (when_odd c b) (times n (double b) (c / 2)))

pub gf_mul_assoc : (a b c : ℕ) → IsByte a → IsByte b → gf_mul (gf_mul a b) c ≡ gf_mul a (gf_mul b c)
gf_mul_assoc a b c ha hb =
    gf_mul-times (gf_mul a b) c ∙ times_assoc 8 a b c ha hb ∙ ap (gf_mul a) (sym (gf_mul-times b c))
