-- ===== src/Fec/Field.antt =====
-- The arithmetic of GF(256) in fec.cpp: `gf_mul`, `gf_pow`, `gf_inv`.
use shimakaze.Common.{ℕ, zero, suc, ◌*◌, ◌/◌, ◌%◌, ◌==◌, if◌then◌else◌, bit_xor, Option, none, some}

-- `a` doubled: shifted within its 8 bits, and reduced by the polynomial where a bit went out.
unfoldable pub double : ℕ → ℕ
double a = if a / 128 % 2 == 1 then bit_xor (a * 2 % 256) 0x1d else a * 2 % 256

-- The loop of `gf_mul`, with fuel for its rounds.
unfoldable pub mul_loop : ℕ → ℕ → ℕ → ℕ → ℕ
unfolding double
mul_loop zero result a b = result
mul_loop (suc fuel) result a b =
    let rest = mul_loop fuel (if b % 2 == 1 then bit_xor result a else result) (double a) (b / 2) in
    if b == 0 then result else rest

-- `b` has 8 bits, and each round takes one.
unfoldable pub gf_mul : ℕ → ℕ → ℕ
unfolding mul_loop
gf_mul a b = mul_loop 8 0 a b

unfoldable pub gf_pow : ℕ → ℕ → ℕ
unfolding gf_mul
gf_pow value zero = 1
gf_pow value (suc power) = gf_mul (gf_pow value power) value

-- `none` is the exception.
unfoldable pub gf_inv : ℕ → Option ℕ
unfolding gf_pow
gf_inv value = if value == 0 then none else some (gf_pow value 254)
