-- ===== src/Fec/Inverse.antt =====
-- `gf_inv` inverts every byte but zero.
use shimakaze.Common.{
  ℕ, zero, suc, ◌+◌, ◌<◌, ◌==◌, ◌||◌, true, ◌≡◌, refl, ap, ap₂, ◌∙◌, sym, arith, IsByte, some,
}
use shimakaze.Fec.Field.{double, mul_loop, gf_mul, gf_pow, gf_inv}
use shimakaze.Fec.Laws.{
  all_below, all_below→at, gf_mul-IsByte, gf_mul_assoc, gf_mul_comm, one-gf_mul,
}

pub gf_pow-IsByte : (a n : ℕ) → IsByte a → IsByte (gf_pow a n)
unfolding gf_pow
gf_pow-IsByte a zero h = omega arith
gf_pow-IsByte a (suc n) h = gf_mul-IsByte (gf_pow a n) a (gf_pow-IsByte a n h)

-- Powers add.
gf_pow-add : (a m n : ℕ) → IsByte a → gf_mul (gf_pow a m) (gf_pow a n) ≡ gf_pow a (n + m)
unfolding gf_pow
gf_pow-add a m zero h =
    gf_mul_comm (gf_pow a m) 1 (gf_pow-IsByte a m h) (omega arith)
    ∙ one-gf_mul (gf_pow a m) (gf_pow-IsByte a m h)
    ∙ ap (gf_pow a) {x = m} {y = 0 + m} (omega arith)
gf_pow-add a m (suc n) h =
    sym (gf_mul_assoc (gf_pow a m) (gf_pow a n) a (gf_pow-IsByte a m h) (gf_pow-IsByte a n h))
    ∙ ap (λ t. gf_mul t a) (gf_pow-add a m n h)
    ∙ ap (gf_pow a) {x = suc (n + m)} {y = suc n + m} (omega arith)

-- The powers 1, 3, 7, 15, ... by squaring, for the table below.
unfoldable chain : ℕ → ℕ → ℕ
chain a zero = a
chain a (suc k) = let x = chain a k in gf_mul (gf_mul x x) a

chain-gf_pow :
    (a k m : ℕ) → IsByte a → chain a k ≡ gf_pow a m → chain a (suc k) ≡ gf_pow a (suc (m + m))
unfolding chain gf_pow
chain-gf_pow a k m h e =
    ap (λ x. gf_mul (gf_mul x x) a) e ∙ ap (λ t. gf_mul t a) (gf_pow-add a m m h)

chain-six : (a : ℕ) → IsByte a → chain a 6 ≡ gf_pow a 127
unfolding chain
chain-six a h = chain-gf_pow a 5 63 h (
    chain-gf_pow a 4 31 h (
      chain-gf_pow a 3 15 h
        (chain-gf_pow a 2 7 h (chain-gf_pow a 1 3 h (chain-gf_pow a 0 1 h first)))))
  where
    first : a ≡ gf_pow a 1
    first = sym (unfold gf_pow in one-gf_mul a h)

inverse_checked :
    all_below (λ a. (a == 0) || (gf_mul a (gf_mul (chain a 6) (chain a 6)) == 1)) 256 ≡ true
unfolding all_below chain gf_mul mul_loop double
inverse_checked = refl

gf_mul-gf_pow : (a : ℕ) → IsByte a → 0 < a → gf_mul a (gf_pow a 254) ≡ 1
gf_mul-gf_pow a h pos =
    ap (gf_mul a) (sym (ap₂ gf_mul (chain-six a h) (chain-six a h) ∙ gf_pow-add a 127 127 h))
    ∙ table
  where
    row : ((a == 0) || (gf_mul a (gf_mul (chain a 6) (chain a 6)) == 1)) ≡ true
    row =
        all_below→at (λ b. (b == 0) || (gf_mul b (gf_mul (chain b 6) (chain b 6)) == 1)) 256 a
          inverse_checked h

    table : gf_mul a (gf_mul (chain a 6) (chain a 6)) ≡ 1
    table = ground (arith, row)

-- Every byte but zero has an inverse, a byte again, and `gf_inv` finds it.
pub gf_inv-gf_mul :
    (a : ℕ) → IsByte a → 0 < a → (b : ℕ) × (gf_inv a ≡ some b) × IsByte b × (gf_mul a b ≡ 1)
unfolding gf_inv
gf_inv-gf_mul a h pos = (gf_pow a 254, ground arith, gf_pow-IsByte a 254 h, gf_mul-gf_pow a h pos)
