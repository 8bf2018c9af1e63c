-- ===== src/Fec/Construction.antt =====
-- The constructor of `FecCodec` starts the invariant of `encode`.
use native.Mathlib.Nat.{div-mul-le_self, le-div_iff_mul-le}
use mathlib.Core.Option.{some-injective, none-ne-some}
use shimakaze.Common.{
  ℕ, zero, suc, ◌+◌, ◌^◌, ◌/◌, ◌<◌, ◌≤◌, Bool, true, false, if◌then◌else◌, [], replicate, Option,
  none, some, length, ◌≡◌, ◌≢◌, refl, ap, sym, arith, subst,
}
use shimakaze.Common.Int.{ℤ, pos, negsuc, at_least_zero, above-wrap_int}
use shimakaze.Config.Base.{BaseConfig}
use shimakaze.Fec.Matrix.{Matrix, build_rs_matrix}
use shimakaze.Fec.ReedSolomon.{ReedSolomon, make_reed_solomon}
use shimakaze.Fec.Codec.{
  FecCodec, is_enabled, fresh, with_reed_solomon, no_reed_solomon, make_codec,
}
use shimakaze.Fec.Grouping.{IsCodec}

make_reed_solomon-counts :
    (d p : ℕ) (rs : ReedSolomon) → make_reed_solomon d p ≡ some rs → rs.parity_shards ≡ p
unfolding make_reed_solomon
make_reed_solomon-counts d p rs e = go (build_rs_matrix d (d + p)) e
  where
    go :
        (o : Option Matrix)
        → (elim o as (λ t. Option ReedSolomon) [
          | none ↦ none
          | some m ↦ some (record { data_shards = d; parity_shards = p; matrix = m })
        ])
          ≡ some rs
        → rs.parity_shards ≡ p
    go none e = absurd (none-ne-some rs e)
    go (some m) e = sym (ap (λ r. r.parity_shards) (some-injective _ _ e))

is_enabled-counts :
    (a b : ℤ)
    → is_enabled a b ≡ true
    → at_least_zero a + at_least_zero b < 2 ^ 31
    → (0 < at_least_zero a) × (0 < at_least_zero b) × (at_least_zero a + at_least_zero b ≤ 256)
unfolding is_enabled
is_enabled-counts (pos a) (pos b) h small =
    (ground (arith, h), ground (arith, h), ground (arith, h, above-wrap_int (a + b) 256, small))
is_enabled-counts (pos a) (negsuc b) h small = absurd (ground (arith, h))
is_enabled-counts (negsuc a) b h small = absurd (ground (arith, h))

length-replicate {ℓ} : {A : Type ℓ} (n : ℕ) (x : A) → length (replicate n x) ≡ n
length-replicate zero x = refl
length-replicate (suc n) x = ap suc (length-replicate n x)

fresh-IsCodec :
    (d p : ℕ) (rs : ReedSolomon)
    → 0 < d
    → 0 < p
    → d + p ≤ 256
    → rs.parity_shards ≡ p
    → IsCodec (fresh d p true rs)
fresh-IsCodec d p rs hd hp small e = record {
  working = refl;
  size = refl;
  some_data = hd;
  some_parity = hp;
  place = record {
    group = 0;
    groups = 0xffff_ffff / (d + p);
    numbered = omega arith;
    bounded = refl;
    inside =
        (le-div_iff_mul-le {k = d + p} {x = 1} {y = 0xffff_ffff} (omega arith)).1 (omega arith);
    narrow = omega (arith, div-mul-le_self 0xffff_ffff (d + p));
  };
  filling = hd;
  held = length-replicate d [];
  generated = e;
}

-- A codec that the constructor makes with forward error correction on, with counts whose sum `int` holds, is filling its first group: the
-- invariant `IsCodec` holds, so its numbers lie below `paws_`, a whole number of groups.
pub make_codec-IsCodec :
    (config : BaseConfig) (s : FecCodec)
    → make_codec config ≡ some s
    → s.enabled ≡ true
    → at_least_zero config.datashard + at_least_zero config.parityshard < 2 ^ 31
    → IsCodec s
unfolding make_codec
make_codec-IsCodec config s e working small =
    go (is_enabled config.datashard config.parityshard) refl (make_reed_solomon d p) refl e
  where
    d : ℕ
    d = at_least_zero config.datashard

    p : ℕ
    p = at_least_zero config.parityshard

    go :
        (b : Bool)
        → is_enabled config.datashard config.parityshard ≡ b
        → (o : Option ReedSolomon) → make_reed_solomon d p ≡ o
        → (if b then with_reed_solomon d p o else some (fresh d p false no_reed_solomon)) ≡ some s
        → IsCodec s
    go false h o made e = absurd (off (ap (λ t. t.enabled) (some-injective _ _ e)))
      where
        off : false ≢ s.enabled
        off q = ground (arith, q, working)
    go true h none made e = absurd (none-ne-some s e)
    go true h (some rs) made e =
        let counts = is_enabled-counts config.datashard config.parityshard h small in
        subst IsCodec (some-injective _ _ e)
          (fresh-IsCodec d p rs counts.0 counts.1 counts.2 (make_reed_solomon-counts d p rs made))
