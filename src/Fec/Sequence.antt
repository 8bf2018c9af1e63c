-- ===== src/Fec/Sequence.antt =====
-- The sequence numbers of FEC packets: groups of `size` numbers below `paws`.
use native.Mathlib.Nat.{mod-eq_of_lt, mod_self, mul-le-mul_right, mul-add-mod_self_right}
use native.Mathlib.Nat.{lt_of_mul-lt-mul_right}
use native.Mathlib.Decide.{dec_lt}
use shimakaze.Common.{
  ℕ, suc, ◌+◌, ◌*◌, ◌%◌, ◌^◌, ◌<◌, ◌≤◌, List, [], ◌∷◌, ◌++◌, length, drop, ◌≡◌, refl, ap, ◌∙◌,
  arith, subst,
}
use shimakaze.Wire.Codec.{write_le16, write_le32, read_le16, read_le32}
use shimakaze.Wire.RoundTrip.{read_le16-write_le16, read_le32-write_le32}
use shimakaze.Fec.Matrix.{Matrix}
use shimakaze.Fec.Codec.{FecCodec, fec_type_parity, seal_packet, seal_all}

-- `next` is the number of place `c` in a group, and the group lies below `paws`.
pub record IsAt (size paws next c : ℕ) : Type 0 where
  pub group : ℕ
  pub groups : ℕ
  pub numbered : next ≡ group * size + c
  pub bounded : paws ≡ groups * size
  pub inside : group < groups
  pub narrow : paws < 2 ^ 32

module _ {size paws next c : ℕ} (p : IsAt size paws next c) where
  group_end : p.group * size + size ≤ paws
  group_end = omega (
    arith,
    mul-le-mul_right {m = suc p.group} {n = p.groups} size (omega (arith, p.inside)),
    p.bounded,
  )

  pub IsAt-below : c < size → next < paws
  IsAt-below h = omega (arith, p.numbered, group_end)

  pub IsAt-narrow : c < size → next < 2 ^ 32
  IsAt-narrow h = omega (arith, IsAt-below h, p.narrow)

  pub IsAt-place : c < size → next % size ≡ c
  IsAt-place h =
      ap (λ n. n % size) p.numbered ∙ mul-add-mod_self_right p.group size c ∙ mod-eq_of_lt h

  -- `n` numbers on, in the same group.
  pub IsAt-further :
      (n : ℕ)
      → c + n < size
      → ((next + n) % 2 ^ 32 % paws ≡ next + n)
        × IsAt size paws ((next + n) % 2 ^ 32 % paws) (c + n)
  IsAt-further n h = (
    same,
    record {
      group = p.group;
      groups = p.groups;
      numbered = same ∙ omega (arith, p.numbered);
      bounded = p.bounded;
      inside = p.inside;
      narrow = p.narrow;
    },
  )
    where
      below : next + n < paws
      below = omega (arith, p.numbered, group_end)

      same : (next + n) % 2 ^ 32 % paws ≡ next + n
      same =
          ap (λ k. k % paws)
            (mod-eq_of_lt {n = next + n} {m = 2 ^ 32} (omega (arith, below, p.narrow)))
          ∙ mod-eq_of_lt below

  -- `n` numbers on, to the first of a group.
  pub IsAt-next : (n : ℕ) → c + n ≡ size → IsAt size paws ((next + n) % 2 ^ 32 % paws) 0
  IsAt-next n h = elim (dec_lt (next + n) paws) [
    | yes l ↦ record {
      group = suc p.group;
      groups = p.groups;
      numbered =
          ap (λ k. k % paws) (mod-eq_of_lt {n = next + n} {m = 2 ^ 32} (omega (arith, l, p.narrow)))
          ∙ mod-eq_of_lt l
          ∙ omega (arith, p.numbered, h);
      bounded = p.bounded;
      inside = lt_of_mul-lt-mul_right size (omega (arith, l, p.numbered, p.bounded, h));
      narrow = p.narrow;
    }
    | no l ↦ record {
      group = 0;
      groups = p.groups;
      numbered =
          ap (λ k. k % paws)
            (ap (λ k. k % 2 ^ 32) {x = next + n} {y = paws}
                (omega (arith, l, p.numbered, group_end, h))
              ∙ mod-eq_of_lt p.narrow)
          ∙ mod_self paws
          ∙ omega arith;
      bounded = p.bounded;
      inside = omega (arith, p.inside);
      narrow = p.narrow;
    }
  ]

-- Packets of one kind with the numbers from `seq` on.
unfoldable pub Numbered : ℕ → ℕ → Matrix → Type 0
Numbered seq type [] = Unit
Numbered seq type (packet ∷ packets) =
    (read_le32 packet ≡ seq) × (read_le16 (drop 4 packet) ≡ type) × Numbered (suc seq) type packets

-- The header of a sealed packet holds the number and the type.
pub seal_packet-header :
    (body : List ℕ) (type : ℕ) (s : FecCodec)
    → type < 2 ^ 16
    → s.next_seq < 2 ^ 32
    → (read_le32 (seal_packet body type s).0 ≡ s.next_seq)
      × (read_le16 (drop 4 (seal_packet body type s).0) ≡ type)
unfolding seal_packet write_le32
seal_packet-header body type s ht hs = (
  read_le32-write_le32 s.next_seq (write_le16 type ++ body) hs,
  read_le16-write_le16 type body ht,
)

-- Sealing changes the next number only.
pub seal_all-next :
    (shards : Matrix) (s : FecCodec)
    → (seal_all shards s).1 ≡ record s { next_seq = (seal_all shards s).1.next_seq }
unfolding seal_all seal_packet
seal_all-next [] s = refl
seal_all-next (shard ∷ shards) s = seal_all-next shards (seal_packet shard fec_type_parity s).1

pub length-seal_all :
    (shards : Matrix) (s : FecCodec) → length (seal_all shards s).0 ≡ length shards
unfolding seal_all seal_packet
length-seal_all [] s = refl
length-seal_all (shard ∷ shards) s =
    ap suc (length-seal_all shards (seal_packet shard fec_type_parity s).1)

-- The shards that fill a group are numbered one after the other, and the next number starts a group.
pub seal_all-lem :
    (shards : Matrix) (s : FecCodec) (c : ℕ)
    → IsAt s.shard_size s.paws s.next_seq c
    → c + length shards ≡ s.shard_size
    → 0 < length shards
    → Numbered s.next_seq fec_type_parity (seal_all shards s).0
      × IsAt s.shard_size s.paws (seal_all shards s).1.next_seq 0
unfolding seal_all seal_packet Numbered
seal_all-lem [] s c p h pos = absurd (omega arith)
seal_all-lem (shard ∷ []) s c p h pos =
    let header =
      seal_packet-header shard fec_type_parity s (omega arith) (IsAt-narrow p (omega arith)) in
    ((header.0, header.1, tt), IsAt-next p 1 h)
seal_all-lem (shard ∷ (other ∷ rest)) s c p h pos =
    let s' : FecCodec = (seal_packet shard fec_type_parity s).1 in
    let header =
      seal_packet-header shard fec_type_parity s (omega arith) (IsAt-narrow p (omega arith)) in
    let next = IsAt-further p 1 (omega arith) in
    let later = seal_all-lem (other ∷ rest) s' (c + 1) next.1 (omega arith) (omega arith) in
    (
      (
        header.0,
        header.1,
        subst (λ n. Numbered n fec_type_parity (seal_all (other ∷ rest) s').0)
            (next.0 ∙ omega arith) later.0,
      ),
      later.1,
    )
