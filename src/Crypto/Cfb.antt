-- ===== src/Crypto/Cfb.antt =====
-- The transformations undo themselves, for every block function and every mask.
use mathlib.Core.Option
use native.Mathlib.Decide.{dec_lt}
use shimakaze.Common.{
  ℕ, zero, suc, ◌≤◌, ◌<◌, ◌≡◌, refl, ap, ap₂, ◌∙◌, Bool, true, false, ◌==◌, if◌then◌else◌, List, [],
  ◌∷◌, ◌++◌, some, length, take, drop, min, arith, length-append, length-take, length-drop,
  take-append-drop, take-append_length, drop-append_length, sym, append-nil,
}
use shimakaze.Common.Bits.{xor_cancel}
use shimakaze.Crypto.Cipher.{initial_vector, block_cfb_crypt, Block, xor_with, cfb_loop}

pub xor_with_cancel : (ds ms : List ℕ) → xor_with (xor_with ds ms) ms ≡ ds
unfolding xor_with
xor_with_cancel [] ms = refl
xor_with_cancel (d ∷ ds) [] = refl
xor_with_cancel (d ∷ ds) (m ∷ ms) = ap₂ ◌∷◌ (xor_cancel d m) (xor_with_cancel ds ms)

pub length-xor_with : (ds ms : List ℕ) → length (xor_with ds ms) ≡ length ds
unfolding xor_with
length-xor_with [] ms = refl
length-xor_with (d ∷ ds) [] = refl
length-xor_with (d ∷ ds) (m ∷ ms) = ap suc (length-xor_with ds ms)

-- One round on a buffer that is not empty, with `head` and `rest` its first block and what follows.
cfb_loop-suc :
    (b : Block) (e : Bool) (f : ℕ) (current data' head rest : List ℕ)
    → 0 < length data'
    → take (min b.block_size (length data')) data' ≡ head
    → drop (min b.block_size (length data')) data' ≡ rest
    → cfb_loop b e (suc f) current data' ≡ (
        if min b.block_size (length data') == b.block_size
        then Option.map
            (λ r. xor_with head current ++ r)
            (cfb_loop b e f (b.process (if e then xor_with head current else head)) rest)
        else some (xor_with head current))
unfolding cfb_loop
cfb_loop-suc b e f current [] head rest h p q = absurd (omega arith)
cfb_loop-suc b e f current (d ∷ ds) head rest h p q = rw (p, q)

-- Encrypting returns a buffer of the same length, and decrypting that one returns the first.
pub record Inverts (b : Block) (fuel : ℕ) (current data' : List ℕ) : Type 0 where
  pub cipher : List ℕ
  pub encrypted : cfb_loop b true fuel current data' ≡ some cipher
  pub same_length : length cipher ≡ length data'
  pub decrypted : cfb_loop b false fuel current cipher ≡ some data'

module _ (b : Block) (f : ℕ) (current data' : List ℕ) (more : 0 < length data') where
  abbrev bs : ℕ
  bs = b.block_size

  abbrev out : List ℕ
  out = xor_with (take (min bs (length data')) data') current

  length-out : length out ≡ min bs (length data')
  length-out =
      length-xor_with (take (min bs (length data')) data') current
      ∙ length-take (min bs (length data')) data'
      ∙ omega arith

  -- The last block, which is shorter than a full one.
  short-Inverts : length data' < bs → Inverts b (suc f) current data'
  short-Inverts short = record {
    cipher = out;
    encrypted = cfb_loop-suc b true f current data' _ _ more refl refl ∙ ground arith;
    same_length = omega (arith, length-out);
    decrypted =
        cfb_loop-suc b false f current out out [] (omega (arith, length-out)) whole_take whole_drop
        ∙ ground (arith, length-out, restored);
  }
    where
      whole_take : take (min bs (length out)) out ≡ out
      whole_take =
          ap (take (min bs (length out))) (sym (append-nil out))
          ∙ take-append_length out [] (omega (arith, length-out))

      whole_drop : drop (min bs (length out)) out ≡ []
      whole_drop =
          ap (drop (min bs (length out))) (sym (append-nil out))
          ∙ drop-append_length out [] (omega (arith, length-out))

      all_taken : take (min bs (length data')) data' ≡ data'
      all_taken =
          ap (take (min bs (length data'))) (sym (append-nil data'))
          ∙ take-append_length data' [] (omega arith)

      restored : xor_with out current ≡ data'
      restored = xor_with_cancel (take (min bs (length data')) data') current ∙ all_taken

  -- A full block, and then the rest under the block that was just written.
  full-Inverts :
      bs ≤ length data'
      → Inverts b f (b.process out) (drop (min bs (length data')) data')
      → Inverts b (suc f) current data'
  full-Inverts full rest = record {
    cipher = out ++ rest.cipher;
    encrypted =
        cfb_loop-suc b true f current data' _ _ more refl refl ∙ ground (arith, rest.encrypted);
    same_length = omega (
      arith,
      length-append out rest.cipher,
      length-out,
      rest.same_length,
      length-drop (min bs (length data')) data',
    );
    decrypted =
        cfb_loop-suc b false f current (out ++ rest.cipher) out rest.cipher
          (omega (arith, long, length-append out rest.cipher, length-out))
          (take-append_length out rest.cipher (omega (arith, long, length-out)))
          (drop-append_length out rest.cipher (omega (arith, long, length-out)))
        ∙ ground (arith, long, rest.decrypted, restored);
  }
    where
      long : length (out ++ rest.cipher) ≡ length data'
      long = omega (
        arith,
        length-append out rest.cipher,
        length-out,
        rest.same_length,
        length-drop (min bs (length data')) data',
      )

      restored : xor_with out current ++ drop (min bs (length data')) data' ≡ data'
      restored =
          ap (λ t. t ++ drop (min bs (length data')) data')
            (xor_with_cancel (take (min bs (length data')) data') current)
          ∙ take-append-drop (min bs (length data')) data'

pub cfb_loop-Inverts :
    (b : Block) (fuel : ℕ) (current data' : List ℕ)
    → 0 < b.block_size
    → length data' ≤ fuel
    → Inverts b fuel current data'
cfb_loop-Inverts b zero current [] pos h = record {
  cipher = [];
  encrypted = e;
  same_length = refl;
  decrypted = d;
}
  where
    e : cfb_loop b true 0 current [] ≡ some []
    e = unfold cfb_loop in refl

    d : cfb_loop b false 0 current [] ≡ some []
    d = unfold cfb_loop in refl
cfb_loop-Inverts b zero current (x ∷ xs) pos h = absurd (omega arith)
cfb_loop-Inverts b (suc fuel) current [] pos h = record {
  cipher = [];
  encrypted = e;
  same_length = refl;
  decrypted = d;
}
  where
    e : cfb_loop b true (suc fuel) current [] ≡ some []
    e = unfold cfb_loop in refl

    d : cfb_loop b false (suc fuel) current [] ≡ some []
    d = unfold cfb_loop in refl
cfb_loop-Inverts b (suc fuel) current (x ∷ xs) pos h =
    elim (dec_lt (length (x ∷ xs)) b.block_size) [
      | yes short ↦ short-Inverts b fuel current (x ∷ xs) (omega arith) short
      | no long ↦ full-Inverts b fuel current (x ∷ xs) (omega arith) (omega arith) (
          cfb_loop-Inverts b fuel _ _ pos
            (omega (arith, length-drop (min b.block_size (length (x ∷ xs))) (x ∷ xs))))
    ]

-- `block_cfb_crypt` in both directions, with the fuel that it gives itself.
pub block_cfb_crypt_undo :
    (b : Block) (bytes : List ℕ)
    → 0 < b.block_size
    → (cipher : List ℕ) × (block_cfb_crypt (some b) true bytes ≡ some cipher)
      × (length cipher ≡ length bytes)
      × (block_cfb_crypt (some b) false cipher ≡ some bytes)
unfolding block_cfb_crypt
block_cfb_crypt_undo b bytes pos = (
  inv.cipher,
  inv.encrypted,
  inv.same_length,
  ap (λ n. cfb_loop b false n (b.process initial_vector) inv.cipher) inv.same_length
      ∙ inv.decrypted,
)
  where
    inv : Inverts b (length bytes) (b.process initial_vector) bytes
    inv = cfb_loop-Inverts b (length bytes) (b.process initial_vector) bytes pos (omega arith)
