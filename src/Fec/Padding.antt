-- ===== src/Fec/Padding.antt =====
-- A data shard through the padding of its group.
use native.Mathlib.Nat.{mod-eq_of_lt}
use shimakaze.Common.{
  ℕ, zero, suc, ◌+◌, ◌-◌, ◌%◌, ◌^◌, ◌<◌, ◌≤◌, ltb, leb, not, ◌&&◌, Bool, true, false, if◌then◌else◌,
  List, [], ◌∷◌, ◌++◌, length, take, drop, replicate, ◌≡◌, refl, ap, ◌∙◌, arith, length-append,
  take-append_length, append_assoc,
}
use shimakaze.Wire.Codec.{write_le16, write_le32}
use shimakaze.Wire.RoundTrip.{read_le16-write_le16}
use shimakaze.Fec.Matrix.{Matrix}
use shimakaze.Fec.Codec.{FecCodec, fec_header_size, resize, seal_packet, encode}
use shimakaze.Fec.Decoder.{recovered_packet}

take_all {ℓ} : {A : Type ℓ} (n : ℕ) (xs : List A) → length xs ≤ n → take n xs ≡ xs
take_all zero [] h = refl
take_all zero (x ∷ xs) h = absurd (omega arith)
take_all (suc n) [] h = refl
take_all (suc n) (x ∷ xs) h = ap (◌∷◌ x) (take_all n xs (omega arith))

-- A shard whose size field names the bytes behind it, with any bytes after those.
recovered_packet-behind :
    (p rest : List ℕ)
    → length p + 2 < 2 ^ 16
    → recovered_packet (write_le16 (length p + 2) ++ (p ++ rest)) ≡ p ∷ []
unfolding recovered_packet
recovered_packet-behind p rest fits =
    ap
      (λ size.
        if not (ltb (length shard) 2) && (leb 2 size && leb size (length shard))
        then take (size - 2) (drop 2 shard) ∷ []
        else [])
      (read_le16-write_le16 (length p + 2) (p ++ rest) fits)
    ∙ ap (λ b. if b then take (length p + 2 - 2) (drop 2 shard) ∷ [] else []) tests
    ∙ ap (λ q. q ∷ [])
        (ap (λ n. take n (drop 2 shard)) {x = length p + 2 - 2} {y = length p} (omega arith)
          ∙ taken)
  where
    shard : List ℕ
    shard = write_le16 (length p + 2) ++ (p ++ rest)

    long : length shard ≡ 2 + length p + length rest
    long = unfold write_le16 in omega (arith, length-append p rest)

    tests :
        (not (ltb (length shard) 2) && (leb 2 (length p + 2) && leb (length p + 2) (length shard)))
        ≡ true
    tests = ground (arith, long)

    taken : take (length p) (drop 2 shard) ≡ p
    taken = unfold write_le16 in take-append_length p rest refl

recovered_packet-resize :
    (p : List ℕ) (len : ℕ)
    → length p + 2 < 2 ^ 16
    → length p + 2 ≤ len
    → recovered_packet (resize len (write_le16 ((length p + 2) % 2 ^ 16) ++ p)) ≡ p ∷ []
recovered_packet-resize p len fits holds =
    ap (λ size. recovered_packet (resize len (write_le16 size ++ p))) (mod-eq_of_lt fits)
    ∙ ap recovered_packet (
        ap (λ q. q ++ padding) (take_all len shard (omega (arith, long, holds)))
        ∙ append_assoc (write_le16 (length p + 2)) p padding)
    ∙ recovered_packet-behind p padding fits
  where
    shard : List ℕ
    shard = write_le16 (length p + 2) ++ p

    padding : List ℕ
    padding = replicate (len - length shard) 0

    long : length shard ≡ 2 + length p
    long = unfold write_le16 in omega arith

-- The shard of the first packet, padded with zeros to `len` bytes and recovered, is `p`.
unfoldable pub Recovers : ℕ → List ℕ → Matrix → Type 0
Recovers len p [] = ⊥
Recovers len p (first ∷ parity) =
    recovered_packet (resize len (drop fec_header_size first)) ≡ p ∷ []

-- `encode` on an enabled codec, for a KCP packet whose size fits its two bytes: take the shard that stands in the
-- first packet it gives, behind the header, and pad it with zeros to any length that holds it. What `decode` takes
-- out of such a shard when it is recovered is the KCP packet.
pub recovered_packet-encode :
    (now len : ℕ) (p : List ℕ) (s : FecCodec)
    → s.enabled ≡ true
    → length p + 2 < 2 ^ 16
    → length p + 2 ≤ len
    → Recovers len p (encode now p s).0
unfolding encode seal_packet Recovers write_le16 write_le32
recovered_packet-encode now len p s working fits holds = go s.enabled working
  where
    go : (b : Bool) → b ≡ true → Recovers len p (encode now p (record s { enabled = b })).0
    go true e = recovered_packet-resize p len fits holds
    go false e = absurd (ground arith)
