-- ===== src/Crypto/Methods.antt =====
-- Sealing and opening, method by method.
use native.Mathlib.Decide.{dec_lt}
use shimakaze.Common.{
  ℕ, ◌+◌, ◌-◌, ◌<◌, ◌^◌, ◌≡◌, refl, ap, sym, ◌∙◌, true, false, List, [], ◌++◌, Option, none, some,
  length, take, drop, arith, length-append, take-append_length, drop-append_length, append_assoc,
  take-append-drop, length-take, length-drop, append-nil,
}
use shimakaze.Checksum.{crc32-lt}
use shimakaze.Wire.Codec.{write_le32, read_le32}
use shimakaze.Wire.RoundTrip.{read_le32-write_le32, length-write_le32}
use shimakaze.Crypto.Cipher.{Block, salsa20_crypt, xor_crypt}
use shimakaze.Crypto.Packet.{
  Method, null, plain, block, salsa20, xor_stream, aes_gcm, Library, PacketCrypt, transform,
  encrypt, decrypt, decrypt_header, checked, crc32_ieee, overhead, aes_gcm_encrypt, aes_gcm_decrypt,
}
use shimakaze.Crypto.Cfb.{block_cfb_crypt_undo, xor_with_cancel, length-xor_with}
use shimakaze.Crypto.Constructor.{IsLibrary, Keyed, IsCrypt}

-- The body comes back, at its length.
pub record Restores (lib : Library) (c : PacketCrypt) (bytes : List ℕ) : Type 0 where
  cipher : List ℕ
  sealed : transform lib c true bytes ≡ some cipher
  same_length : length cipher ≡ length bytes
  opened : transform lib c false cipher ≡ some bytes

module _ (lib : Library) (laws : IsLibrary lib) where
  salsa20_crypt_undo :
      (key bytes : List ℕ)
      → (length (salsa20_crypt lib.salsa20 key bytes) ≡ length bytes)
        × (salsa20_crypt lib.salsa20 key (salsa20_crypt lib.salsa20 key bytes) ≡ bytes)
  unfolding salsa20_crypt
  salsa20_crypt_undo key bytes = elim (dec_lt 8 (length bytes)) [
    | no short ↦ ground arith
    | yes long ↦
        let iv : List ℕ = take 8 bytes in
        let body : List ℕ = lib.salsa20 key iv (drop 8 bytes) in
        let size : length iv ≡ 8 = omega (arith, length-take 8 bytes) in
        let total : length (iv ++ body) ≡ length bytes = omega (
          arith,
          length-append iv body,
          laws.length-salsa20 key iv (drop 8 bytes),
          length-drop 8 bytes,
        ) in
        ground (
          arith,
          total,
          take-append_length iv body {n = 8} (omega arith),
          drop-append_length iv body {n = 8} (omega arith),
          laws.salsa20_undo key iv (drop 8 bytes),
          take-append-drop 8 bytes,
        )
  ]

  transform-Restores :
      (m : Method) (o : Option Block) (c : PacketCrypt) (bytes : List ℕ)
      → c.method ≡ m
      → c.block ≡ o
      → Keyed m o
      → Restores lib c bytes
  unfolding transform
  transform-Restores block none c bytes em eo h = absurd h
  transform-Restores block (some b) c bytes em eo h =
      let (cipher, sealed, size, opened) = block_cfb_crypt_undo b bytes h in
      record {
        cipher = cipher;
        sealed = rw (em, eo) sealed;
        same_length = size;
        opened = rw (em, eo) opened;
      }
  transform-Restores plain o c bytes em eo h = record {
    cipher = bytes;
    sealed = rw em;
    same_length = refl;
    opened = rw em;
  }
  transform-Restores null o c bytes em eo h = record {
    cipher = bytes;
    sealed = rw em;
    same_length = refl;
    opened = rw em;
  }
  transform-Restores aes_gcm o c bytes em eo h = record {
    cipher = bytes;
    sealed = rw em;
    same_length = refl;
    opened = rw em;
  }
  transform-Restores salsa20 o c bytes em eo h = record {
    cipher = salsa20_crypt lib.salsa20 c.cipher_key bytes;
    sealed = rw em;
    same_length = (salsa20_crypt_undo c.cipher_key bytes).0;
    opened = rw em (ap some (salsa20_crypt_undo c.cipher_key bytes).1);
  }
  transform-Restores xor_stream o c bytes em eo h = record {
    cipher = xor_crypt c.xor_table bytes;
    sealed = rw em;
    same_length = unfold xor_crypt in length-xor_with bytes c.xor_table;
    opened = rw em (ap some (unfold xor_crypt in xor_with_cancel bytes c.xor_table));
  }

  length-header :
      (nonce packet : List ℕ)
      → length nonce ≡ 16
      → length (nonce ++ (write_le32 (crc32_ieee packet) ++ packet)) ≡ length packet + 20
  length-header nonce packet h = omega (
    arith,
    length-append nonce (write_le32 (crc32_ieee packet) ++ packet),
    length-append (write_le32 (crc32_ieee packet)) packet,
    length-write_le32 (crc32_ieee packet),
  )

  checked-header :
      (nonce packet : List ℕ)
      → length nonce ≡ 16
      → checked lib (nonce ++ (write_le32 (crc32_ieee packet) ++ packet)) ≡ some packet
  unfolding checked
  checked-header nonce packet h =
      let sum : List ℕ = write_le32 (crc32_ieee packet) in
      let payload : drop 20 (nonce ++ (sum ++ packet)) ≡ packet =
        ap (drop 20) (sym (append_assoc nonce sum packet))
        ∙ drop-append_length (nonce ++ sum) packet {n = 20}
            (omega (arith, length-append nonce sum, length-write_le32 (crc32_ieee packet))) in
      let stored : read_le32 (drop 16 (nonce ++ (sum ++ packet))) ≡ crc32_ieee packet =
        ap read_le32 (drop-append_length nonce (sum ++ packet) {n = 16} (omega arith))
        ∙ read_le32-write_le32 (crc32_ieee packet) packet crc_fits in
      rw (payload, stored) (ground arith)
    where
      crc_fits : crc32_ieee packet < 2 ^ 32
      crc_fits = unfold crc32_ieee in crc32-lt 0xedb88320 (omega arith) packet

  -- What one end seals and the other opens.
  abbrev pub Opens : PacketCrypt → List ℕ → List ℕ → Type 0
  Opens c nonce packet =
      (sealed : List ℕ) × (encrypt lib c nonce packet ≡ some sealed)
      × (length sealed ≡ length packet + overhead c)
      × (decrypt lib c sealed ≡ some packet)

  pub header-Opens :
      (c : PacketCrypt) (nonce packet : List ℕ)
      → IsCrypt c
      → length nonce ≡ 16
      → (cipher : List ℕ) × (transform lib c true
            (nonce ++ (write_le32 (crc32_ieee packet) ++ packet))
          ≡ some cipher)
        × (length cipher ≡ length packet + 20)
        × (decrypt_header lib c cipher ≡ some packet)
  unfolding decrypt_header
  header-Opens c nonce packet h size =
      let bytes : List ℕ = nonce ++ (write_le32 (crc32_ieee packet) ++ packet) in
      let r : Restores lib c bytes = transform-Restores c.method c.block c bytes refl refl h in
      let long : length r.cipher ≡ length packet + 20 =
        r.same_length ∙ length-header nonce packet size in
      (r.cipher, r.sealed, long, ground (arith, long, r.opened, checked-header nonce packet size))

  pub gcm-Opens :
      (c : PacketCrypt) (nonce packet : List ℕ)
      → length nonce ≡ 12
      → length packet < 2 ^ 31
      → (sealed : List ℕ) × (aes_gcm_encrypt lib c nonce packet ≡ some sealed)
        × (length sealed ≡ length packet + 28)
        × (aes_gcm_decrypt lib c sealed ≡ some packet)
  unfolding aes_gcm_encrypt aes_gcm_decrypt
  gcm-Opens c nonce packet size fits = (nonce ++ (body ++ tag), ground arith, total, opened)
    where
      body : List ℕ
      body = (lib.gcm_seal c.cipher_key nonce packet).0

      tag : List ℕ
      tag = (lib.gcm_seal c.cipher_key nonce packet).1

      total : length (nonce ++ (body ++ tag)) ≡ length packet + 28
      total = omega (
        arith,
        length-append nonce (body ++ tag),
        length-append body tag,
        laws.length-gcm_body c.cipher_key nonce packet,
        laws.length-gcm_tag c.cipher_key nonce packet,
      )

      rest : drop 12 (nonce ++ (body ++ tag)) ≡ body ++ tag
      rest = drop-append_length nonce (body ++ tag) {n = 12} (omega arith)

      size_left : length (nonce ++ (body ++ tag)) - 12 - 16 ≡ length body
      size_left = omega (arith, total, laws.length-gcm_body c.cipher_key nonce packet)

      tag_only : take 16 tag ≡ tag
      tag_only =
          ap (take 16) (sym (append-nil tag))
          ∙ take-append_length tag [] {n = 16}
              (omega (arith, laws.length-gcm_tag c.cipher_key nonce packet))

      opened : aes_gcm_decrypt lib c (nonce ++ (body ++ tag)) ≡ some packet
      opened = ground (
        arith,
        total,
        rest,
        size_left,
        take-append_length nonce (body ++ tag) {n = 12} (omega arith),
        take-append_length body tag {n = length body} refl,
        drop-append_length body tag {n = length body} refl,
        tag_only,
        laws.gcm_open-seal c.cipher_key nonce packet,
      )
