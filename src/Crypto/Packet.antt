-- ===== src/Crypto/Packet.antt =====
-- `PacketCrypt`: the choice of a method, `encrypt`, `decrypt` and `overhead`.

use shimakaze.Common.{
  ℕ, ◌+◌, ◌-◌, ◌^◌, ◌==◌, ltb, Bool, true, false, ◌||◌, if◌then◌else◌, List, [], ◌++◌, map, Option,
  none, some, length, take, drop,
}
use shimakaze.Checksum.{crc32}
use shimakaze.Wire.Codec.{write_le32, read_le32}
use shimakaze.Common.Text.{codes, same, to_lower}
use shimakaze.Crypto.Cipher.{Block, block_cfb_crypt, salsa20_crypt, xor_crypt}

pub data Method : Type 0 where
  null plain block salsa20 xor_stream aes_gcm : Method

-- The block ciphers that the constructor instantiates.
pub data CipherName : Type 0 where
  aes blowfish twofish cast5 des_ede3 tea xtea sm4 : CipherName

-- What crypto.cpp calls of Crypto++. `none` is a `CryptoPP::Exception`; `gcm_open` also answers
-- `none` when the tag does not verify.
pub record Library : Type 0 where
  pub pbkdf2_sha1 : List ℕ → List ℕ → ℕ → ℕ → List ℕ
  pub make_cipher : CipherName → List ℕ → Option Block
  pub salsa20 : List ℕ → List ℕ → List ℕ → List ℕ
  pub gcm_seal : List ℕ → List ℕ → List ℕ → List ℕ × List ℕ
  pub gcm_open : List ℕ → List ℕ → List ℕ → List ℕ → Option (List ℕ)

abbrev pub crc_size : ℕ
crc_size = 4

-- `Method::none` is `plain` here.
pub record PacketCrypt : Type 0 where
  pub method : Method
  pub effective_method : List ℕ
  pub derived_key : List ℕ
  pub cipher_key : List ℕ
  pub xor_table : List ℕ
  pub block : Option Block

abbrev pub nonce_size : ℕ
nonce_size = 16

abbrev pub crypt_header_size : ℕ
crypt_header_size = nonce_size + crc_size

abbrev pub aes_gcm_nonce_size : ℕ
aes_gcm_nonce_size = 12

abbrev pub aes_gcm_tag_size : ℕ
aes_gcm_tag_size = 16

-- `crc32_ieee`.
unfoldable pub crc32_ieee : List ℕ → ℕ
crc32_ieee = crc32 0xedb88320

unfoldable pub normalize_method : List ℕ → List ℕ
normalize_method = map to_lower

-- A method name that stands for a block cipher: the effective name, the key size (0 for all 32
-- bytes) and the cipher. The last row is the default.
unfoldable pub block_choice : List ℕ → List ℕ × ℕ × CipherName
block_choice method =
    if same method (codes "aes-128")
    then (codes "aes-128", 16, aes)
    else if same method (codes "aes-192")
    then (codes "aes-192", 24, aes)
    else if same method (codes "blowfish")
    then (codes "blowfish", 0, blowfish)
    else if same method (codes "twofish")
    then (codes "twofish", 0, twofish)
    else if same method (codes "cast5")
    then (codes "cast5", 16, cast5)
    else if same method (codes "3des")
    then (codes "3des", 24, des_ede3)
    else if same method (codes "tea")
    then (codes "tea", 16, tea)
    else if same method (codes "xtea")
    then (codes "xtea", 16, xtea)
    else if same method (codes "sm4")
    then (codes "sm4", 16, sm4)
    else (codes "aes", 32, aes)

-- How `select_block` ends: a packet crypt, a `CryptoPP::Exception`, which the constructor catches,
-- or its own `std::runtime_error`, which it does not.
pub data Selected : Type 0 where
  selected : PacketCrypt → Selected
  crypto_exception : Selected
  unsupported_size : Selected

module _ (lib : Library) where
  -- The fields as `select_block` sets them over the default ones.
  unfoldable pub with_block : List ℕ → List ℕ → ℕ → Block → Selected
  with_block derived effective key_size b =
      if (b.block_size == 8) || (b.block_size == 16)
      then selected (record {
        method = block;
        effective_method = effective;
        derived_key = derived;
        cipher_key = take key_size derived;
        xor_table = [];
        block = some b;
      })
      else unsupported_size

  unfoldable pub select_block : List ℕ → List ℕ × ℕ × CipherName → Selected
  unfolding with_block
  select_block derived (effective, size, name) =
      let key_size = if size == 0 then length derived else size in
      elim (lib.make_cipher name (take key_size derived)) [
        | none ↦ crypto_exception
        | some b ↦ with_block derived effective key_size b
      ]

  abbrev plainly : Method → List ℕ → List ℕ → List ℕ → List ℕ → PacketCrypt
  plainly method effective derived key table = record {
    method = method;
    effective_method = effective;
    derived_key = derived;
    cipher_key = key;
    xor_table = table;
    block = none;
  }

  unfoldable pub derive_key : List ℕ → List ℕ
  derive_key key = lib.pbkdf2_sha1 key (codes "kcp-go") 4096 32

  unfoldable pub derive_xor_table : List ℕ → List ℕ
  derive_xor_table key = lib.pbkdf2_sha1 key (codes "sH3CIVoF#rWLtJo6") 32 1500

  unfoldable pub choose : List ℕ → List ℕ → Selected
  unfolding select_block block_choice
  choose derived method =
      if same method (codes "null")
      then selected (plainly null (codes "null") derived [] [])
      else if same method (codes "none")
      then selected (plainly plain (codes "none") derived [] [])
      else if same method (codes "salsa20")
      then selected (plainly salsa20 (codes "salsa20") derived derived [])
      else if same method (codes "xor")
      then selected (plainly xor_stream (codes "xor") derived [] (derive_xor_table derived))
      else if same method (codes "aes-128-gcm")
      then selected (plainly aes_gcm (codes "aes-128-gcm") derived (take 16 derived) [])
      else select_block derived (block_choice method)

  -- What the constructor does with the outcome; `none` is an exception that leaves it.
  unfoldable pub recover : List ℕ → Selected → Option PacketCrypt
  unfolding select_block
  recover derived (selected c) = some c
  recover derived unsupported_size = none
  recover derived crypto_exception = elim (select_block derived (codes "aes", 32, aes)) [
    | selected c ↦ some c
    | _ ↦ none
  ]

  -- The constructor, from `config.key` and `config.crypt`.
  unfoldable pub make_crypt : List ℕ → List ℕ → Option PacketCrypt
  unfolding choose recover
  make_crypt key crypt =
      let derived = derive_key key in recover derived (choose derived (normalize_method crypt))

  -- The body in place, for the methods that share the header; `null` and `aes_gcm` do not come here.
  unfoldable pub transform : PacketCrypt → Bool → List ℕ → Option (List ℕ)
  transform c encrypting bytes = elim c.method [
    | plain ↦ some bytes
    | block ↦ block_cfb_crypt c.block encrypting bytes
    | salsa20 ↦ some (salsa20_crypt lib.salsa20 c.cipher_key bytes)
    | xor_stream ↦ some (xor_crypt c.xor_table bytes)
    | null ↦ some bytes
    | aes_gcm ↦ some bytes
  ]

  -- `none` is the exception on a packet that is longer than the largest `int`.
  unfoldable pub aes_gcm_encrypt : PacketCrypt → List ℕ → List ℕ → Option (List ℕ)
  aes_gcm_encrypt c nonce packet =
      if ltb (2 ^ 31 - 1) (length packet)
      then none
      else (let (body, tag) = lib.gcm_seal c.cipher_key nonce packet in
          some (nonce ++ (body ++ tag)))

  unfoldable pub aes_gcm_decrypt : PacketCrypt → List ℕ → Option (List ℕ)
  aes_gcm_decrypt c packet =
      if ltb (length packet) (aes_gcm_nonce_size + aes_gcm_tag_size)
      then none
      else (let payload_size = length packet - aes_gcm_nonce_size - aes_gcm_tag_size in
          let rest = drop aes_gcm_nonce_size packet in
          lib.gcm_open c.cipher_key (take aes_gcm_nonce_size packet) (take payload_size rest)
            (take aes_gcm_tag_size (drop payload_size rest)))

  -- `encrypt` at its method. `nonce` is what `fill_random` wrote: 16 bytes, or 12 for AES-GCM.
  unfoldable pub encrypt_by : Method → PacketCrypt → List ℕ → List ℕ → Option (List ℕ)
  encrypt_by null c nonce packet = some packet
  encrypt_by aes_gcm c nonce packet = aes_gcm_encrypt c nonce packet
  encrypt_by _ c nonce packet =
      transform c true (nonce ++ (write_le32 (crc32_ieee packet) ++ packet))

  unfoldable pub encrypt : PacketCrypt → List ℕ → List ℕ → Option (List ℕ)
  unfolding encrypt_by
  encrypt c nonce packet = encrypt_by c.method c nonce packet

  -- The check of a decoded buffer against its header.
  unfoldable pub checked : List ℕ → Option (List ℕ)
  checked decoded =
      let payload = drop crypt_header_size decoded in
      if crc32_ieee payload == read_le32 (drop nonce_size decoded) then some payload else none

  unfoldable pub decrypt_header : PacketCrypt → List ℕ → Option (List ℕ)
  unfolding transform checked
  decrypt_header c packet =
      if ltb (length packet) crypt_header_size
      then none
      else elim (transform c false packet) [ none ↦ none | some decoded ↦ checked decoded ]

  unfoldable pub decrypt_by : Method → PacketCrypt → List ℕ → Option (List ℕ)
  decrypt_by null c packet = some packet
  decrypt_by aes_gcm c packet = aes_gcm_decrypt c packet
  decrypt_by _ c packet = decrypt_header c packet

  unfoldable pub decrypt : PacketCrypt → List ℕ → Option (List ℕ)
  unfolding decrypt_by
  decrypt c packet = decrypt_by c.method c packet

unfoldable pub overhead_by : Method → ℕ
overhead_by null = 0
overhead_by aes_gcm = aes_gcm_nonce_size + aes_gcm_tag_size
overhead_by _ = crypt_header_size

unfoldable pub overhead : PacketCrypt → ℕ
unfolding overhead_by
overhead c = overhead_by c.method

unfoldable pub uses_header : PacketCrypt → Bool
uses_header c = elim c.method [ null ↦ false | _ ↦ true ]

unfoldable pub encrypts_payload : PacketCrypt → Bool
encrypts_payload c = elim c.method [ null ↦ false | plain ↦ false | _ ↦ true ]
