-- ===== src/Crypto/Constructor.antt =====
-- What Crypto++ documents, and what the constructor of `PacketCrypt` makes with it.
use mathlib.Core.Path.{subst}
use shimakaze.Common.Text.{codes}
use shimakaze.Common.{
  ℕ, ◌<◌, ◌≡◌, ◌==◌, if◌then◌else◌, List, Option, none, some, length, take, arith,
}
use shimakaze.Crypto.Cipher.{Block}
use shimakaze.Crypto.Packet.{
  Method, block, Library, PacketCrypt, Selected, selected, crypto_exception, unsupported_size,
  select_block, with_block, choose, recover, make_crypt, block_choice, CipherName, aes, derive_key,
  normalize_method,
}

-- What Crypto++ documents of the ciphers that are used through it: Salsa20 is a stream cipher, so
-- the same call undoes it, and AES-GCM opens what it sealed and adds a tag of 16 bytes.
pub record IsLibrary (lib : Library) : Type 0 where
  pub salsa20_undo :
      (key nonce text : List ℕ) → lib.salsa20 key nonce (lib.salsa20 key nonce text) ≡ text
  pub length-salsa20 : (key nonce text : List ℕ) → length (lib.salsa20 key nonce text) ≡ length text
  pub gcm_open-seal :
      (key nonce text : List ℕ)
      → lib.gcm_open key nonce (lib.gcm_seal key nonce text).0 (lib.gcm_seal key nonce text).1
        ≡ some text
  pub length-gcm_body :
      (key nonce text : List ℕ) → length (lib.gcm_seal key nonce text).0 ≡ length text
  pub length-gcm_tag : (key nonce text : List ℕ) → length (lib.gcm_seal key nonce text).1 ≡ 16

-- A block method has its cipher, with blocks of at least a byte.
abbrev pub Keyed : Method → Option Block → Type 0
Keyed block none = ⊥
Keyed block (some b) = 0 < b.block_size
Keyed _ _ = Unit {0}

abbrev pub IsCrypt : PacketCrypt → Type 0
IsCrypt c = Keyed c.method c.block

abbrev SelectsCrypt : Selected → Type 0
SelectsCrypt (selected c) = IsCrypt c
SelectsCrypt crypto_exception = Unit {0}
SelectsCrypt unsupported_size = Unit {0}

module _ (lib : Library) where
  with_block-IsCrypt :
      (derived effective : List ℕ) (size : ℕ) (b : Block)
      → SelectsCrypt (with_block lib derived effective size b)
  unfolding with_block
  with_block-IsCrypt derived effective size b = ground arith

  select_block-IsCrypt :
      (derived : List ℕ) (row : List ℕ × ℕ × CipherName)
      → SelectsCrypt (select_block lib derived row)
  unfolding select_block
  select_block-IsCrypt derived (effective, size, name) =
      cases (if size == 0 then length derived else size)
    where
      cases :
          (key_size : ℕ)
          → SelectsCrypt (elim (lib.make_cipher name (take key_size derived)) [
            | none ↦ crypto_exception
            | some b ↦ with_block lib derived effective key_size b
          ])
      cases key_size = go (lib.make_cipher name (take key_size derived))
        where
          go :
              (o : Option Block)
              → SelectsCrypt (elim o [
                | none ↦ crypto_exception
                | some b ↦ with_block lib derived effective key_size b
              ])
          go none = tt
          go (some b) = with_block-IsCrypt derived effective key_size b

  choose-IsCrypt : (derived method : List ℕ) → SelectsCrypt (choose lib derived method)
  unfolding choose
  choose-IsCrypt derived method = ground (arith, select_block-IsCrypt derived (block_choice method))

  fallback-IsCrypt :
      (s : Selected) {c : PacketCrypt}
      → SelectsCrypt s
      → ◌≡◌ {A = Option PacketCrypt} (elim s [ selected c' ↦ some c' | _ ↦ none ]) (some c)
      → IsCrypt c
  fallback-IsCrypt (selected c') {c} h e = subst IsCrypt {x = c'} {y = c} (ground arith) h
  fallback-IsCrypt crypto_exception {c} h e = cc
  fallback-IsCrypt unsupported_size {c} h e = cc

  recover-IsCrypt :
      (derived : List ℕ) (s : Selected) {c : PacketCrypt}
      → SelectsCrypt s
      → recover lib derived s ≡ some c
      → IsCrypt c
  unfolding recover
  recover-IsCrypt derived (selected c') {c} h e = subst IsCrypt {x = c'} {y = c} (ground arith) h
  recover-IsCrypt derived unsupported_size {c} h e = cc
  recover-IsCrypt derived crypto_exception {c} h e =
      fallback-IsCrypt (select_block lib derived (codes "aes", 32, aes))
        (select_block-IsCrypt derived (codes "aes", 32, aes)) e

  -- Whatever the constructor accepts is well formed.
  pub make_crypt-IsCrypt :
      (key crypt : List ℕ) {c : PacketCrypt} → make_crypt lib key crypt ≡ some c → IsCrypt c
  unfolding make_crypt
  make_crypt-IsCrypt key crypt e =
      recover-IsCrypt (derive_key lib key)
        (choose lib (derive_key lib key) (normalize_method crypt))
        (choose-IsCrypt (derive_key lib key) (normalize_method crypt)) e
