-- ===== src/Crypto/Envelope.antt =====
-- `decrypt` opens what `encrypt` sealed, for every method that the constructor can choose.
use shimakaze.Common.{ℕ, ◌+◌, ◌<◌, ◌^◌, ◌≡◌, refl, List, some, length, arith}
use shimakaze.Crypto.Packet.{
  Method, null, aes_gcm, Library, PacketCrypt, make_crypt, encrypt_by, decrypt_by, overhead_by,
  encrypt, decrypt, overhead,
}
use shimakaze.Crypto.Constructor.{IsLibrary, IsCrypt, make_crypt-IsCrypt}
use shimakaze.Crypto.Methods.{Opens, header-Opens, gcm-Opens}

-- The size of the nonce that `encrypt` draws for a method.
abbrev pub nonce_bytes : Method → ℕ
nonce_bytes aes_gcm = 12
nonce_bytes _ = 16

module _ (lib : Library) (laws : IsLibrary lib) where
  Opens-method :
      (m : Method) (c : PacketCrypt) (nonce packet : List ℕ)
      → IsCrypt c
      → length nonce ≡ nonce_bytes m
      → length packet < 2 ^ 31
      → (sealed : List ℕ) × (encrypt_by lib m c nonce packet ≡ some sealed)
        × (length sealed ≡ length packet + overhead_by m)
        × (decrypt_by lib m c sealed ≡ some packet)
  unfolding encrypt_by decrypt_by overhead_by
  Opens-method null c nonce packet h size fits = (packet, refl, omega arith, refl)
  Opens-method aes_gcm c nonce packet h size fits = gcm-Opens lib laws c nonce packet size fits
  Opens-method m c nonce packet h size fits = header-Opens lib laws c nonce packet h size

  -- Where Crypto++ does what `IsLibrary` says, every crypt that the constructor makes, whatever the
  -- key and the method name, seals each packet of less than 2 ^ 31 bytes under each nonce of its
  -- size into `overhead` more bytes, and opening those bytes gives the packet back.
  pub open-seal :
      (key crypt : List ℕ) {c : PacketCrypt} (nonce packet : List ℕ)
      → make_crypt lib key crypt ≡ some c
      → length nonce ≡ nonce_bytes c.method
      → length packet < 2 ^ 31
      → Opens lib laws c nonce packet
  unfolding encrypt decrypt overhead
  open-seal key crypt {c} nonce packet made size fits =
      Opens-method c.method c nonce packet (make_crypt-IsCrypt lib key crypt made) size fits
