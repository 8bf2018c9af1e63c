-- ===== src/Qpp/Chunks.antt =====
-- The stream cipher in pieces: how the bytes are cut does not matter, and two ends that start alike
-- stay alike.
use shimakaze.Common.{
  ℕ, suc, length, List, [], ◌∷◌, ◌++◌, Option, none, some, concat, ◌≡◌, refl, ap, ◌∙◌, sym,
  if◌then◌else◌, IsBytes,
}
use shimakaze.Qpp.Pad.{QppPad, Primitives, create_prng, make_pad}
use shimakaze.Qpp.Pad
use shimakaze.Qpp.RoundTrip
use shimakaze.Qpp.Prng.{Rand, advance}
use shimakaze.Qpp.Stream.{QppStream, enabled, encrypt, decrypt, make_stream}

abbrev of : Option QppPad → Rand → Rand → QppStream
of pad write_rand read_rand = record { pad = pad; write_rand = write_rand; read_rand = read_rand }

pub encrypt-append :
    (xs ys : List ℕ) (s : QppStream)
    → encrypt (xs ++ ys) s
      ≡ ((encrypt xs s).0 ++ (encrypt ys (encrypt xs s).1).0, (encrypt ys (encrypt xs s).1).1)
unfolding encrypt
encrypt-append xs ys s = go s.pad s.write_rand s.read_rand
  where
    go :
        (pad : Option QppPad) (w r : Rand)
        → encrypt (xs ++ ys) (of pad w r) ≡ (
          (encrypt xs (of pad w r)).0 ++ (encrypt ys (encrypt xs (of pad w r)).1).0,
          (encrypt ys (encrypt xs (of pad w r)).1).1,
        )
    go none w r = refl
    go (some p) w r = ap (λ x. (x.0, of (some p) x.1 r)) (RoundTrip.encrypt-append p xs ys w)

pub decrypt-append :
    (xs ys : List ℕ) (s : QppStream)
    → decrypt (xs ++ ys) s
      ≡ ((decrypt xs s).0 ++ (decrypt ys (decrypt xs s).1).0, (decrypt ys (decrypt xs s).1).1)
unfolding decrypt
decrypt-append xs ys s = go s.pad s.write_rand s.read_rand
  where
    go :
        (pad : Option QppPad) (w r : Rand)
        → decrypt (xs ++ ys) (of pad w r) ≡ (
          (decrypt xs (of pad w r)).0 ++ (decrypt ys (decrypt xs (of pad w r)).1).0,
          (decrypt ys (decrypt xs (of pad w r)).1).1,
        )
    go none w r = refl
    go (some p) w r = ap (λ x. (x.0, of (some p) w x.1)) (RoundTrip.decrypt-append p xs ys r)

pub encrypt-empty : (s : QppStream) → encrypt [] s ≡ ([], s)
unfolding encrypt Pad.encrypt
encrypt-empty s = go s.pad s.write_rand s.read_rand
  where
    go : (pad : Option QppPad) (w r : Rand) → encrypt [] (of pad w r) ≡ ([], of pad w r)
    go none w r = refl
    go (some p) w r = refl

decrypt-empty : (s : QppStream) → decrypt [] s ≡ ([], s)
unfolding decrypt Pad.decrypt
decrypt-empty s = go s.pad s.write_rand s.read_rand
  where
    go : (pad : Option QppPad) (w r : Rand) → decrypt [] (of pad w r) ≡ ([], of pad w r)
    go none w r = refl
    go (some p) w r = refl

-- Where the cipher is off, sending the bytes as they are is what `encrypt` does.
pub encrypt-enabled :
    (xs : List ℕ) (s : QppStream) → (if enabled s then encrypt xs s else (xs, s)) ≡ encrypt xs s
unfolding encrypt enabled
encrypt-enabled xs s = go s.pad s.write_rand s.read_rand
  where
    go :
        (pad : Option QppPad) (w r : Rand)
        → (if enabled (of pad w r) then encrypt xs (of pad w r) else (xs, of pad w r))
          ≡ encrypt xs (of pad w r)
    go none w r = refl
    go (some p) w r = refl

-- One piece after the other.
unfoldable pub encrypt_all : List (List ℕ) → QppStream → List (List ℕ) × QppStream
encrypt_all [] s = ([], s)
encrypt_all (xs ∷ xss) s =
    let (out, s') = encrypt xs s in let (rest, s'') = encrypt_all xss s' in (out ∷ rest, s'')

unfoldable pub decrypt_all : List (List ℕ) → QppStream → List (List ℕ) × QppStream
decrypt_all [] s = ([], s)
decrypt_all (xs ∷ xss) s =
    let (out, s') = decrypt xs s in let (rest, s'') = decrypt_all xss s' in (out ∷ rest, s'')

encrypt_all-concat :
    (xss : List (List ℕ)) (s : QppStream)
    → (concat (encrypt_all xss s).0, (encrypt_all xss s).1) ≡ encrypt (concat xss) s
unfolding encrypt_all
encrypt_all-concat [] s = sym (encrypt-empty s)
encrypt_all-concat (xs ∷ xss) s =
    ap (λ r. ((encrypt xs s).0 ++ r.0, r.1)) (encrypt_all-concat xss (encrypt xs s).1)
    ∙ sym (encrypt-append xs (concat xss) s)

decrypt_all-concat :
    (xss : List (List ℕ)) (s : QppStream)
    → (concat (decrypt_all xss s).0, (decrypt_all xss s).1) ≡ decrypt (concat xss) s
unfolding decrypt_all
decrypt_all-concat [] s = sym (decrypt-empty s)
decrypt_all-concat (xs ∷ xss) s =
    ap (λ r. ((decrypt xs s).0 ++ r.0, r.1)) (decrypt_all-concat xss (decrypt xs s).1)
    ∙ sym (decrypt-append xs (concat xss) s)

-- Two ends, each with its own stream on the pad that the constructor makes of the same key:
-- whatever pieces of bytes one end encrypts, and however the cipher text is cut on its way, the
-- other end decrypts the bytes that were sent.
pub decrypt_all-encrypt_all :
    (crypto : Primitives) (key : List ℕ) (n : ℕ) {p : QppPad} (sent received : List (List ℕ))
    → make_pad crypto key n ≡ some p
    → IsBytes (concat sent)
    → concat received ≡ concat (encrypt_all sent (make_stream crypto (some p) key)).0
    → concat (decrypt_all received (make_stream crypto (some p) key)).0 ≡ concat sent
unfolding encrypt decrypt make_stream
decrypt_all-encrypt_all crypto key n {p} sent received made h e =
    ap (λ r. r.0) (decrypt_all-concat received (make_stream crypto (some p) key))
    ∙ ap (λ t. (decrypt t (make_stream crypto (some p) key)).0)
        (e ∙ ap (λ r. r.0) (encrypt_all-concat sent (make_stream crypto (some p) key)))
    ∙ ap (λ r. r.0)
        (RoundTrip.decrypt_pad-encrypt_pad crypto key n (concat sent) (create_prng crypto key) made
          h)

pad-length-encrypt :
    (p : QppPad) (xs : List ℕ) (r : Rand) → length (Pad.encrypt p xs r).0 ≡ length xs
unfolding Pad.encrypt
pad-length-encrypt p [] r = refl
pad-length-encrypt p (x ∷ xs) r = ap suc (pad-length-encrypt p xs (advance r))

pub length-encrypt : (xs : List ℕ) (s : QppStream) → length (encrypt xs s).0 ≡ length xs
unfolding encrypt
length-encrypt xs s = go s.pad s.write_rand s.read_rand
  where
    go : (pad : Option QppPad) (w r : Rand) → length (encrypt xs (of pad w r)).0 ≡ length xs
    go none w r = refl
    go (some p) w r = pad-length-encrypt p xs w
