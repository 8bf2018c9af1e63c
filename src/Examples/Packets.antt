-- ===== src/Examples/Packets.antt =====
-- The theorems on packets, pads and the compressed stream at concrete inputs.
-- The libraries that the program calls are simple functions here.
use shimakaze.Common.{
  ◌<◌, ◌≤◌, ℕ, false, List, [], ◌∷◌, ◌++◌, some, map, take, drop, replicate, concat, ◌≡◌, refl, ap,
  ◌∙◌, arith, append-nil, take-append-drop,
}
use shimakaze.Address.{
  parse_multiport, split_host_service, parse_range, parse_port, from_chars, digits_value, find,
  rfind, parse_multiport-bounds,
}
use shimakaze.Common.Text.{codes, to_lower}
use shimakaze.Qpp.Pad.{QppPad, make_pad, build_pads, seed_to_chunks, shuffle_salt, reverse_pad}
use shimakaze.Qpp.Stream.{make_stream}
use shimakaze.Qpp.Shuffle.{IsPad}
use shimakaze.Qpp.RoundTrip.{Inverts, make_pad-Inverts}
use shimakaze.Qpp.Chunks.{encrypt_all, decrypt_all, decrypt_all-encrypt_all}
use shimakaze.Examples.Data.{
  toy_library, toy_library-IsLibrary, toy_snappy, toy_snappy-IsSnappy, toy_primitives,
}
use shimakaze.Crypto.Packet.{
  PacketCrypt, block, make_crypt, choose, recover, derive_key, select_block, with_block,
  block_choice, normalize_method,
}
use shimakaze.Crypto.Envelope.{open-seal}
use shimakaze.Crypto.Methods.{Opens}
use shimakaze.Snappy.Stream.{Decoder, decoded, encode, decode, feed, ◌>>=◌}
use shimakaze.Snappy.Fragments.{decode-append}
use shimakaze.Snappy.RoundTrip.{feed-encode}

abbrev pub toy_crypt : PacketCrypt
toy_crypt = record {
  method = block;
  effective_method = codes "aes-128";
  derived_key = replicate 32 7;
  cipher_key = replicate 16 7;
  xor_table = [];
  block = some (record { block_size = 16; process = λ bytes. bytes });
}

pub toy_crypt_made : make_crypt toy_library (codes "secret") (codes "AES-128") ≡ some toy_crypt
unfolding make_crypt choose recover derive_key select_block with_block block_choice normalize_method
    to_lower
toy_crypt_made = refl

open-seal_example :
    Opens toy_library toy_library-IsLibrary toy_crypt (replicate 16 5) (1 ∷ 2 ∷ 3 ∷ [])
open-seal_example =
    open-seal toy_library toy_library-IsLibrary (codes "secret") (codes "AES-128") (replicate 16 5)
      (1 ∷ 2 ∷ 3 ∷ []) toy_crypt_made refl (omega arith)

abbrev at_start : Decoder
at_start = record { buffer = []; saw_identifier = false }

abbrev message : List ℕ
message = concat (encode toy_snappy false (1 ∷ 2 ∷ 3 ∷ [])).0

message_cut : take 12 message ++ concat (drop 12 message ∷ []) ≡ message
message_cut =
    ap (◌++◌ (take 12 message)) (append-nil (drop 12 message)) ∙ take-append-drop 12 message

feed-encode_example :
    (out : List (List ℕ)) × (concat out ≡ 1 ∷ 2 ∷ 3 ∷ [])
    × (feed toy_snappy at_start (take 12 message ∷ drop 12 message ∷ [])
        ≡ decoded out
            (record { buffer = []; saw_identifier = (encode toy_snappy false (1 ∷ 2 ∷ 3 ∷ [])).1 }))
feed-encode_example =
    feed-encode toy_snappy at_start false (1 ∷ 2 ∷ 3 ∷ []) (take 12 message) (drop 12 message ∷ [])
      toy_snappy-IsSnappy refl refl message_cut

decode-append_example : decode toy_snappy at_start (take 12 message ++ drop 12 message) ≡ (
    decode toy_snappy at_start (take 12 message) >>= λ xs d'.
    decode toy_snappy d' (drop 12 message) >>= λ ys d''. decoded (xs ++ ys) d'')
decode-append_example = decode-append toy_snappy at_start (take 12 message) (drop 12 message)

abbrev seed : List ℕ
seed = codes "a seed of enough bytes for a pad"

abbrev toy_matrices : List (List ℕ)
toy_matrices =
    build_pads toy_primitives (seed_to_chunks toy_primitives seed)
      (map (λ chunk. toy_primitives.pbkdf2_sha1 chunk shuffle_salt 128)
        (seed_to_chunks toy_primitives seed))
      0 3

abbrev toy_pad : QppPad
toy_pad = record {
  pads = concat toy_matrices;
  rpads = concat (map reverse_pad toy_matrices);
  num_pads = 3;
}

toy_pad_made : make_pad toy_primitives seed 3 ≡ some toy_pad
unfolding make_pad
toy_pad_made = refl

make_pad-Inverts_example : IsPad toy_pad × Inverts toy_pad × (toy_pad.num_pads ≡ 3)
make_pad-Inverts_example = make_pad-Inverts toy_primitives seed 3 toy_pad_made

abbrev pieces : List (List ℕ)
pieces = (1 ∷ 2 ∷ []) ∷ (3 ∷ []) ∷ []

abbrev ciphered : List ℕ
ciphered = concat (encrypt_all pieces (make_stream toy_primitives (some toy_pad) seed)).0

decrypt_all-encrypt_all_example :
    concat (decrypt_all (ciphered ∷ []) (make_stream toy_primitives (some toy_pad) seed)).0
    ≡ 1 ∷ 2 ∷ 3 ∷ []
decrypt_all-encrypt_all_example =
    decrypt_all-encrypt_all toy_primitives seed 3 pieces (ciphered ∷ []) toy_pad_made
      (omega arith, (omega arith, (omega arith, tt))) (append-nil ciphered)

range_parsed :
    parse_multiport (codes "vps:29900-29999")
    ≡ some (record { host = codes "vps"; min_port = 29900; max_port = 29999 })
unfolding parse_multiport split_host_service parse_range parse_port from_chars digits_value find
    rfind
range_parsed = refl

parse_multiport-bounds_example : (0 < 29900) × (29900 ≤ 29999) × (29999 < 65536)
parse_multiport-bounds_example = parse_multiport-bounds (codes "vps:29900-29999") range_parsed
