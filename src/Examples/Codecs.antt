-- ===== src/Examples/Codecs.antt =====
-- Concrete runs of forward error correction.
use shimakaze.Common.{ℕ, true, List, [], ◌∷◌, some, ◌≡◌, refl, sym, ◌∙◌, arith, IsByte, ◌%◌}
use mathlib.Core.Option.{none-ne-some}
use shimakaze.Common.Int.{pos}
use shimakaze.Config.Base.{BaseConfig}
use shimakaze.Wire.Codec.{write_le16, write_le32, read_le16, read_le32}
use shimakaze.Fec.Field.{double, mul_loop, gf_mul, gf_pow, gf_inv}
use shimakaze.Fec.Inverse.{gf_inv-gf_mul}
use shimakaze.Fec.Matrix
use shimakaze.Fec.ReedSolomon.{ReedSolomon, make_reed_solomon}
use shimakaze.Fec.ReedSolomon
use shimakaze.Fec.Codec.{FecCodec, fresh, make_codec, encode}
use shimakaze.Fec.Decoder.{decode}
use shimakaze.Fec.Grouping.{IsCodec}
use shimakaze.Fec.Sending.{AreSent, encode-IsCodec, encode-AreSent}
use shimakaze.Fec.Construction.{make_codec-IsCodec}
use shimakaze.Fec.OpenSets.{IsReceiver}
use shimakaze.Fec.Receiving.{decode-IsReceiver}
use shimakaze.Fec.Padding.{Recovers, recovered_packet-encode}
use shimakaze.Fec.Exchange.{Delivered, decode-encode}
use shimakaze.Examples.Data.{sample}

gf_inv-gf_mul_example : (b : ℕ) × (gf_inv 5 ≡ some b) × IsByte b × (gf_mul 5 b ≡ 1)
gf_inv-gf_mul_example = gf_inv-gf_mul 5 (omega arith) (omega arith)

abbrev small_config : BaseConfig
small_config = record sample { datashard = pos 2; parityshard = pos 1 }

abbrev small_reed_solomon : ReedSolomon
small_reed_solomon = record {
  data_shards = 2;
  parity_shards = 1;
  matrix = (1 ∷ 0 ∷ []) ∷ (0 ∷ 1 ∷ []) ∷ (3 ∷ 2 ∷ []) ∷ [];
}

abbrev pub small_codec : FecCodec
small_codec = fresh 2 1 true small_reed_solomon

codec_made : make_codec small_config ≡ some small_codec
unfolding make_codec make_reed_solomon Matrix.build_rs_matrix Matrix.vandermonde
    Matrix.invert_matrix Matrix.multiply_matrix double mul_loop gf_mul gf_pow gf_inv
codec_made = refl

small_codec-IsCodec : IsCodec small_codec
small_codec-IsCodec = make_codec-IsCodec small_config small_codec codec_made refl (omega arith)

encode-IsCodec_example : IsCodec (encode 1000 (7 ∷ 8 ∷ []) small_codec).1
encode-IsCodec_example = encode-IsCodec 1000 (7 ∷ 8 ∷ []) small_codec small_codec-IsCodec

encode-AreSent_example : AreSent small_codec (encode 1000 (7 ∷ 8 ∷ []) small_codec).0 × (0 % 3 ≡ 0)
encode-AreSent_example = encode-AreSent 1000 (7 ∷ 8 ∷ []) small_codec small_codec-IsCodec

decode-encode_example :
    Delivered (7 ∷ 8 ∷ []) small_codec small_codec (encode 1000 (7 ∷ 8 ∷ []) small_codec).0
decode-encode_example = decode-encode 1000 (7 ∷ 8 ∷ []) small_codec small_codec refl

small_codec-IsReceiver : IsReceiver small_codec
small_codec-IsReceiver = record { some_data = omega arith; sets = tt }

abbrev first_packet : List ℕ
first_packet = 0 ∷ 0 ∷ 0 ∷ 0 ∷ 0xf1 ∷ 0 ∷ 4 ∷ 0 ∷ 7 ∷ 8 ∷ []

first_decoded : (decode first_packet small_codec).0 ≡ some ((7 ∷ 8 ∷ []) ∷ [])
unfolding decode read_le16 read_le32
first_decoded = refl

decode-IsReceiver_example : IsReceiver (decode first_packet small_codec).1
decode-IsReceiver_example =
    decode-IsReceiver first_packet small_codec small_codec-IsReceiver
      (λ threw. none-ne-some ((7 ∷ 8 ∷ []) ∷ []) (sym threw ∙ first_decoded))

-- The second data packet is lost, and comes back from the first and the parity packet.
abbrev parity_packet : List ℕ
parity_packet = 2 ∷ 0 ∷ 0 ∷ 0 ∷ 0xf2 ∷ 0 ∷ 10 ∷ 0 ∷ 27 ∷ 24 ∷ []

parity_sent :
    (encode 1001 (9 ∷ []) (encode 1000 (7 ∷ 8 ∷ []) small_codec).1).0
    ≡ (1 ∷ 0 ∷ 0 ∷ 0 ∷ 0xf1 ∷ 0 ∷ 3 ∷ 0 ∷ 9 ∷ []) ∷ parity_packet ∷ []
unfolding encode write_le32 ReedSolomon.encode write_le16 gf_mul
parity_sent = refl

lost_packet : (decode parity_packet (decode first_packet small_codec).1).0 ≡ some ((9 ∷ []) ∷ [])
unfolding decode read_le16 read_le32 gf_mul gf_inv
lost_packet = refl

recovered_packet-encode_example : Recovers 9 (7 ∷ 8 ∷ []) (encode 5 (7 ∷ 8 ∷ []) small_codec).0
recovered_packet-encode_example =
    recovered_packet-encode 5 9 (7 ∷ 8 ∷ []) small_codec refl (omega arith) (omega arith)
