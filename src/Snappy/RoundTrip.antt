-- ===== src/Snappy/RoundTrip.antt =====
-- What the encoder writes the decoder reads back, however the transport cuts it.
use shimakaze.Common.{
  ℕ, zero, suc, ◌≤◌, ◌≡◌, refl, ap, sym, ◌∙◌, Bool, true, false, List, [], ◌∷◌, ◌++◌, none, some,
  length, take, drop, arith, append_assoc, append-nil, concat, min, length-take, length-drop,
  take-append-drop,
}
use mathlib.Core.Path.{fun_ext}
use shimakaze.Common.Text.{codes}
use shimakaze.Wire.Codec.{write_len24}
use shimakaze.Snappy.Stream.{
  Snappy, Decoder, accepted, read_chunk, after_chunk, step, Decoded, decoded, failed, stuck, ◌>>=◌,
  after_step, decode, make_data_chunk, encode_chunks, encode, stream_identifier, feed,
}
use shimakaze.Snappy.Fragments.{run, run-step, decode-run, decode-append, bind_decoded, bind_push}
use shimakaze.Snappy.Chunks.{
  IsSnappy, step_chunk, body, kind, length-body, make_data_chunk_lem, read_chunk_lem,
}

module _ (snappy : Snappy) (laws : IsSnappy snappy) where
  -- One chunk of the encoder in front of anything.
  run_chunk :
      (plain rest : List ℕ)
      → length plain ≤ 65536
      → run snappy (record { buffer = make_data_chunk snappy plain ++ rest; saw_identifier = true })
        ≡ (run snappy (record { buffer = rest; saw_identifier = true }) >>= λ out d.
            decoded (plain ∷ out) d)
  run_chunk plain rest h =
      ap (λ t. run snappy (record { buffer = t; saw_identifier = true }))
        (make_data_chunk_lem snappy laws plain rest)
      ∙ run-step snappy _
      ∙ ap (λ t. after_step whole t (run snappy))
          (step_chunk snappy (kind snappy laws plain) (body snappy laws plain) rest true
              (omega (arith, length-body snappy laws plain))
            ∙ ap (after_chunk rest) (read_chunk_lem snappy laws plain))
    where
      whole : Decoder
      whole = record {
        buffer =
            kind snappy laws plain
            ∷ (write_len24 (length (body snappy laws plain)) ++ (body snappy laws plain ++ rest));
        saw_identifier = true;
      }

  run_identifier :
      (rest : List ℕ) (saw : Bool)
      → run snappy (record { buffer = stream_identifier ++ rest; saw_identifier = saw })
        ≡ (run snappy (record { buffer = rest; saw_identifier = true }) >>= λ out d. decoded out d)
  run_identifier rest saw =
      run-step snappy _
      ∙ ap (λ t. after_step whole t (run snappy))
          (step_identifier ∙ ap (after_chunk rest) identifier_chunk)
    where
      whole : Decoder
      whole = record { buffer = stream_identifier ++ rest; saw_identifier = saw }

      step_identifier :
          step snappy whole ≡ after_chunk rest (read_chunk snappy 0xff (codes "sNaPpY") saw)
      step_identifier =
          unfold write_len24 in step_chunk snappy 0xff (codes "sNaPpY") rest saw (omega arith)

      identifier_chunk : read_chunk snappy 0xff (codes "sNaPpY") saw ≡ accepted none true
      identifier_chunk = unfold read_chunk in refl

  run_empty :
      run snappy (record { buffer = []; saw_identifier = true })
      ≡ decoded [] (record { buffer = []; saw_identifier = true })
  run_empty = run-step snappy (record { buffer = []; saw_identifier = true }) ∙ unfold step in refl

  -- The plain pieces of a message, as the encoder cuts them.
  run_chunks :
      (fuel : ℕ) (bytes rest : List ℕ)
      → length bytes ≤ fuel
      → (pieces : List (List ℕ)) × (concat pieces ≡ bytes)
        × (run snappy (record {
          buffer = concat (encode_chunks snappy fuel bytes) ++ rest;
          saw_identifier = true;
        })
            ≡ (run snappy (record { buffer = rest; saw_identifier = true }) >>= λ out d.
                decoded (pieces ++ out) d))
  unfolding encode_chunks
  run_chunks fuel [] rest h = ([], refl, bind_decoded _)
  run_chunks zero (b ∷ bytes) rest h = absurd (omega arith)
  run_chunks (suc fuel) (b ∷ bytes) rest h =
      let count : ℕ = min 65536 (length (b ∷ bytes)) in
      let plain : List ℕ = take count (b ∷ bytes) in
      let left : List ℕ = drop count (b ∷ bytes) in
      let (pieces, whole, rec) =
        run_chunks fuel left rest (omega (arith, length-drop count (b ∷ bytes))) in
      (
        plain ∷ pieces,
        ap (◌++◌ plain) whole ∙ take-append-drop count (b ∷ bytes),
        ap (λ t. run snappy (record { buffer = t; saw_identifier = true }))
              (append_assoc (make_data_chunk snappy plain) (concat (encode_chunks snappy fuel left))
                rest)
            ∙ run_chunk plain (concat (encode_chunks snappy fuel left) ++ rest)
                (omega (arith, length-take count (b ∷ bytes)))
            ∙ ap (λ r. r >>= λ out d. decoded (plain ∷ out) d) rec
            ∙ bind_push (some plain) pieces
                (run snappy (record { buffer = rest; saw_identifier = true })),
      )

  run_body :
      (bytes : List ℕ)
      → (pieces : List (List ℕ)) × (concat pieces ≡ bytes)
        × (run snappy (record {
          buffer = concat (encode_chunks snappy (length bytes) bytes);
          saw_identifier = true;
        })
            ≡ decoded pieces (record { buffer = []; saw_identifier = true }))
  run_body bytes =
      let (pieces, whole, r) = run_chunks (length bytes) bytes [] (omega arith) in
      (
        pieces,
        whole,
        ap (λ t. run snappy (record { buffer = t; saw_identifier = true }))
              (sym (append-nil (concat (encode_chunks snappy (length bytes) bytes))))
            ∙ r
            ∙ ap (λ q. q >>= λ out d. decoded (pieces ++ out) d) run_empty
            ∙ ap (λ t. decoded t (record { buffer = []; saw_identifier = true }))
                (append-nil pieces),
      )

  run_message :
      (wrote saw : Bool) (bytes : List ℕ)
      → saw ≡ wrote
      → (pieces : List (List ℕ)) × (concat pieces ≡ bytes)
        × (run snappy
              (record { buffer = concat (encode snappy wrote bytes).0; saw_identifier = saw })
            ≡ decoded pieces (record { buffer = []; saw_identifier = true }))
  unfolding encode
  run_message true saw bytes e =
      let (pieces, whole, r) = run_body bytes in
      (
        pieces,
        whole,
        ap
              (λ b. run snappy (record {
                buffer = concat (encode_chunks snappy (length bytes) bytes);
                saw_identifier = b;
              }))
              e
            ∙ r,
      )
  run_message false saw bytes e =
      let (pieces, whole, r) = run_body bytes in
      (
        pieces,
        whole,
        run_identifier (concat (encode_chunks snappy (length bytes) bytes)) saw
            ∙ sym (
                bind_decoded (
                  run snappy (record {
                    buffer = concat (encode_chunks snappy (length bytes) bytes);
                    saw_identifier = true;
                  })))
            ∙ r,
      )

feed-concat :
    (snappy : Snappy) (d : Decoder) (piece : List ℕ) (pieces : List (List ℕ))
    → feed snappy d (piece ∷ pieces) ≡ decode snappy d (piece ++ concat pieces)
unfolding feed
feed-concat snappy d piece [] =
    feed_last (decode snappy d piece) ∙ ap (decode snappy d) (sym (append-nil piece))
  where
    feed_last :
        (r : Decoded) → (r >>= λ xs d'. decoded [] d' >>= λ ys d''. decoded (xs ++ ys) d'') ≡ r
    feed_last (decoded out d') = ap (λ t. decoded t d') (append-nil out)
    feed_last (failed e) = refl
    feed_last stuck = refl
feed-concat snappy d piece (p ∷ ps) =
    ap (λ k. decode snappy d piece >>= λ xs d'. k d' >>= λ ys d''. decoded (xs ++ ys) d'')
      (fun_ext (λ d'. feed-concat snappy d' p ps))
    ∙ sym (decode-append snappy d piece (p ++ concat ps))

-- Where snappy's `Uncompress` undoes its `Compress`: however the transport cuts the bytes of one
-- call of the encoder into one or more pieces, the decoder, in step with the encoder and with
-- nothing buffered, raises no exception, hands out chunks that join to the encoded bytes, and is
-- again in step with nothing buffered.
pub feed-encode :
    (snappy : Snappy) (d : Decoder) (wrote : Bool) (bytes piece : List ℕ) (pieces : List (List ℕ))
    → IsSnappy snappy
    → d.buffer ≡ []
    → d.saw_identifier ≡ wrote
    → piece ++ concat pieces ≡ concat (encode snappy wrote bytes).0
    → (out : List (List ℕ)) × (concat out ≡ bytes)
      × (feed snappy d (piece ∷ pieces)
          ≡ decoded out (record { buffer = []; saw_identifier = (encode snappy wrote bytes).1 }))
unfolding encode
feed-encode snappy d wrote bytes piece pieces laws empty synced cut =
    let (out, whole, r) = run_message snappy laws wrote d.saw_identifier bytes synced in
    (
      out,
      whole,
      feed-concat snappy d piece pieces
          ∙ ap (decode snappy d) cut
          ∙ decode-run snappy d (concat (encode snappy wrote bytes).0)
          ∙ ap (λ t. run snappy (record d { buffer = t ++ concat (encode snappy wrote bytes).0 }))
              empty
          ∙ r,
    )
