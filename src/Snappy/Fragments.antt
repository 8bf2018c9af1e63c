-- ===== src/Snappy/Fragments.antt =====
-- How the transport cuts the byte stream makes no difference to the decoder.
use shimakaze.Common.{
  ℕ, zero, suc, ◌+◌, ◌≤◌, ◌<◌, ◌≡◌, refl, ap, sym, ◌∙◌, ◌⊎◌, inl, inr, List, [], ◌∷◌, ◌++◌, Option,
  none, some, length, get_or, take, drop, arith, length-append, take-append_le, drop-append_le,
  length-drop, append_assoc, get_or-append_left,
}
use mathlib.Core.Path.{ap₂, fun_ext}
use shimakaze.Wire.Codec.{read_len24}
use shimakaze.Snappy.Stream.{
  Snappy, Decoder, Chunk, accepted, refused, read_chunk, Step, wait, fail, next, after_chunk,
  chunk_length, step, Decoded, decoded, failed, stuck, ◌>>=◌, push, after_step, decode_loop, decode,
}

read_len24-append : (xs ys : List ℕ) → 3 ≤ length xs → read_len24 (xs ++ ys) ≡ read_len24 xs
unfolding read_len24
read_len24-append (a ∷ b ∷ c ∷ xs) ys h = refl
read_len24-append [] ys h = absurd (omega arith)
read_len24-append (a ∷ []) ys h = absurd (omega arith)
read_len24-append (a ∷ b ∷ []) ys h = absurd (omega arith)

chunk_length-append : (xs ys : List ℕ) → 4 ≤ length xs → chunk_length (xs ++ ys) ≡ chunk_length xs
chunk_length-append xs ys h =
    ap read_len24 (drop-append_le 1 xs ys (omega arith))
    ∙ read_len24-append (drop 1 xs) ys (omega (arith, length-drop 1 xs))

-- More bytes behind the buffer.
abbrev pub more : Decoder → List ℕ → Decoder
more d bytes = record d { buffer = d.buffer ++ bytes }

abbrev pub more_step : List ℕ → Step → Step
more_step bytes wait = wait
more_step bytes (fail e) = fail e
more_step bytes (next out d) = next out (more d bytes)

after_chunk-more :
    (rest bytes : List ℕ) (c : Chunk)
    → after_chunk (rest ++ bytes) c ≡ more_step bytes (after_chunk rest c)
after_chunk-more rest bytes (accepted out saw) = refl
after_chunk-more rest bytes (refused e) = refl

abbrev Shrinks : Decoder → Step → Type 0
Shrinks d wait = Unit {0}
Shrinks d (fail e) = Unit {0}
Shrinks d (next out d') = length d'.buffer < length d.buffer

after_chunk-Shrinks :
    (d : Decoder) (rest : List ℕ) (c : Chunk)
    → length rest < length d.buffer
    → Shrinks d (after_chunk rest c)
after_chunk-Shrinks d rest (accepted out saw) h = h
after_chunk-Shrinks d rest (refused e) h = tt

module _ (snappy : Snappy) where
  -- A round that does not wait reads its own chunk only.
  step-more :
      (d : Decoder) (bytes : List ℕ)
      → (step snappy d ≡ wait) ⊎ (step snappy (more d bytes) ≡ more_step bytes (step snappy d))
  unfolding step
  step-more d bytes = ground (
    arith,
    length-append d.buffer bytes,
    chunk_length-append d.buffer bytes,
    get_or-append_left d.buffer bytes 0 0,
    drop-append_le 4 d.buffer bytes,
    take-append_le (chunk_length d.buffer) (drop 4 d.buffer) bytes,
    length-drop 4 d.buffer,
    drop-append_le (4 + chunk_length d.buffer) d.buffer bytes,
    after_chunk-more (drop (4 + chunk_length d.buffer) d.buffer) bytes (
        read_chunk snappy (get_or d.buffer 0 0) (take (chunk_length d.buffer) (drop 4 d.buffer))
          d.saw_identifier),
  )

  step-Shrinks : (d : Decoder) → Shrinks d (step snappy d)
  unfolding step
  step-Shrinks d = ground (
    arith,
    length-drop (4 + chunk_length d.buffer) d.buffer,
    after_chunk-Shrinks d (drop (4 + chunk_length d.buffer) d.buffer) (
        read_chunk snappy (get_or d.buffer 0 0) (take (chunk_length d.buffer) (drop 4 d.buffer))
          d.saw_identifier),
  )

-- The decoder's run over what it has buffered, in fuel-free form.
module _ (snappy : Snappy) where
  decode_loop_fuel :
      (f g : ℕ) (d : Decoder)
      → length d.buffer < f
      → length d.buffer < g
      → decode_loop snappy f d ≡ decode_loop snappy g d
  unfolding decode_loop
  decode_loop_fuel zero g d hf hg = absurd (omega arith)
  decode_loop_fuel (suc f) zero d hf hg = absurd (omega arith)
  decode_loop_fuel (suc f) (suc g) d hf hg =
      go (step snappy d) (step-Shrinks snappy d)
        (λ d' h. decode_loop_fuel f g d' (omega arith) (omega arith))
    where
      go :
          (s : Step)
          → Shrinks d s
          → ((d' : Decoder)
              → length d'.buffer < length d.buffer
              → decode_loop snappy f d' ≡ decode_loop snappy g d')
          → after_step d s (decode_loop snappy f) ≡ after_step d s (decode_loop snappy g)
      go wait h ih = refl
      go (fail e) h ih = refl
      go (next out d') h ih = ap (λ r. r >>= λ rest d''. decoded (push out rest) d'') (ih d' h)

  pub run : Decoder → Decoded
  run d = decode_loop snappy (suc (length d.buffer)) d

  pub run-step : (d : Decoder) → run d ≡ after_step d (step snappy d) run
  unfolding run decode_loop
  run-step d = go (step snappy d) (step-Shrinks snappy d)
    where
      go :
          (s : Step)
          → Shrinks d s
          → after_step d s (decode_loop snappy (length d.buffer)) ≡ after_step d s run
      go wait h = refl
      go (fail e) h = refl
      go (next out d') h =
          ap (λ r. r >>= λ rest d''. decoded (push out rest) d'')
            (decode_loop_fuel (length d.buffer) (suc (length d'.buffer)) d' h (omega arith))

  pub decode-run : (d : Decoder) (bytes : List ℕ) → decode snappy d bytes ≡ run (more d bytes)
  unfolding run decode
  decode-run d bytes = refl

pub bind_decoded : (r : Decoded) → r ≡ (r >>= λ out d. decoded out d)
bind_decoded (decoded out d) = refl
bind_decoded (failed e) = refl
bind_decoded stuck = refl

push-append : (o : Option (List ℕ)) (xs ys : List (List ℕ)) → push o (xs ++ ys) ≡ push o xs ++ ys
push-append none xs ys = refl
push-append (some plain) xs ys = refl

pub bind_push :
    (o : Option (List ℕ)) (xs : List (List ℕ)) (r : Decoded)
    → (r >>= (λ out d. decoded (xs ++ out) d) >>= λ out d. decoded (push o out) d)
      ≡ (r >>= λ out d. decoded (push o xs ++ out) d)
bind_push o xs (decoded out d) = ap (λ t. decoded t d) (push-append o xs out)
bind_push o xs (failed e) = refl
bind_push o xs stuck = refl

bind_assoc :
    (o : Option (List ℕ)) (r : Decoded) (k : Decoder → Decoded)
    → (r >>= (λ xs d. k d >>= λ ys d'. decoded (xs ++ ys) d') >>= λ out d. decoded (push o out) d)
      ≡ (r >>= (λ out d. decoded (push o out) d) >>= λ xs d. k d >>= λ ys d'. decoded (xs ++ ys) d')
bind_assoc o (decoded xs d) k = bind_push o xs (k d)
bind_assoc o (failed e) k = refl
bind_assoc o stuck k = refl

module _ (snappy : Snappy) where
  run-more_below :
      (n : ℕ) (d : Decoder) (bytes : List ℕ)
      → length d.buffer < n
      → run snappy (more d bytes) ≡ (
          run snappy d >>= λ xs d'. run snappy (more d' bytes) >>= λ ys d''. decoded (xs ++ ys) d'')
  run-more_below zero d bytes h = absurd (omega arith)
  run-more_below (suc n) d bytes h =
      go (step snappy d) refl (step-Shrinks snappy d) (step-more snappy d bytes)
        (λ d' l. run-more_below n d' bytes (omega arith))
    where
      go :
          (s : Step)
          → step snappy d ≡ s
          → Shrinks d s
          → (step snappy d ≡ wait) ⊎ (step snappy (more d bytes) ≡ more_step bytes (step snappy d))
          → ((d' : Decoder)
              → length d'.buffer < length d.buffer
              → run snappy (more d' bytes) ≡ (
                  run snappy d' >>= λ xs d''.
                  run snappy (more d'' bytes) >>= λ ys e. decoded (xs ++ ys) e))
          → run snappy (more d bytes) ≡ (
              run snappy d >>= λ xs d'.
              run snappy (more d' bytes) >>= λ ys d''. decoded (xs ++ ys) d'')
      go wait e sh m ih = rw (run-step snappy d, e) (bind_decoded (run snappy (more d bytes)))
      go (fail x) e sh (inl m) ih = cc
      go (fail x) e sh (inr m) ih = rw (run-step snappy d, e, run-step snappy (more d bytes), m, e)
      go (next out d') e sh (inl m) ih = cc
      go (next out d') e sh (inr m) ih =
          run-step snappy (more d bytes)
          ∙ ap (λ t. after_step (more d bytes) t (run snappy)) (m ∙ ap (more_step bytes) e)
          ∙ ap (λ r. r >>= λ rest d''. decoded (push out rest) d'') (ih d' sh)
          ∙ bind_assoc out (run snappy d') (λ d''. run snappy (more d'' bytes))
          ∙ ap (λ r. r >>= λ xs d''. run snappy (more d'' bytes) >>= λ ys z. decoded (xs ++ ys) z)
              (sym (run-step snappy d ∙ ap (λ t. after_step d t (run snappy)) e))

  -- Decoding two pieces one after the other, with the chunks of both, is decoding them as one.
  pub decode-append :
      (d : Decoder) (first second : List ℕ)
      → decode snappy d (first ++ second) ≡ (
          decode snappy d first >>= λ xs d'.
          decode snappy d' second >>= λ ys d''. decoded (xs ++ ys) d'')
  decode-append d first second =
      decode-run snappy d (first ++ second)
      ∙ ap (λ t. run snappy (record d { buffer = t })) (sym (append_assoc d.buffer first second))
      ∙ run-more_below (suc (length (d.buffer ++ first))) (more d first) second (omega arith)
      ∙ sym pieces
    where
      pieces :
          (decode snappy d first >>= λ xs d'.
          decode snappy d' second >>= λ ys d''. decoded (xs ++ ys) d'')
          ≡ (run snappy (more d first) >>= λ xs d'.
              run snappy (more d' second) >>= λ ys d''. decoded (xs ++ ys) d'')
      pieces =
          ap₂ (λ r k. r >>= λ xs d'. k d' >>= λ ys d''. decoded (xs ++ ys) d'')
            (decode-run snappy d first) (fun_ext (λ d'. decode-run snappy d' second))
