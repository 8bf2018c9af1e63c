-- ===== src/Smux/Flow.antt =====
-- What the loop of `try_flush_outbound` does to the queue, the cipher, the counter and the window.
use shimakaze.Common.{
  ℕ, ◌+◌, ◌-◌, ◌%◌, ◌^◌, ◌≤◌, ◌<◌, true, List, [], ◌∷◌, ◌++◌, length, take, drop, ◌≡◌, refl, ap,
  ap₂, ◌∙◌, sym, arith, All, All-append, append-nil, append_assoc, length-take, length-drop,
  length-append, take-append-drop, drop-drop, drop-all,
}
use shimakaze.Common.Int.{at_least_one, is}
use shimakaze.Config.Base.{BaseConfig}
use shimakaze.Qpp.Stream.{encrypt}
use shimakaze.Qpp.Chunks.{encrypt-append, encrypt-empty, encrypt-enabled, length-encrypt}
use shimakaze.Smux.State.{Pending, Stream, Effect, send_frame, psh}
use shimakaze.Smux.Outbound.{available_peer_window, send_chunk, chunk_size}

-- The bytes that wait in the queue.
unfoldable pub unsent : List Pending → List ℕ
unsent [] = []
unsent (p ∷ ps) = drop p.offset p.bytes ++ unsent ps

-- The bytes that a list of frames carries.
unfoldable pub carried : List (List ℕ) → List ℕ
carried [] = []
carried (f ∷ fs) = f ++ carried fs

abbrev pub frames_of : ℕ → List (List ℕ) → List Effect
frames_of id [] = []
frames_of id (f ∷ fs) = send_frame psh id f ∷ frames_of id fs

frames_of-append :
    (id : ℕ) (xs ys : List (List ℕ)) → frames_of id (xs ++ ys) ≡ frames_of id xs ++ frames_of id ys
frames_of-append id [] ys = refl
frames_of-append id (x ∷ xs) ys = ap (◌∷◌ (send_frame psh id x)) (frames_of-append id xs ys)

carried-append : (xs ys : List (List ℕ)) → carried (xs ++ ys) ≡ carried xs ++ carried ys
unfolding carried
carried-append [] ys = refl
carried-append (x ∷ xs) ys =
    ap (◌++◌ x) (carried-append xs ys) ∙ sym (append_assoc x (carried xs) (carried ys))

-- A frame has a byte at least and `framesize` bytes at most.
abbrev pub IsFrame : BaseConfig → List ℕ → Type 0
IsFrame session f = (0 < length f) × (length f ≤ at_least_one session.framesize)

-- What happened between two states of a stream: `sent` left the front of the queue, went through the
-- cipher and out in `frames`, and was counted.
pub record Flushed (session : BaseConfig) (s s' : Stream) : Type 0 where
  pub sent : List ℕ
  pub frames : List (List ℕ)
  pub queue : unsent s.pending_outbound ≡ sent ++ unsent s'.pending_outbound
  pub cipher : encrypt sent s.qpp ≡ (carried frames, s'.qpp)
  pub effects : s'.effects ≡ s.effects ++ frames_of s.id frames
  pub sizes : All (IsFrame session) frames
  pub count : s'.num_written % 2 ^ 32 ≡ (s.num_written + length sent) % 2 ^ 32
  pub same_id : s'.id ≡ s.id
  pub same_window : s'.peer_window ≡ s.peer_window
  pub same_consumed : s'.peer_consumed ≡ s.peer_consumed
  pub same_session : s'.session ≡ s.session
  pub same_closed : s'.closed ≡ s.closed
  pub same_fin : s'.local_fin_sent ≡ s.local_fin_sent

abbrev pub Fits : (session : BaseConfig) (s s' : Stream) → Flushed session s s' → Type 0
Fits session s s' f =
    is session.smuxver 2 ≡ true
    → s.peer_window < 2 ^ 32
    → s.peer_consumed < 2 ^ 32
    → length f.sent + available_peer_window s' ≤ available_peer_window s

abbrev pub Moved : BaseConfig → Stream → Stream → Type 0
Moved session s s' = (f : Flushed session s s') × Fits session s s' f

module _ (session : BaseConfig) where
  pub stop : (s : Stream) → Moved session s s
  unfolding carried
  stop s = (
    record {
      sent = [];
      frames = [];
      queue = refl;
      cipher = encrypt-empty s.qpp;
      effects = sym (append-nil s.effects);
      sizes = tt;
      count = omega arith;
      same_id = refl;
      same_window = refl;
      same_consumed = refl;
      same_session = refl;
      same_closed = refl;
      same_fin = refl;
    },
    λ v w c. omega arith,
  )

  pub join : (s t u : Stream) → Moved session s t → Moved session t u → Moved session s u
  join s t u (f, fits) (g, gits) = (
    record {
      sent = f.sent ++ g.sent;
      frames = f.frames ++ g.frames;
      queue =
          f.queue
          ∙ ap (◌++◌ f.sent) g.queue
          ∙ sym (append_assoc f.sent g.sent (unsent u.pending_outbound));
      cipher =
          encrypt-append f.sent g.sent s.qpp
          ∙ ap (λ r. (r.0 ++ (encrypt g.sent r.1).0, (encrypt g.sent r.1).1)) f.cipher
          ∙ ap (λ r. (carried f.frames ++ r.0, r.1)) g.cipher
          ∙ ap (λ x. (x, u.qpp)) (sym (carried-append f.frames g.frames));
      effects =
          g.effects
          ∙ ap₂ (λ x i. x ++ frames_of i g.frames) f.effects f.same_id
          ∙ append_assoc s.effects (frames_of s.id f.frames) (frames_of s.id g.frames)
          ∙ ap (◌++◌ s.effects) (sym (frames_of-append s.id f.frames g.frames));
      sizes = All-append (IsFrame session) f.frames g.frames f.sizes g.sizes;
      count = omega (arith, length-append f.sent g.sent, f.count, g.count);
      same_id = g.same_id ∙ f.same_id;
      same_window = g.same_window ∙ f.same_window;
      same_consumed = g.same_consumed ∙ f.same_consumed;
      same_session = g.same_session ∙ f.same_session;
      same_closed = g.same_closed ∙ f.same_closed;
      same_fin = g.same_fin ∙ f.same_fin;
    },
    λ v w c. omega (
      arith,
      length-append f.sent g.sent,
      fits v w c,
      gits v (omega (arith, f.same_window)) (omega (arith, f.same_consumed)),
    ),
  )

pub chunk_size-bounds :
    (session : BaseConfig) (s : Stream) (remaining : ℕ)
    → (chunk_size session s remaining ≤ remaining)
      × (chunk_size session s remaining ≤ at_least_one session.framesize)
unfolding chunk_size
chunk_size-bounds session s remaining = (ground arith, ground arith)

chunk_size-window :
    (session : BaseConfig) (s : Stream) (remaining : ℕ)
    → is session.smuxver 2 ≡ true
    → chunk_size session s remaining ≤ available_peer_window s
unfolding chunk_size
chunk_size-window session s remaining v = ground arith

module _ (session : BaseConfig) (s : Stream) (front : Pending) (rest : List Pending) where
  abbrev chunk : ℕ → List ℕ
  chunk size = take size (drop front.offset front.bytes)

  send_chunk-window :
      (size : ℕ)
      → size ≤ available_peer_window s
      → s.peer_window < 2 ^ 32
      → s.peer_consumed < 2 ^ 32
      → size + available_peer_window (send_chunk size front rest s) ≤ available_peer_window s
  unfolding available_peer_window send_chunk
  send_chunk-window size h w c = ground arith

  size-chunk : (size : ℕ) → size ≤ length front.bytes - front.offset → length (chunk size) ≡ size
  size-chunk size h = omega (
    arith,
    length-take size (drop front.offset front.bytes),
    length-drop front.offset front.bytes,
  )

  pub pop-Moved :
      s.pending_outbound ≡ front ∷ rest
      → length front.bytes - front.offset ≡ 0
      → Moved session s (record s { pending_outbound = rest })
  unfolding unsent carried available_peer_window
  pop-Moved e h = (
    record {
      sent = [];
      frames = [];
      queue =
          ap unsent e
          ∙ ap (λ t. t ++ unsent rest) (drop-all front.offset front.bytes (omega arith));
      cipher = encrypt-empty s.qpp;
      effects = sym (append-nil s.effects);
      sizes = tt;
      count = omega arith;
      same_id = refl;
      same_window = refl;
      same_consumed = refl;
      same_session = refl;
      same_closed = refl;
      same_fin = refl;
    },
    λ v w c. omega arith,
  )

  pub send_chunk-Moved :
      (size : ℕ)
      → s.pending_outbound ≡ front ∷ rest
      → size ≡ chunk_size session s (length front.bytes - front.offset)
      → 0 < size
      → Moved session s (send_chunk size front rest s)
  unfolding unsent carried send_chunk
  send_chunk-Moved size e h pos = (
    record {
      sent = chunk size;
      frames = (encrypt (chunk size) s.qpp).0 ∷ [];
      queue =
          ap unsent e
          ∙ ap (λ t. t ++ unsent rest) (sym (take-append-drop size (drop front.offset front.bytes)))
          ∙ append_assoc (chunk size) (drop size (drop front.offset front.bytes)) (unsent rest)
          ∙ ap (λ t. chunk size ++ (t ++ unsent rest)) (drop-drop size front.offset front.bytes);
      cipher =
          ap (λ x. (x, (encrypt (chunk size) s.qpp).1))
            (sym (append-nil (encrypt (chunk size) s.qpp).0))
          ∙ ap (λ r. ((encrypt (chunk size) s.qpp).0 ++ [], r.1))
              (sym (encrypt-enabled (chunk size) s.qpp));
      effects =
          ap (λ r. s.effects ++ (send_frame psh s.id r.0 ∷ []))
            (encrypt-enabled (chunk size) s.qpp);
      sizes = ((omega (arith, size_lem, out_lem), omega (arith, size_lem, out_lem, bounds.1)), tt);
      count = omega (arith, size_lem);
      same_id = refl;
      same_window = refl;
      same_consumed = refl;
      same_session = refl;
      same_closed = refl;
      same_fin = refl;
    },
    λ v w c. omega (
      arith,
      size_lem,
      send_chunk-window size (omega (arith, chunk_size-window session s remaining v)) w c,
    ),
  )
    where
      remaining : ℕ
      remaining = length front.bytes - front.offset

      bounds :
          (chunk_size session s remaining ≤ remaining)
          × (chunk_size session s remaining ≤ at_least_one session.framesize)
      bounds = chunk_size-bounds session s remaining

      size_lem : length (chunk size) ≡ size
      size_lem = size-chunk size (omega (arith, bounds.0))

      out_lem : length (encrypt (chunk size) s.qpp).0 ≡ length (chunk size)
      out_lem = length-encrypt (chunk size) s.qpp
