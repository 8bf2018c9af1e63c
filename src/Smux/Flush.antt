-- ===== src/Smux/Flush.antt =====
-- The loop of `try_flush_outbound`: what it sends, that it stays in the window, and where it stops.
use shimakaze.Common.{
  ap, ◌∙◌, if◌then◌else◌, ℕ, zero, suc, ◌+◌, ◌-◌, ◌^◌, ◌≤◌, ◌<◌, true, false, ◌==◌, List, [], ◌∷◌,
  some, length, ◌≡◌, refl, sym, arith, ◌⊎◌, inl, inr, subst, Bool-cases,
}
use shimakaze.Common.Int.{is}
use shimakaze.Config.Base.{BaseConfig}
use shimakaze.Smux.State.{Pending, Stream}
use shimakaze.Smux.Outbound.{
  available_peer_window, send_chunk, chunk_size, flush_by, flush_loop, flush_fuel,
  try_flush_outbound,
}
use shimakaze.Smux.Flow.{Flushed, Moved, stop, join, pop-Moved, send_chunk-Moved, chunk_size-bounds}

send_chunk-queue :
    (k : ℕ) (s : Stream) (front : Pending) (rest : List Pending)
    → (send_chunk k front rest s).pending_outbound
      ≡ record front { offset = front.offset + k } ∷ rest
unfolding send_chunk
send_chunk-queue k s front rest = refl

-- The three ends of a round.
module _ (fuel : ℕ) (session : BaseConfig) (front : Pending) (rest : List Pending)
    (s : Stream) where
  abbrev round_size : ℕ
  round_size = chunk_size session s (length front.bytes - front.offset)

  abbrev popped : Stream
  popped = record s { pending_outbound = rest }

  abbrev later : List Pending
  later = record front { offset = front.offset + round_size } ∷ rest

  abbrev next : Stream
  next = send_chunk round_size front rest s

  flush_loop-popped :
      (length front.bytes - front.offset == 0) ≡ true
      → flush_loop (suc fuel) session (front ∷ rest) s ≡ flush_loop fuel session rest popped
  unfolding flush_loop
  flush_loop-popped z = rw z refl

  flush_loop-shut :
      (length front.bytes - front.offset == 0) ≡ false
      → (round_size == 0) ≡ true
      → flush_loop (suc fuel) session (front ∷ rest) s ≡ s
  unfolding flush_loop
  flush_loop-shut nz z = rw nz (rw z refl)

  flush_loop-sent :
      (length front.bytes - front.offset == 0) ≡ false
      → (round_size == 0) ≡ false
      → flush_loop (suc fuel) session (front ∷ rest) s ≡ flush_loop fuel session later next
  unfolding flush_loop
  flush_loop-sent nz pos = rw nz (rw pos refl)

flush_loop-Moved :
    (fuel : ℕ) (session : BaseConfig) (pending : List Pending) (s : Stream)
    → s.pending_outbound ≡ pending
    → Moved session s (flush_loop fuel session pending s)
unfolding flush_loop
flush_loop-Moved zero session pending s e = stop session s
flush_loop-Moved (suc fuel) session [] s e = stop session s
flush_loop-Moved (suc fuel) session (front ∷ rest) s e =
    elim (Bool-cases (length front.bytes - front.offset == 0)) [
      | inl z ↦ subst (Moved session s) (sym (flush_loop-popped fuel session front rest s z)) (
          join session s now (flush_loop fuel session rest now)
            (pop-Moved session s front rest e (ground arith))
            (flush_loop-Moved fuel session rest now refl))
      | inr nz ↦ elim (Bool-cases (size == 0)) [
        | inl z ↦
            subst (Moved session s) (sym (flush_loop-shut fuel session front rest s nz z))
              (stop session s)
        | inr pos ↦
            subst (Moved session s) (sym (flush_loop-sent fuel session front rest s nz pos)) (
              join session s onward (flush_loop fuel session queue onward)
                (send_chunk-Moved session s front rest size e refl (ground arith))
                (flush_loop-Moved fuel session queue onward (send_chunk-queue size s front rest)))
      ]
    ]
  where
    size : ℕ
    size = round_size fuel session front rest s

    now : Stream
    now = popped fuel session front rest s

    onward : Stream
    onward = next fuel session front rest s

    queue : List Pending
    queue = later fuel session front rest s

-- Enough fuel: the loop ends with the queue empty or with nothing that it may send.
abbrev pub Idle : BaseConfig → Stream → Type 0
Idle session s =
    (s.pending_outbound ≡ []) ⊎ ((is session.smuxver 2 ≡ true) × (available_peer_window s ≡ 0))

shut_lem :
    (session : BaseConfig) (s : Stream) (remaining : ℕ)
    → (remaining == 0) ≡ false
    → (chunk_size session s remaining == 0) ≡ true
    → (is session.smuxver 2 ≡ true) × (available_peer_window s ≡ 0)
unfolding chunk_size
shut_lem session s remaining nz z = (ground arith, ground arith)

flush_loop-Idle :
    (fuel : ℕ) (session : BaseConfig) (pending : List Pending) (s : Stream)
    → s.pending_outbound ≡ pending
    → flush_fuel pending ≤ fuel
    → Idle session (flush_loop fuel session pending s)
unfolding flush_loop
flush_loop-Idle zero session [] s e enough = absurd (omega arith)
flush_loop-Idle zero session (front ∷ rest) s e enough = absurd (omega arith)
flush_loop-Idle (suc fuel) session [] s e enough = inl e
flush_loop-Idle (suc fuel) session (front ∷ rest) s e enough =
    elim (Bool-cases (length front.bytes - front.offset == 0)) [
      | inl z ↦
          subst (Idle session) (sym (flush_loop-popped fuel session front rest s z)) (
            flush_loop-Idle fuel session rest (popped fuel session front rest s) refl (omega arith))
      | inr nz ↦ elim (Bool-cases (size == 0)) [
        | inl z ↦
            subst (Idle session) (sym (flush_loop-shut fuel session front rest s nz z))
              (inr (shut_lem session s (length front.bytes - front.offset) nz z))
        | inr pos ↦ subst (Idle session) (sym (flush_loop-sent fuel session front rest s nz pos)) (
            flush_loop-Idle fuel session (later fuel session front rest s)
              (next fuel session front rest s) (send_chunk-queue size s front rest)
              (omega (
                arith,
                chunk_size-bounds session s (length front.bytes - front.offset),
                positive pos,
              )))
      ]
    ]
  where
    size : ℕ
    size = round_size fuel session front rest s

    positive : (size == 0) ≡ false → 0 < size
    positive h = ground arith

module _ (s : Stream) {session : BaseConfig} (alive : s.session ≡ some session) where
  abbrev after : Stream
  after = flush_loop (flush_fuel s.pending_outbound) session s.pending_outbound s

  try_flush_outbound-open : s.closed ≡ false → try_flush_outbound s ≡ after
  unfolding try_flush_outbound
  try_flush_outbound-open open' =
      ap (λ o. flush_by o s) alive ∙ ap (λ b. if b then s else after) open'

  try_flush_outbound-closed : s.closed ≡ true → try_flush_outbound s ≡ s
  unfolding try_flush_outbound
  try_flush_outbound-closed shut =
      ap (λ o. flush_by o s) alive ∙ ap (λ b. if b then s else after) shut

  try_flush_outbound-Moved : Moved session s (try_flush_outbound s)
  try_flush_outbound-Moved = elim (Bool-cases s.closed) [
    | inl shut ↦ subst (Moved session s) (sym (try_flush_outbound-closed shut)) (stop session s)
    | inr open' ↦
        subst (Moved session s) (sym (try_flush_outbound-open open'))
          (flush_loop-Moved (flush_fuel s.pending_outbound) session s.pending_outbound s refl)
  ]

-- A call with the session alive takes a prefix `sent` of the waiting bytes off the queue and sends
-- exactly its encryption, in order, in data frames of this stream with 1 to `framesize` bytes each,
-- as the only calls it makes; it advances the cipher past `sent`, counts its bytes in `num_written`
-- and leaves the rest of the queue waiting.
pub try_flush_outbound-Flushed :
    (s : Stream) {session : BaseConfig}
    → s.session ≡ some session
    → Flushed session s (try_flush_outbound s)
try_flush_outbound-Flushed s alive = (try_flush_outbound-Moved s alive).0

-- With the session alive, a version 2 peer, and its window and counter in their 32 bits, the bytes
-- that a call sends and the room that is left after them are within the room that the window had.
pub try_flush_outbound-window :
    (s : Stream) {session : BaseConfig}
    → s.session ≡ some session
    → is session.smuxver 2 ≡ true
    → s.peer_window < 2 ^ 32
    → s.peer_consumed < 2 ^ 32
    → (f : Flushed session s (try_flush_outbound s)) × (length f.sent
          + available_peer_window (try_flush_outbound s)
        ≤ available_peer_window s)
try_flush_outbound-window s alive v w c =
    let (f, fits) = try_flush_outbound-Moved s alive in (f, fits v w c)

-- In a stream that is open, with the session alive, the loop ends, and only when the queue is empty
-- or, with a version 2 peer, no room is left in the window.
pub try_flush_outbound-Idle :
    (s : Stream) {session : BaseConfig}
    → s.session ≡ some session
    → s.closed ≡ false
    → Idle session (try_flush_outbound s)
try_flush_outbound-Idle s {session} alive open' =
    subst (Idle session) (sym (try_flush_outbound-open s alive open')) (
      flush_loop-Idle (flush_fuel s.pending_outbound) session s.pending_outbound s refl
        (omega arith))
