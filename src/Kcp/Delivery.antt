-- ===== src/Kcp/Delivery.antt =====
-- The payloads of a peer's data frames reach the queue of TCP writes, whole and in order.
use shimakaze.Common.{
  either, ℕ, zero, suc, ◌<◌, ◌≤◌, Bool, true, false, not, ◌||◌, if◌then◌else◌, List, [], ◌∷◌, ◌++◌,
  map, concat, length, All, ◌≡◌, refl, ap, ◌∙◌, sym, subst, arith, length-append, append_assoc,
  append-nil,
}
use shimakaze.Crypto.Packet.{Library}
use shimakaze.Smux.State.{is_empty}
use shimakaze.Kcp.State.{Ikcp, Core, Session, async_write, emit, data'}
use shimakaze.Kcp.Frame.{type_byte, max_frame_payload, make_frame, read_frame}
use shimakaze.Kcp.Parse.{read_frame-make_frame}
use shimakaze.Kcp.Stream.{flush_tcp_writes, enqueue_tcp_write, handle_data_frame}
use shimakaze.Kcp.Session.{handle_frame, round, parse_loop, parse_frames, receive}
use shimakaze.Kcp.Consume.{loop-open}
use shimakaze.Kcp.Pieces.{receive-append}

-- The bytes of data frames with these payloads.
unfoldable pub all_frames : List (List ℕ) → List ℕ
all_frames payloads = concat (map (make_frame data') payloads)

unfoldable pub without_empty : List (List ℕ) → List (List ℕ)
without_empty [] = []
without_empty (p ∷ ps) = let rest = without_empty ps in if is_empty p then rest else p ∷ rest

-- A session that is open, with no bytes over, and with the payloads behind what waited.
unfoldable pub DeliveredTo : {K : Type 0} → List (List ℕ) → Session K → Session K → Type 0
DeliveredTo payloads s s' =
    ((s'.core).closing ≡ false)
    × (s'.stream_buffer ≡ [])
    × ((s'.core).pending_tcp_writes ≡ (s.core).pending_tcp_writes ++ without_empty payloads)

module _ {K : Type 0} (crypto : Library) (ikcp : Ikcp K) where
  -- A state that is open, with this queue.
  pub record Holds (queue : List (List ℕ)) (s : Core K) : Type 0 where
    pub open_still : s.closing ≡ false
    pub queued : s.pending_tcp_writes ≡ queue

  flush-Holds :
      (q : List (List ℕ)) (s : Core K) → Holds q s → Holds q (flush_tcp_writes crypto ikcp s)
  unfolding flush_tcp_writes
  flush-Holds q s h =
      either (Holds q) (s.closing || not s.tcp_ready || s.tcp_write_active) s _ h
        (go s.pending_tcp_writes)
    where
      go :
          (pending : List (List ℕ))
          → Holds q (elim pending as (λ p. Core K) [
            | [] ↦ s
            | front ∷ rest ↦ emit (async_write front) (record s { tcp_write_active = true })
          ])
      go [] = h
      go (front ∷ rest) = record { open_still = h.open_still; queued = h.queued }

  handle_data_frame-Holds :
      (q : List (List ℕ)) (payload : List ℕ) (s : Core K)
      → Holds q s
      → Holds (q ++ without_empty (payload ∷ [])) (handle_data_frame crypto ikcp payload s)
  unfolding handle_data_frame enqueue_tcp_write without_empty
  handle_data_frame-Holds q payload s h = go (is_empty payload)
    where
      go :
          (b : Bool)
          → Holds (q ++ (if b then [] else payload ∷ [])) (
              if b
              then s
              else flush_tcp_writes crypto ikcp
                  (record s { pending_tcp_writes = s.pending_tcp_writes ++ (payload ∷ []) }))
      go true = record { open_still = h.open_still; queued = h.queued ∙ sym (append-nil q) }
      go false =
          flush-Holds (q ++ (payload ∷ [])) _
            (record { open_still = h.open_still; queued = ap (λ p. p ++ (payload ∷ [])) h.queued })

  make_frame-pos : (p : List ℕ) → 0 < length (make_frame data' p)
  unfolding make_frame
  make_frame-pos p = omega arith

  -- What KCP gives, in pieces.
  unfoldable pub receive_all : List (List ℕ) → Session K → Session K
  receive_all [] s = s
  receive_all (piece ∷ pieces) s = receive_all pieces (receive crypto ikcp piece s)

  -- Pieces behind some bytes, all at once.
  receive_all-concat :
      (pieces : List (List ℕ)) (bytes : List ℕ) (s : Session K)
      → receive_all pieces (receive crypto ikcp bytes s)
        ≡ receive crypto ikcp (bytes ++ concat pieces) s
  unfolding receive_all
  receive_all-concat [] bytes s = ap (λ b. receive crypto ikcp b s) (sym (append-nil bytes))
  receive_all-concat (piece ∷ pieces) bytes s =
      ap (receive_all pieces) (sym (receive-append crypto ikcp bytes piece s))
      ∙ receive_all-concat pieces (bytes ++ piece) s
      ∙ ap (λ b. receive crypto ikcp b s) (append_assoc bytes piece (concat pieces))

  without_empty-cons :
      (p : List ℕ) (ps : List (List ℕ))
      → without_empty (p ∷ []) ++ without_empty ps ≡ without_empty (p ∷ ps)
  unfolding without_empty
  without_empty-cons [] ps = refl
  without_empty-cons (b ∷ bs) ps = refl

  Delivered : List (List ℕ) → List ℕ × Core K → Type 0
  Delivered q r = (r.0 ≡ []) × Holds q r.1

  loop-Delivered :
      (payloads q : List (List ℕ)) (fuel : ℕ) (s : Core K)
      → Holds q s
      → All (λ p. length p ≤ max_frame_payload) payloads
      → length (all_frames payloads) < fuel
      → Delivered
          (q ++ without_empty payloads)
          (parse_loop crypto ikcp fuel (all_frames payloads) s)
  unfolding Delivered all_frames without_empty read_frame round handle_frame type_byte
  loop-Delivered [] q zero s h small enough = absurd (omega arith)
  loop-Delivered [] q (suc fuel) s h small enough =
      subst (Delivered (q ++ [])) (sym (loop-open crypto ikcp fuel [] s h.open_still))
        (refl, record { open_still = h.open_still; queued = h.queued ∙ sym (append-nil q) })
  loop-Delivered (p ∷ ps) q zero s h small enough = absurd (omega arith)
  loop-Delivered (p ∷ ps) q (suc fuel) s h small enough =
      let rest = all_frames ps in
      let first =
        loop-open crypto ikcp fuel (make_frame data' p ++ rest) s h.open_still
        ∙ ap (round crypto ikcp (parse_loop crypto ikcp fuel) (make_frame data' p ++ rest) s)
            (read_frame-make_frame data' p rest small.0) in
      let later =
        loop-Delivered ps (q ++ without_empty (p ∷ [])) fuel (handle_data_frame crypto ikcp p s)
          (handle_data_frame-Holds q p s h) small.1
          (omega (arith, length-append (make_frame data' p) rest, make_frame-pos p)) in
      subst (Delivered (q ++ without_empty (p ∷ ps))) (sym first) (
        subst
          (λ x. Delivered x (parse_loop crypto ikcp fuel rest (handle_data_frame crypto ikcp p s)))
          (append_assoc q (without_empty (p ∷ [])) (without_empty ps)
            ∙ ap (◌++◌ q) (without_empty-cons p ps))
          later)

  receive-frames :
      (payloads : List (List ℕ)) (s : Session K)
      → (s.core).closing ≡ false
      → s.stream_buffer ≡ []
      → All (λ p. length p ≤ max_frame_payload) payloads
      → DeliveredTo payloads s (receive crypto ikcp (all_frames payloads) s)
  unfolding receive parse_frames Delivered DeliveredTo
  receive-frames payloads s still empty small =
      let r =
        subst
          (λ (b : List ℕ).
            Delivered ((s.core).pending_tcp_writes ++ without_empty payloads)
              (parse_loop crypto ikcp (suc (length b)) b s.core))
          (ap (λ b. b ++ all_frames payloads) (sym empty))
          (loop-Delivered payloads (s.core).pending_tcp_writes (suc (length (all_frames payloads)))
            s.core (record { open_still = still; queued = refl }) small (omega arith)) in
      (r.1.open_still, r.0, r.1.queued)

  no_frames : (payloads : List (List ℕ)) → [] ≡ all_frames payloads → without_empty payloads ≡ []
  unfolding all_frames without_empty
  no_frames [] e = refl
  no_frames (p ∷ ps) e = absurd (
      omega
        (arith, ap length e, length-append (make_frame data' p) (all_frames ps), make_frame-pos p))

  -- The bytes of data frames, each within the limit, that come to an open session in pieces of any sizes: the
  -- session stays open, no bytes are left over, and behind what waited, the queue of TCP writes has the
  -- payloads in order, without the empty ones.
  pub receive_all-frames :
      (payloads pieces : List (List ℕ)) (s : Session K)
      → (s.core).closing ≡ false
      → s.stream_buffer ≡ []
      → All (λ p. length p ≤ max_frame_payload) payloads
      → concat pieces ≡ all_frames payloads
      → DeliveredTo payloads s (receive_all pieces s)
  unfolding receive_all DeliveredTo
  receive_all-frames payloads [] s still empty small cut = (
    still,
    empty,
    sym (
        ap (λ q. (s.core).pending_tcp_writes ++ q) (no_frames payloads cut)
        ∙ append-nil (s.core).pending_tcp_writes),
  )
  receive_all-frames payloads (piece ∷ pieces) s still empty small cut =
      subst (DeliveredTo payloads s)
        (sym (receive_all-concat pieces piece s ∙ ap (λ b. receive crypto ikcp b s) cut))
        (receive-frames payloads s still empty small)
