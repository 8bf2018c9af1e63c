-- ===== src/Smux/Ending.antt =====
-- The FIN, the flush and the end of a `SmuxStream`, as steps.
use shimakaze.Common.{
  ℕ, Bool, true, false, not, ◌&&◌, ◌||◌, if◌then◌else◌, List, [], ◌∷◌, ◌++◌, Option, none, some,
  ◌≡◌, refl, ap, ◌∙◌, sym, subst, arith, append-nil, append_assoc,
}
use shimakaze.Config.Base.{BaseConfig}
use shimakaze.Smux.State.{
  Stream, send_frame, async_read, cancel_timers, close_socket, stream_closed, fin, emit, when,
  is_empty, has_pending_outbound,
}
use shimakaze.Smux.Outbound.{
  start_tcp_read, queue_outbound, flush_by, flush_loop, flush_fuel, try_flush_outbound,
}
use shimakaze.Smux.Flow.{Flushed, frames_of}
use shimakaze.Smux.Flush.{try_flush_outbound-Flushed}
use shimakaze.Smux.Stream.{
  send_local_fin, schedule_close_after_fin, maybe_finish, close, fail_and_close,
}
use shimakaze.Smux.Once.{Step, total, fin_of, end_of, bit, stay, join, quiet, ask, if-Step}

or_false : (a b : Bool) → (a || b) ≡ false → (a ≡ false) × (b ≡ false)
or_false true b h = absurd (omega (arith, ap bit h))
or_false false b h = (refl, h)

pub start_tcp_read-Step : (s : Stream) → Step s (start_tcp_read s)
unfolding start_tcp_read
start_tcp_read-Step s =
    if-Step (s.closed || not s.tcp_ready || s.local_fin_sent || has_pending_outbound s) s s
      (emit async_read s) (λ h. stay s) (λ h. ask async_read s refl refl refl)

pub queue_outbound-Step : (payload : List ℕ) (s : Stream) → Step s (queue_outbound payload s)
unfolding queue_outbound
queue_outbound-Step payload s =
    if-Step (is_empty payload) s s
      (record s {
        pending_outbound = s.pending_outbound ++ (record { bytes = payload; offset = 0 } ∷ []);
      })
      (λ h. stay s) (λ h. quiet s _ refl refl refl)

-- A FIN goes out once, where its flag was down.
fin-Step :
    (o : Option BaseConfig) (s : Stream)
    → s.local_fin_sent ≡ false
    → s.closed ≡ false
    → Step s (elim o [
      | none ↦ record s { local_fin_sent = true }
      | some session ↦ emit (send_frame fin s.id []) (record s { local_fin_sent = true })
    ])
unfolding total
fin-Step none s f c = record {
  new = [];
  effects = sym (append-nil s.effects);
  fins = omega (arith, ap bit f);
  ends = omega arith;
  silent = λ h. refl;
}
fin-Step (some session) s f c = record {
  new = send_frame fin s.id [] ∷ [];
  effects = refl;
  fins = omega (arith, ap bit f);
  ends = omega arith;
  silent = λ h. absurd (omega (arith, ap bit h, ap bit c));
}

pub send_local_fin-Step : (s : Stream) → Step s (send_local_fin s)
unfolding send_local_fin
send_local_fin-Step s =
    if-Step (s.local_fin_sent || s.closed) s s _ (λ h. stay s)
      (λ h. let (f, c) = or_false s.local_fin_sent s.closed h in fin-Step s.session s f c)

pub maybe_finish-Step : (s : Stream) → Step s (maybe_finish s)
unfolding maybe_finish schedule_close_after_fin
maybe_finish-Step s =
    if-Step s.closed s s _ (λ h. stay s)
      (λ h.
        if-Step
          (s.local_fin_sent
            && s.remote_fin_received
            && is_empty s.pending_tcp_writes
            && not s.tcp_write_active
            && is_empty s.pending_outbound)
          s _ s (λ a. ask _ s refl refl refl) (λ a. stay s))

frames_of-totals :
    (id : ℕ) (frames : List (List ℕ))
    → (total fin_of (frames_of id frames) ≡ 0) × (total end_of (frames_of id frames) ≡ 0)
unfolding total
frames_of-totals id [] = (refl, refl)
frames_of-totals id (f ∷ fs) =
    let (a, b) = frames_of-totals id fs in (omega (arith, a), omega (arith, b))

flushed-Step :
    (session : BaseConfig) (s s' : Stream) → Flushed session s s' → s.closed ≡ false → Step s s'
flushed-Step session s s' f c = record {
  new = frames_of s.id f.frames;
  effects = f.effects;
  fins = omega (arith, (frames_of-totals s.id f.frames).0, ap bit f.same_fin);
  ends = omega (arith, (frames_of-totals s.id f.frames).1, ap bit f.same_closed);
  silent = λ h. absurd (omega (arith, ap bit h, ap bit c));
}

pub try_flush_outbound-Step : (s : Stream) → Step s (try_flush_outbound s)
unfolding try_flush_outbound
try_flush_outbound-Step s = go s.session refl
  where
    flush_by_open :
        (session : BaseConfig)
        → s.session ≡ some session
        → s.closed ≡ false
        → try_flush_outbound s
          ≡ flush_loop (flush_fuel s.pending_outbound) session s.pending_outbound s
    flush_by_open session e h =
        ap (λ o. flush_by o s) e
        ∙ ap
            (λ b.
              if b
              then s
              else flush_loop (flush_fuel s.pending_outbound) session s.pending_outbound s)
            h

    go : (o : Option BaseConfig) → s.session ≡ o → Step s (flush_by o s)
    go none e = stay s
    go (some session) e =
        if-Step s.closed s s _ (λ h. stay s)
          (λ h.
            flushed-Step session s _
              (subst (Flushed session s) (flush_by_open session e h)
                (try_flush_outbound-Flushed s e))
              h)

-- The last part of `close`, behind its guard and the FIN.
ending-Step :
    (o : Option BaseConfig) (b : Bool) (s : Stream)
    → s.closed ≡ false
    → Step s (
        let s' = emit cancel_timers (record s { closed = true }) in
        let s'' = when b (emit close_socket) (record s' { socket_open = false }) in
        elim o [ none ↦ s'' | some session ↦ emit (stream_closed s.id) s'' ])
unfolding total
ending-Step none false s c = record {
  new = cancel_timers ∷ [];
  effects = refl;
  fins = omega arith;
  ends = omega (arith, ap bit c);
  silent = λ h. refl;
}
ending-Step none true s c = record {
  new = cancel_timers ∷ close_socket ∷ [];
  effects = append_assoc s.effects (cancel_timers ∷ []) (close_socket ∷ []);
  fins = omega arith;
  ends = omega (arith, ap bit c);
  silent = λ h. refl;
}
ending-Step (some session) false s c = record {
  new = cancel_timers ∷ stream_closed s.id ∷ [];
  effects = append_assoc s.effects (cancel_timers ∷ []) (stream_closed s.id ∷ []);
  fins = omega arith;
  ends = omega (arith, ap bit c);
  silent = λ h. refl;
}
ending-Step (some session) true s c = record {
  new = cancel_timers ∷ close_socket ∷ stream_closed s.id ∷ [];
  effects =
      ap (λ x. x ++ (stream_closed s.id ∷ []))
        (append_assoc s.effects (cancel_timers ∷ []) (close_socket ∷ []))
      ∙ append_assoc s.effects (cancel_timers ∷ close_socket ∷ []) (stream_closed s.id ∷ []);
  fins = omega arith;
  ends = omega (arith, ap bit c);
  silent = λ h. refl;
}

send_local_fin-keeps :
    (s : Stream)
    → s.closed ≡ false
    → ((send_local_fin s).closed ≡ false) × ((send_local_fin s).id ≡ s.id)
unfolding send_local_fin
send_local_fin-keeps s c = go (s.local_fin_sent || s.closed) s.session
  where
    go :
        (b : Bool) (o : Option BaseConfig)
        → let t = if b then s else elim o [
          | none ↦ record s { local_fin_sent = true }
          | some session ↦ emit (send_frame fin s.id []) (record s { local_fin_sent = true })
        ] in
          (t.closed ≡ false) × (t.id ≡ s.id)
    go true o = (c, refl)
    go false none = (c, refl)
    go false (some session) = (c, refl)

pub close-Step : (s : Stream) → Step s (close s)
unfolding close
close-Step s =
    if-Step s.closed s s _ (λ h. stay s)
      (λ h. join s (send_local_fin s) _ (send_local_fin-Step s) (
        ending-Step s.session (send_local_fin s).socket_open (send_local_fin s)
          (send_local_fin-keeps s h).0))

pub fail_and_close-Step : (s : Stream) → Step s (fail_and_close s)
unfolding fail_and_close
fail_and_close-Step s = close-Step s
