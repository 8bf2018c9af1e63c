-- ===== src/Transport/Pacing.antt =====
-- The queue of a `KcpTransport` under a rate limit: its order, and its timer.
use shimakaze.Common.{
  either, ℕ, ◌+◌, max, not, ◌||◌, Bool, true, false, if◌then◌else◌, List, [], ◌∷◌, ◌++◌, length,
  ◌≡◌, ◌⊎◌, inl, inr, refl, ap, ◌∙◌, sym, arith, append-nil, append_assoc,
}
use shimakaze.Common.Int.{below}
use shimakaze.Transport.State.{
  Effect, send_to, start_update_timer, start_rate_timer, cancel_timers, close_handler, Transport,
  emit,
}
use shimakaze.Transport.Sending.{
  schedule_rate_limited_send, on_rate_timer, enqueue_udp_packet, delay_us,
}

-- The packets given to the socket.
unfoldable pub sent_of : List Effect → List (List ℕ)
sent_of [] = []
sent_of (send_to payload ∷ effects) = payload ∷ sent_of effects
sent_of (start_update_timer n ∷ effects) = sent_of effects
sent_of (start_rate_timer n ∷ effects) = sent_of effects
sent_of (cancel_timers ∷ effects) = sent_of effects
sent_of (close_handler ∷ effects) = sent_of effects

-- A packet from the codec, or the end of a wait; `ended` is the wait's error code.
pub data Step : Type 0 where
  packet : ℕ → List ℕ → Step
  waited : Bool → ℕ → Step

sent_of-append : (xs ys : List Effect) → sent_of (xs ++ ys) ≡ sent_of xs ++ sent_of ys
unfolding sent_of
sent_of-append [] ys = refl
sent_of-append (send_to payload ∷ xs) ys = ap (◌∷◌ payload) (sent_of-append xs ys)
sent_of-append (start_update_timer n ∷ xs) ys = sent_of-append xs ys
sent_of-append (start_rate_timer n ∷ xs) ys = sent_of-append xs ys
sent_of-append (cancel_timers ∷ xs) ys = sent_of-append xs ys
sent_of-append (close_handler ∷ xs) ys = sent_of-append xs ys

unfoldable pub packets_of : List Step → List (List ℕ)
packets_of [] = []
packets_of (packet now payload ∷ steps) = payload ∷ packets_of steps
packets_of (waited ok now ∷ steps) = packets_of steps

packets_of-cons :
    (step : Step) (steps : List Step)
    → packets_of (step ∷ []) ++ packets_of steps ≡ packets_of (step ∷ steps)
unfolding packets_of
packets_of-cons (packet now payload) steps = refl
packets_of-cons (waited ok now) steps = refl

module _ {K O : Type 0} where
  unfoldable pub take_step : Step → Transport K O → Transport K O
  take_step (packet now payload) s = enqueue_udp_packet now payload s
  take_step (waited ok now) s = on_rate_timer ok now s

  unfoldable pub take_steps : List Step → Transport K O → Transport K O
  unfolding take_step
  take_steps [] s = s
  take_steps (step ∷ steps) s = take_steps steps (take_step step s)

  -- What has gone out, and what is to go out, in order.
  unfoldable pub outgoing : Transport K O → List (List ℕ)
  outgoing s = sent_of s.effects ++ s.pending_udp

  -- Without a limit nothing waits.
  unfoldable pub IsDirect : Transport K O → Type 0
  IsDirect s = (below s.config.ratelimit 1 ≡ false) ⊎ (s.pending_udp ≡ [])

  -- `t` is `s` with these packets behind what is to go out.
  record Goes (more : List (List ℕ)) (s t : Transport K O) : Type 0 where
    limit : t.config ≡ s.config
    order : outgoing t ≡ outgoing s ++ more
    direct : IsDirect t

  schedule-Goes :
      (now : ℕ) (more : List (List ℕ)) (s t : Transport K O)
      → Goes more s t
      → Goes more s (schedule_rate_limited_send now t)
  unfolding schedule_rate_limited_send outgoing IsDirect sent_of
  schedule-Goes now more s t h =
      either (Goes more s) _ t
        (emit (start_rate_timer (max t.next_tx_time now))
          (record t { rate_send_active = true; next_tx_time = max t.next_tx_time now }))
        h
        (record {
          limit = h.limit;
          order =
              ap (λ q. q ++ t.pending_udp)
                (sent_of-append t.effects (start_rate_timer (max t.next_tx_time now) ∷ [])
                  ∙ append-nil (sent_of t.effects))
              ∙ h.order;
          direct = h.direct;
        })

  sent-Goes :
      (payload : List ℕ) (s t : Transport K O)
      → t.effects ≡ s.effects ++ (send_to payload ∷ [])
      → sent_of t.effects ++ t.pending_udp ≡ sent_of s.effects ++ (payload ∷ t.pending_udp)
  unfolding sent_of
  sent-Goes payload s t f =
      ap (λ x. x ++ t.pending_udp) (ap sent_of f ∙ sent_of-append s.effects (send_to payload ∷ []))
      ∙ append_assoc (sent_of s.effects) (payload ∷ []) t.pending_udp

  enqueue-Goes :
      (now : ℕ) (payload : List ℕ) (s : Transport K O)
      → IsDirect s
      → Goes (payload ∷ []) s (enqueue_udp_packet now payload s)
  unfolding enqueue_udp_packet outgoing IsDirect
  enqueue-Goes now payload s h = go (below s.config.ratelimit 1) refl
    where
      queued : Transport K O
      queued = record s { pending_udp = s.pending_udp ++ (payload ∷ []) }

      unlimited : IsDirect s → below s.config.ratelimit 1 ≡ true → s.pending_udp ≡ []
      unlimited (inl limited) e = absurd (ground (arith, limited, e))
      unlimited (inr empty) e = empty

      go :
          (b : Bool)
          → below s.config.ratelimit 1 ≡ b
          → Goes
              (payload ∷ [])
              s
              (if b then emit (send_to payload) s else schedule_rate_limited_send now queued)
      go true e = record {
        limit = refl;
        order =
            sent-Goes payload s (emit (send_to payload) s) refl
            ∙ ap (λ q. sent_of s.effects ++ (payload ∷ q)) (unlimited h e)
            ∙ ap (λ x. x ++ (payload ∷ []))
                (sym (
                  ap (λ q. sent_of s.effects ++ q) (unlimited h e)
                  ∙ append-nil (sent_of s.effects)));
        direct = inr (unlimited h e);
      }
      go false e = schedule-Goes now (payload ∷ []) s queued (record {
        limit = refl;
        order = sym (append_assoc (sent_of s.effects) s.pending_udp (payload ∷ []));
        direct = inl e;
      })

  on_rate_timer-Goes :
      (ok : Bool) (now : ℕ) (s : Transport K O) → IsDirect s → Goes [] s (on_rate_timer ok now s)
  unfolding on_rate_timer outgoing IsDirect
  on_rate_timer-Goes ok now s h =
      either (Goes [] s) (not ok || s.closing) idle _ nothing (go s.pending_udp refl h)
    where
      idle : Transport K O
      idle = record s { rate_send_active = false }

      nothing : Goes [] s idle
      nothing = record { limit = refl; order = sym (append-nil (outgoing s)); direct = h }

      popped : List ℕ → List (List ℕ) → Transport K O
      popped payload rest = emit (send_to payload) (record idle {
        pending_udp = rest;
        next_tx_time = max s.next_tx_time now + max 1 (delay_us s (length payload));
      })

      go :
          (pending : List (List ℕ))
          → s.pending_udp ≡ pending
          → IsDirect s
          → Goes [] s (elim pending as (λ p. Transport K O) [
            | [] ↦ idle
            | payload ∷ rest ↦ schedule_rate_limited_send now (popped payload rest)
          ])
      go [] e d = nothing
      go (payload ∷ rest) e (inr empty) = absurd (omega (arith, ap length (sym e ∙ empty)))
      go (payload ∷ rest) e (inl limited) = schedule-Goes now [] s (popped payload rest) (record {
        limit = refl;
        order =
            sent-Goes payload s (popped payload rest) refl
            ∙ ap (λ q. sent_of s.effects ++ q) (sym e)
            ∙ sym (append-nil (outgoing s));
        direct = inl limited;
      })

  take_step-Goes :
      (step : Step) (s : Transport K O)
      → IsDirect s
      → Goes (packets_of (step ∷ [])) s (take_step step s)
  unfolding take_step packets_of
  take_step-Goes (packet now payload) s h = enqueue-Goes now payload s h
  take_step-Goes (waited ok now) s h = on_rate_timer-Goes ok now s h

  -- Under any limit, and for any sequence of packets and of waits that end, with an error or without: what has
  -- gone to the socket followed by what waits is what it was, followed by the new packets in their order, so
  -- that none is lost, doubled or overtaken. For a transport that has nothing waiting when it has no limit.
  pub take_steps-outgoing :
      (steps : List Step) (s : Transport K O)
      → IsDirect s
      → outgoing (take_steps steps s) ≡ outgoing s ++ packets_of steps
  unfolding take_steps
  take_steps-outgoing [] s h = unfold packets_of in sym (append-nil (outgoing s))
  take_steps-outgoing (step ∷ steps) s h =
      let one = take_step-Goes step s h in
      take_steps-outgoing steps (take_step step s) one.direct
      ∙ ap (λ q. q ++ packets_of steps) one.order
      ∙ append_assoc (outgoing s) (packets_of (step ∷ [])) (packets_of steps)
      ∙ ap (λ q. outgoing s ++ q) (packets_of-cons step steps)
