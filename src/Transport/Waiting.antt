-- ===== src/Transport/Waiting.antt =====
-- No packet of a `KcpTransport` waits without a timer.
use shimakaze.Common.{
  ℕ, suc, ◌+◌, ◌<◌, max, ◌||◌, Bool, true, false, if◌then◌else◌, List, [], ◌∷◌, ◌++◌, length, ◌≡◌,
  ◌⊎◌, inl, inr, refl, sym, ◌∙◌, subst, arith,
}
use shimakaze.Common.Int.{below}
use shimakaze.Smux.State.{is_empty}
use shimakaze.Transport.State.{
  Effect, send_to, start_update_timer, start_rate_timer, cancel_timers, close_handler, Transport,
  emit,
}
use shimakaze.Transport.Sending.{
  schedule_rate_limited_send, on_rate_timer, enqueue_udp_packet, delay_us,
}
use shimakaze.Transport.Pacing.{Step, packet, waited, take_step, take_steps}

-- The waits of `rate_timer_` that were started.
unfoldable pub starts_of : List Effect → ℕ
starts_of [] = 0
starts_of (send_to payload ∷ effects) = starts_of effects
starts_of (start_update_timer n ∷ effects) = starts_of effects
starts_of (start_rate_timer n ∷ effects) = suc (starts_of effects)
starts_of (cancel_timers ∷ effects) = starts_of effects
starts_of (close_handler ∷ effects) = starts_of effects

starts_of-append : (xs ys : List Effect) → starts_of (xs ++ ys) ≡ starts_of xs + starts_of ys
unfolding starts_of
starts_of-append [] ys = omega arith
starts_of-append (send_to payload ∷ xs) ys = starts_of-append xs ys
starts_of-append (start_update_timer n ∷ xs) ys = starts_of-append xs ys
starts_of-append (start_rate_timer n ∷ xs) ys = omega (arith, starts_of-append xs ys)
starts_of-append (cancel_timers ∷ xs) ys = starts_of-append xs ys
starts_of-append (close_handler ∷ xs) ys = starts_of-append xs ys

-- The waits that ended.
unfoldable pub ends_of : List Step → ℕ
ends_of [] = 0
ends_of (packet now payload ∷ steps) = ends_of steps
ends_of (waited ok now ∷ steps) = suc (ends_of steps)

module _ {K O : Type 0} where
  abbrev Flagged : ℕ → Transport K O → Type 0
  Flagged ended s =
      ((s.rate_send_active ≡ true) × (starts_of s.effects ≡ suc ended))
      ⊎ ((s.rate_send_active ≡ false) × (starts_of s.effects ≡ ended))

  -- After `ended` waits: `rate_send_active_` tells whether another one was started, and one was where a packet waits.
  pub record IsArmed (ended : ℕ) (s : Transport K O) : Type 0 where
    pub flag : Flagged ended s
    pub running : (s.closing ≡ true) ⊎ ((s.pending_udp ≡ []) ⊎ (starts_of s.effects ≡ suc ended))

  -- Only a wait that was started ends, and none ends with an error.
  unfoldable pub IsTimely : ℕ → List Step → Transport K O → Type 0
  IsTimely ended [] s = Unit
  IsTimely ended (packet now payload ∷ steps) s =
      IsTimely ended steps (take_step (packet now payload) s)
  IsTimely ended (waited ok now ∷ steps) s =
      (ok ≡ true)
      × (ended < starts_of s.effects)
      × IsTimely (suc ended) steps (take_step (waited ok now) s)

  -- Sending does not change the waits.
  send_to-starts :
      (payload : List ℕ) (s : Transport K O)
      → starts_of (emit (send_to payload) s).effects ≡ starts_of s.effects
  unfolding starts_of
  send_to-starts payload s = omega (arith, starts_of-append s.effects (send_to payload ∷ []))

  schedule-IsArmed :
      (ended now : ℕ) (s : Transport K O)
      → Flagged ended s
      → IsArmed ended (schedule_rate_limited_send now s)
  unfolding schedule_rate_limited_send
  schedule-IsArmed ended now s h = go s.closing s.rate_send_active s.pending_udp refl refl refl h
    where
      armed : Transport K O
      armed =
          emit (start_rate_timer (max s.next_tx_time now))
            (record s { rate_send_active = true; next_tx_time = max s.next_tx_time now })

      started : starts_of s.effects ≡ ended → starts_of armed.effects ≡ suc ended
      started e =
          unfold starts_of in
          omega
            (arith, e, starts_of-append s.effects (start_rate_timer (max s.next_tx_time now) ∷ []))

      go :
          (closing active : Bool) (pending : List (List ℕ))
          → s.closing ≡ closing
          → s.rate_send_active ≡ active
          → s.pending_udp ≡ pending
          → ((active ≡ true) × (starts_of s.effects ≡ suc ended))
            ⊎ ((active ≡ false) × (starts_of s.effects ≡ ended))
          → IsArmed ended (if closing || (active || is_empty pending) then s else armed)
      go true active pending c a p f = record { flag = h; running = inl c }
      go false true pending c a p (inl f) = record { flag = h; running = inr (inr f.1) }
      go false true pending c a p (inr f) = absurd (ground (arith, f.0))
      go false false [] c a p f = record { flag = h; running = inr (inl p) }
      go false false (payload ∷ rest) c a p (inl f) = absurd (ground (arith, f.0))
      go false false (payload ∷ rest) c a p (inr f) = record {
        flag = inl (refl, started f.1);
        running = inr (inr (started f.1));
      }

  enqueue-IsArmed :
      (ended now : ℕ) (payload : List ℕ) (s : Transport K O)
      → IsArmed ended s
      → IsArmed ended (enqueue_udp_packet now payload s)
  unfolding enqueue_udp_packet
  enqueue-IsArmed ended now payload s h = go (below s.config.ratelimit 1)
    where
      queued : Transport K O
      queued = record s { pending_udp = s.pending_udp ++ (payload ∷ []) }

      go :
          (b : Bool)
          → IsArmed ended
              (if b then emit (send_to payload) s else schedule_rate_limited_send now queued)
      go true = record {
        flag =
            subst
              (λ n.
                ((s.rate_send_active ≡ true) × (n ≡ suc ended))
                ⊎ ((s.rate_send_active ≡ false) × (n ≡ ended)))
              (sym (send_to-starts payload s)) h.flag;
        running =
            subst (λ n. (s.closing ≡ true) ⊎ ((s.pending_udp ≡ []) ⊎ (n ≡ suc ended)))
              (sym (send_to-starts payload s)) h.running;
      }
      go false = schedule-IsArmed ended now queued h.flag

  on_rate_timer-IsArmed :
      (ended : ℕ) (ok : Bool) (now : ℕ) (s : Transport K O)
      → ok ≡ true
      → starts_of s.effects ≡ suc ended
      → IsArmed (suc ended) (on_rate_timer ok now s)
  unfolding on_rate_timer
  on_rate_timer-IsArmed ended false now s e h = absurd (ground arith)
  on_rate_timer-IsArmed ended true now s e h = go s.closing s.pending_udp refl refl
    where
      idle : Transport K O
      idle = record s { rate_send_active = false }

      popped : List ℕ → List (List ℕ) → Transport K O
      popped payload rest = emit (send_to payload) (record idle {
        pending_udp = rest;
        next_tx_time = max s.next_tx_time now + max 1 (delay_us s (length payload));
      })

      go :
          (closing : Bool) (pending : List (List ℕ))
          → s.closing ≡ closing
          → s.pending_udp ≡ pending
          → IsArmed (suc ended) (
              if closing then idle else elim pending as (λ p. Transport K O) [
                | [] ↦ idle
                | payload ∷ rest ↦ schedule_rate_limited_send now (popped payload rest)
              ])
      go true pending c p = record { flag = inr (refl, h); running = inl c }
      go false [] c p = record { flag = inr (refl, h); running = inr (inl p) }
      go false (payload ∷ rest) c p =
          schedule-IsArmed (suc ended) now (popped payload rest)
            (inr (refl, send_to-starts payload s ∙ h))

  -- A wait that ends was the one that runs.
  runs :
      (ended : ℕ) (s : Transport K O)
      → IsArmed ended s
      → ended < starts_of s.effects
      → starts_of s.effects ≡ suc ended
  runs ended s h more = elim h.flag [ inl x ↦ x.1 | inr x ↦ absurd (omega (arith, x.1, more)) ]

  -- Over any sequence of packets and of ends of waits of the rate timer, each of a wait that was started, and
  -- without an error: where the transport is not closing and a packet is in the queue, one wait more has been
  -- started than have ended, so that the timer runs; and `rate_send_active_` tells whether it does. From a
  -- transport of which the same is true.
  pub take_steps-IsArmed :
      (ended : ℕ) (steps : List Step) (s : Transport K O)
      → IsTimely ended steps s
      → IsArmed ended s
      → IsArmed (ended + ends_of steps) (take_steps steps s)
  unfolding take_steps take_step IsTimely ends_of
  take_steps-IsArmed ended [] s e h = subst (λ n. IsArmed n s) (omega arith) h
  take_steps-IsArmed ended (packet now payload ∷ steps) s e h =
      take_steps-IsArmed ended steps _ e (enqueue-IsArmed ended now payload s h)
  take_steps-IsArmed ended (waited ok now ∷ steps) s e h =
      subst (λ n. IsArmed n (take_steps steps (on_rate_timer ok now s))) (omega arith)
        (take_steps-IsArmed (suc ended) steps _ e.2
          (on_rate_timer-IsArmed ended ok now s e.0 (runs ended s h e.1)))
