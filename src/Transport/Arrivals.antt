-- ===== src/Transport/Arrivals.antt =====
-- A transport keeps its conversation when packets arrive, and stays closed.
use shimakaze.Common.{
  ℕ, zero, suc, subst, ◌==◌, ◌||◌, if◌then◌else◌, List, [], ◌∷◌, Option, none, some, ◌≡◌, refl,
  either,
}
use shimakaze.Common.Int.{at_least_zero}
use shimakaze.Fec.Decoder
use shimakaze.Smux.State.{is_empty}
use shimakaze.Crypto.Packet.{Library}
use shimakaze.Kcp.State.{Ikcp}
use shimakaze.Transport.State.{Transport}
use shimakaze.Transport.Sending.{flush_kcp}
use shimakaze.Transport.Receiving.{drain_loop, input_packets, input, update_kcp}
use shimakaze.Transport.Keeps.{Keeps, ◌after◌, start_timer-Keeps, flush_kcp-Keeps, output-Keeps}

module _ {K O : Type 0} (crypto : Library) (ikcp : Ikcp K) where
  -- Under a read handler that keeps it.
  module _ (handler : List ℕ → Transport K O → Transport K O)
      (keeps : (bytes : List ℕ) (s : Transport K O) → Keeps s (handler bytes s)) where
    drain_loop-Keeps :
        (fuel : ℕ) (s : Transport K O) → Keeps s (drain_loop crypto ikcp handler fuel s)
    unfolding drain_loop
    drain_loop-Keeps zero s = (refl, λ e. e)
    drain_loop-Keeps (suc fuel) s =
        either IsOf (s.closing || (size == 0)) s _ (refl, λ e. e)
          (taken (ikcp.recv size s.kcp).0 (drain_loop-Keeps fuel))
      where
        IsOf : Transport K O → Type 0
        IsOf t = Keeps s t

        size : ℕ
        size = at_least_zero (ikcp.peeksize s.kcp)

        s' : Transport K O
        s' = record s { kcp = (ikcp.recv size s.kcp).1 }

        taken :
            (o : Option (List ℕ))
            → ((t : Transport K O) → Keeps t (drain_loop crypto ikcp handler fuel t))
            → Keeps s (elim o as (λ x. Transport K O) [
              | none ↦ s'
              | some bytes ↦ drain_loop crypto ikcp handler fuel (handler bytes s')
            ])
        taken none ih = (refl, λ e. e)
        taken (some bytes) ih = ih (handler bytes s') after keeps bytes s'

    input_packets-Keeps :
        (fuel : ℕ) (packets : List (List ℕ)) (s : Transport K O)
        → Keeps s (input_packets crypto ikcp handler fuel packets s)
    unfolding input_packets
    input_packets-Keeps fuel [] s = (refl, λ e. e)
    input_packets-Keeps fuel (packet ∷ packets) s =
        input_packets-Keeps fuel packets _ after taken (ikcp.input packet s.kcp)
      where
        taken :
            (o : Option K)
            → Keeps s (elim o as (λ x. Transport K O) [
              | none ↦ s
              | some kcp ↦ drain_loop crypto ikcp handler fuel (record s { kcp = kcp })
            ])
        taken none = (refl, λ e. e)
        taken (some kcp) = drain_loop-Keeps fuel (record s { kcp = kcp })

    -- What there is is of the conversation of `s`.
    abbrev AllOf : Transport K O → Option (Transport K O) → Type 0
    AllOf s none = Unit {0}
    AllOf s (some t) = Keeps s t

    input_all-Keeps :
        (fuel now millis : ℕ) (packet : List ℕ) (s : Transport K O)
        → AllOf s (input crypto ikcp handler fuel now millis packet s)
    unfolding input
    input_all-Keeps fuel now millis packet s =
        either (AllOf s) (s.closing || is_empty packet) (some s) _ (refl, λ e. e)
          (given (Decoder.decode packet s.fec).0)
      where
        given :
            (o : Option (List (List ℕ)))
            → AllOf s (elim o as (λ x. Option (Transport K O)) [
              | none ↦ none
              | some kcp_packets ↦
                  (let s' =
                      input_packets crypto ikcp handler fuel kcp_packets
                        (record s { fec = (Decoder.decode packet s.fec).1 }) in
                    some (if s'.config.acknodelay then flush_kcp crypto ikcp now millis s' else s'))
            ])
        given none = tt
        given (some kcp_packets) =
            either (Keeps s) _ (flush_kcp crypto ikcp now millis later) later
              (flush_kcp-Keeps crypto ikcp now millis later after same) same
          where
            later : Transport K O
            later =
                input_packets crypto ikcp handler fuel kcp_packets
                  (record s { fec = (Decoder.decode packet s.fec).1 })

            same : Keeps s later
            same =
                input_packets-Keeps fuel kcp_packets
                  (record s { fec = (Decoder.decode packet s.fec).1 })

    pub input-Keeps :
        (fuel now millis : ℕ) (packet : List ℕ) (s : Transport K O) {t : Transport K O}
        → input crypto ikcp handler fuel now millis packet s ≡ some t
        → Keeps s t
    input-Keeps fuel now millis packet s e =
        subst (AllOf s) e (input_all-Keeps fuel now millis packet s)

    pub update_kcp-Keeps :
        (fuel now millis clock : ℕ) (s : Transport K O)
        → Keeps s (update_kcp crypto ikcp handler fuel now millis clock s)
    unfolding update_kcp
    update_kcp-Keeps fuel now millis clock s =
        either (Keeps s) s.closing s _ (refl, λ e. e)
          (start_timer-Keeps _
            after drain_loop-Keeps fuel _
            after output-Keeps crypto ikcp now millis (ikcp.update clock s.kcp).0
                (record s { kcp = (ikcp.update clock s.kcp).1 }))
