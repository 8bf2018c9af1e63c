-- ===== src/Examples/Transports.antt =====
-- Concrete runs of the queue of a `KcpTransport`.
use shimakaze.Common.{
  ℕ, ◌+◌, true, false, List, [], ◌∷◌, ◌++◌, inl, inr, replicate, ◌≡◌, refl, arith,
}
use shimakaze.Common.Int.{pos}
use shimakaze.Fec.Codec.{fresh, no_reed_solomon}
use shimakaze.Transport.State.{Transport, fresh_transport}
use shimakaze.Transport.Pacing.{
  Step, packet, waited, packets_of, take_step, take_steps, outgoing, IsDirect, take_steps-outgoing,
}
use shimakaze.Transport.Sending.{enqueue_udp_packet, on_rate_timer, send_udp}
use shimakaze.Transport.Path.{Reaches, send_udp-Reaches}
use shimakaze.Examples.Packets
use shimakaze.Examples.Packets.{toy_crypt_made}
use shimakaze.Examples.Codecs.{small_codec}
use shimakaze.Examples.Sessions.{toy_ikcp}
use shimakaze.Common.Text.{codes}
use shimakaze.Transport.Waiting.{IsTimely, IsArmed, starts_of, ends_of, take_steps-IsArmed}
use shimakaze.Examples.Data.{sample, toy_crypt, toy_library, toy_library-IsLibrary}

-- A limit of 1000 bytes each second.
abbrev limited : Transport ℕ ℕ
limited =
    fresh_transport 1 (record sample { ratelimit = pos 1000 }) toy_crypt
      (fresh 0 0 false no_reed_solomon) 0 0 (λ n. [])

abbrev steps : List Step
steps =
    packet 5 (1 ∷ [])
    ∷ packet 6 (2 ∷ 3 ∷ [])
    ∷ waited true 10
    ∷ packet 11 (4 ∷ [])
    ∷ waited true 1010
    ∷ []

take_steps-outgoing_example :
    outgoing (take_steps steps limited) ≡ outgoing limited ++ packets_of steps
unfolding fresh_transport IsDirect
take_steps-outgoing_example = take_steps-outgoing steps limited (inl refl)

take_steps-IsArmed_example : IsArmed (0 + ends_of steps) (take_steps steps limited)
unfolding fresh_transport starts_of IsTimely take_step enqueue_udp_packet on_rate_timer
take_steps-IsArmed_example =
    take_steps-IsArmed 0 steps limited (refl, omega arith, (refl, omega arith, tt))
      (record { flag = inr (refl, refl); running = inr (inl refl) })

-- No limit, and forward error correction with two data shards and a parity shard.
abbrev direct : Transport (List (List ℕ)) ℕ
direct = fresh_transport 1 sample Packets.toy_crypt small_codec [] 0 (λ n. replicate 16 5)

send_udp-Reaches_example :
    Reaches toy_library toy_ikcp
      (7 ∷ 8 ∷ [])
      small_codec
      direct
      (send_udp toy_library toy_ikcp 0 1000 (7 ∷ 8 ∷ []) direct)
unfolding fresh_transport
send_udp-Reaches_example =
    send_udp-Reaches toy_library toy_ikcp toy_library-IsLibrary (codes "secret") (codes "AES-128") 0
      1000 (7 ∷ 8 ∷ []) small_codec direct toy_crypt_made refl (omega arith) (omega arith) refl refl
      refl
