-- ===== src/Server/Process.antt =====
-- The listeners of the server, which share the counters of the process.
use shimakaze.Common.{
  ℕ, zero, suc, ◌+◌, ◌^◌, ◌<◌, List, [], ◌∷◌, Option, none, some, All, length, ◌≡◌, arith,
}
use shimakaze.Config.Base.{BaseConfig}
use shimakaze.Crypto.Packet.{PacketCrypt}
use shimakaze.Smux.State.{Stream}
use shimakaze.Stats.Counters.{Counters, gauge, curr_estab}
use shimakaze.Endpoint.{Addresses}
use shimakaze.Tunnel.{Libraries, Moment}
use shimakaze.Tunnel.Keeps.{Holds}
use shimakaze.Server.Listener.{UdpListener, Listener}
use shimakaze.Server.Table.{Distinct}
use shimakaze.Server.Sessions.{IsKeyed, IsListener}
use shimakaze.Server.Steps.{Step, take_step, StepHasPort, take_step-IsListener}

-- `listeners_`, and the counters of stats.cpp, of which the process has one set.
pub record Process (A K : Type 0) : Type 0 where
  pub listeners : List (UdpListener A K)
  pub stats : Counters

module _ {A K : Type 0} where
  abbrev pub at_work : UdpListener A K → Counters → Listener A K
  at_work u stats = record { sessions = u.sessions; ended = u.ended; stats = stats }

  abbrev pub at_rest : Listener A K → UdpListener A K
  at_rest l = record { sessions = l.sessions; ended = l.ended }

  -- The sessions of all listeners.
  unfoldable pub total : List (UdpListener A K) → ℕ
  total [] = 0
  total (u ∷ rest) = length u.sessions + total rest

module _ {A K : Type 0} (addresses : Addresses A) (libs : Libraries K) (m : Moment)
    (config : BaseConfig) (crypt : PacketCrypt) (accept : Stream → Stream) (draw : ℕ → List ℕ)
    (fuel : ℕ) where
  -- A handler of one listener runs, on the counters of the process.
  unfoldable pub step_at :
      Step A → ℕ → List (UdpListener A K) → Counters → Option (List (UdpListener A K) × Counters)
  unfolding take_step
  step_at step i [] stats = some ([], stats)
  step_at step zero (u ∷ rest) stats =
      elim (take_step addresses libs m config crypt accept draw fuel step (at_work u stats)) [
        | none ↦ none
        | some l ↦ some (at_rest l ∷ rest, l.stats)
      ]
  step_at step (suc i) (u ∷ rest) stats = elim (step_at step i rest stats) [
    | none ↦ none
    | some (rest', stats') ↦ some (u ∷ rest', stats')
  ]

  unfoldable pub take_step_at : Step A → ℕ → Process A K → Option (Process A K)
  unfolding step_at
  take_step_at step i p = elim (step_at step i p.listeners p.stats) [
    | none ↦ none
    | some (listeners, stats) ↦ some (record { listeners = listeners; stats = stats })
  ]

  -- The sessions of a listener are open and under their keys, each once.
  abbrev IsSound : UdpListener A K → Type 0
  IsSound u = All (IsKeyed addresses) u.sessions × Distinct u.sessions

  -- Every session of every listener is open and under the key of its endpoint and its conversation, no listener has
  -- a key twice, and `CurrEstab` is the count of the sessions of all listeners.
  pub record IsProcess (p : Process A K) : Type 0 where
    pub sound : All IsSound p.listeners
    pub sized : length p.stats ≡ 30
    pub counted : gauge curr_estab p.stats ≡ total p.listeners

  -- The listeners from one on, beside `others` sessions before them.
  abbrev Counts : ℕ → List (UdpListener A K) × Counters → Type 0
  Counts others (listeners, stats) =
      All IsSound listeners
      × (length stats ≡ 30)
      × (gauge curr_estab stats ≡ total listeners + others)

  step_at-Counts :
      (others : ℕ) (step : Step A) (i : ℕ) (listeners : List (UdpListener A K)) (stats : Counters)
      → Counts others (listeners, stats)
      → StepHasPort addresses libs m config crypt accept draw fuel step
      → total listeners + others + 1 < 2 ^ 64
      → Holds (Counts others) (step_at step i listeners stats)
  unfolding step_at total
  step_at-Counts others step i [] stats h port room = h
  step_at-Counts others step zero (u ∷ rest) stats h port room =
      go (take_step addresses libs m config crypt accept draw fuel step (at_work u stats)) (
        take_step-IsListener addresses libs m config crypt accept draw fuel (total rest + others)
          step (at_work u stats)
          (record {
            keyed = h.0.0.0;
            distinct = h.0.0.1;
            sized = h.1;
            counted = omega (arith, h.2);
          })
          port (omega (arith, room)))
    where
      go :
          (o : Option (Listener A K))
          → Holds (IsListener addresses (total rest + others)) o
          → Holds (Counts others) (elim o as (λ x. Option (List (UdpListener A K) × Counters)) [
            | none ↦ none
            | some l ↦ some (at_rest l ∷ rest, l.stats)
          ])
      go none k = tt
      go (some l) k = (((k.keyed, k.distinct), h.0.1), k.sized, omega (arith, k.counted))
  step_at-Counts others step (suc i) (u ∷ rest) stats h port room = go (step_at step i rest stats) (
      step_at-Counts (length u.sessions + others) step i rest stats (h.0.1, h.1, omega (arith, h.2))
        port (omega (arith, room)))
    where
      go :
          (o : Option (List (UdpListener A K) × Counters))
          → Holds (Counts (length u.sessions + others)) o
          → Holds (Counts others) (elim o as (λ x. Option (List (UdpListener A K) × Counters)) [
            | none ↦ none
            | some (rest', stats') ↦ some (u ∷ rest', stats')
          ])
      go none k = tt
      go (some (rest', stats')) k = ((h.0.0, k.0), k.1, omega (arith, k.2))

  -- Whatever arrives at any of the server's listeners, or happens to one of its sessions, keeps `IsProcess` when no
  -- exception leaves the handler: each session of each listener is open and under the key of its endpoint and its
  -- conversation, no listener has a key twice, and `CurrEstab`, of which the process has one, is the count of the
  -- sessions of all listeners. For a sender with a port of 16 bits, and fewer than 2 ^ 64 - 1 sessions in all.
  pub take_step_at-IsProcess :
      (step : Step A) (i : ℕ) (p : Process A K)
      → IsProcess p
      → StepHasPort addresses libs m config crypt accept draw fuel step
      → total p.listeners + 1 < 2 ^ 64
      → Holds IsProcess (take_step_at step i p)
  unfolding take_step_at
  take_step_at-IsProcess step i p h port room = go (step_at step i p.listeners p.stats) (
      step_at-Counts 0 step i p.listeners p.stats (h.sound, h.sized, omega (arith, h.counted)) port
        (omega (arith, room)))
    where
      go :
          (o : Option (List (UdpListener A K) × Counters))
          → Holds (Counts 0) o
          → Holds IsProcess (elim o as (λ x. Option (Process A K)) [
            | none ↦ none
            | some (listeners, stats) ↦ some (record { listeners = listeners; stats = stats })
          ])
      go none k = tt
      go (some (listeners, stats)) k = record {
        sound = k.0;
        sized = k.1;
        counted = omega (arith, k.2);
      }
