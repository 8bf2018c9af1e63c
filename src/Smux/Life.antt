-- ===== src/Smux/Life.antt =====
-- Runs of events: no run sends a second FIN, reports the end of the stream twice, opens it again, or
-- sends data for it after that.
use shimakaze.Common.{ℕ, ◌≤◌, Bool, true, false, List, [], ◌∷◌, ◌≡◌, ap, arith}
use shimakaze.Config.Base.{BaseConfig}
use shimakaze.Qpp.Stream.{QppStream}
use shimakaze.Smux.State.{Stream, make_stream}
use shimakaze.Smux.Events.{Event, handle, run}
use shimakaze.Smux.Once.{
  Step, total, total-append, fin_of, frame_of, end_of, bit, bit→true, stay, join,
}
use shimakaze.Smux.Handlers.{handle-Step}

bit-le : (b : Bool) → bit b ≤ 1
bit-le true = omega arith
bit-le false = omega arith

run-Step : (events : List Event) (s : Stream) → Step s (run events s)
unfolding run
run-Step [] s = stay s
run-Step (e ∷ es) s = join s (handle e s) _ (handle-Step e s) (run-Step es (handle e s))

-- A new stream sends one FIN at most, and tells its session of its end once at most, whatever events
-- follow, in whatever order.
pub run-once :
    (events : List Event) (id : ℕ) (config : BaseConfig) (qpp : QppStream)
    → (total fin_of (run events (make_stream id config qpp)).effects ≤ 1)
      × (total end_of (run events (make_stream id config qpp)).effects ≤ 1)
unfolding make_stream total
run-once events id config qpp =
    let f = run-Step events (make_stream id config qpp) in
    (
      omega (
        arith,
        ap (total fin_of) f.effects,
        f.fins,
        bit-le (run events (make_stream id config qpp)).local_fin_sent,
      ),
      omega (
        arith,
        ap (total end_of) f.effects,
        f.ends,
        bit-le (run events (make_stream id config qpp)).closed,
      ),
    )

-- A closed stream stays closed, and whatever events follow it sends no further SYN, data or FIN frame
-- (it may send a window update).
pub run-closed :
    (events : List Event) (s : Stream)
    → s.closed ≡ true
    → ((run events s).closed ≡ true)
      × (total frame_of (run events s).effects ≡ total frame_of s.effects)
run-closed events s c =
    let f = run-Step events s in
    (
      bit→true (run events s).closed (omega (arith, f.ends, ap bit c)),
      omega
          (arith, ap (total frame_of) f.effects, total-append frame_of s.effects f.new, f.silent c),
    )
