-- ===== src/Smux/Reports.antt =====
-- What a version 2 stream tells its peer of the bytes that it has consumed.
use mathlib.Core.List.{foldl, foldl-append}
use mathlib.Core.Option.{some-injective}
use shimakaze.Common.{
  ℕ, ◌+◌, ◌%◌, ◌^◌, ◌<◌, ◌==◌, ◌||◌, leb, Bool, true, false, not, if◌then◌else◌, List, [], ◌∷◌,
  ◌++◌, Option, some, none, ◌≡◌, refl, sym, subst, arith,
}
use shimakaze.Common.Int.{is, at_least_one, at_least_one_half}
use shimakaze.Config.Base.{BaseConfig}
use shimakaze.Smux.State.{Stream, Effect, send_update, emit, u32}
use shimakaze.Smux.Stream.{mark_payload_consumed}

abbrev pub reported_by : ℕ → Effect → ℕ
reported_by last (send_update id consumed window) = consumed
reported_by last e = last

-- The count in the last report of a stream, 0 before the first.
unfoldable pub last_report : List Effect → ℕ
last_report effects = foldl reported_by 0 effects

-- The count of consumed bytes is the last report and what came since, and that is less than half of
-- the stream buffer.
pub record IsReported (session : BaseConfig) (s : Stream) : Type 0 where
  pub total : s.num_read ≡ (last_report s.effects + s.incr) % 2 ^ 32
  pub pending : s.incr < at_least_one_half session.streambuf

last_report-emit :
    (effects : List Effect) (id consumed window : ℕ)
    → last_report (effects ++ (send_update id consumed window ∷ [])) ≡ consumed
unfolding last_report
last_report-emit effects id consumed window =
    foldl-append reported_by 0 effects (send_update id consumed window ∷ [])

-- With the session alive, counting any number of consumed bytes keeps this: the count is the one
-- last reported to the peer and what came since, and that stays below half of the stream buffer of
-- the session.
pub mark_payload_consumed-IsReported :
    (session : BaseConfig) (s : Stream) (bytes : ℕ)
    → s.session ≡ some session
    → IsReported session s
    → IsReported session (mark_payload_consumed bytes s)
unfolding mark_payload_consumed
mark_payload_consumed-IsReported session s bytes alive reported = go s.session alive
  where
    num_read : ℕ
    num_read = u32 (s.num_read + u32 bytes)

    incr : ℕ
    incr = u32 (s.incr + u32 bytes)

    reset : Stream
    reset = record s { num_read = num_read; incr = 0 }

    noted : Stream
    noted = record s { num_read = num_read; incr = incr }

    window : ℕ
    window = at_least_one session.streambuf

    counted :
        (a b : Bool)
        → (leb (at_least_one_half session.streambuf) incr || b) ≡ a
        → IsReported session (if a then emit (send_update s.id num_read window) reset else noted)
    counted true b h = record {
      total = omega (arith, last_report-emit s.effects s.id num_read window);
      pending = omega arith;
    }
    counted false b h = record { total = omega (arith, reported.total); pending = ground arith }

    after : BaseConfig → Stream
    after c =
        if not (is c.smuxver 2) || (bytes == 0)
        then s
        else if leb (at_least_one_half c.streambuf) incr || (num_read == u32 bytes)
        then emit (send_update s.id num_read (at_least_one c.streambuf)) reset
        else noted

    guarded :
        (a : Bool)
        → IsReported session (
            if a
            then s
            else if leb (at_least_one_half session.streambuf) incr || (num_read == u32 bytes)
            then emit (send_update s.id num_read window) reset
            else noted)
    guarded true = reported
    guarded false =
        counted (leb (at_least_one_half session.streambuf) incr || (num_read == u32 bytes))
          (num_read == u32 bytes) refl

    go :
        (o : Option BaseConfig)
        → o ≡ some session
        → IsReported session (elim o [ none ↦ s | some c ↦ after c ])
    go none e = reported
    go (some c) e =
        subst (λ (d : BaseConfig). IsReported session (after d)) (sym (some-injective c session e))
          (guarded (not (is session.smuxver 2) || (bytes == 0)))
