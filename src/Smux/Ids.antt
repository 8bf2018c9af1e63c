-- ===== src/Smux/Ids.antt =====
-- The ids of the streams that a session opens.
use shimakaze.Common.{
  ℕ, zero, suc, ◌+◌, ◌%◌, ◌^◌, ◌<◌, ltb, ◌||◌, Bool, true, false, if◌then◌else◌, List, [], ◌∷◌,
  Option, none, some, map, length, ◌≡◌, refl, ap, ◌∙◌, sym, arith, subst,
}
use shimakaze.Qpp.Pad.{Primitives}
use shimakaze.Snappy.Stream.{Snappy, encode}
use shimakaze.Smux.State.{Command, syn}
use shimakaze.Smux.Frame.{make_frame}
use shimakaze.Smux.Session.{
  Core, transport_send, put, put_all, send, new_stream, emplace, open_stream,
}
use mathlib.Core.Option.{some-injective}

-- The ids that `n` calls of `open_stream` return, up to the first exception.
unfoldable pub open_all : ℕ → Snappy → Primitives → Core → List ℕ
unfolding open_stream
open_all zero snappy crypto s = []
open_all (suc n) snappy crypto s = elim (open_stream snappy crypto s) [
  | none ↦ []
  | some opened ↦ (let (id, s') = opened in id ∷ open_all n snappy crypto s')
]

-- Each id is 2 above the one before it, within 32 bits.
abbrev pub IsChain : ℕ → List ℕ → Type 0
IsChain previous [] = Unit
IsChain previous (id ∷ ids) = (id ≡ previous + 2) × (id < 2 ^ 32) × IsChain id ids

send-next :
    (snappy : Snappy) (command : Command) (id : ℕ) (payload : List ℕ) (s : Core)
    → (send snappy command id payload s).next_stream_id ≡ s.next_stream_id
unfolding send
send-next snappy command id payload s = go (s.closed || ltb 65535 (length payload)) s.config.nocomp
  where
    bytes : List ℕ
    bytes = make_frame s.config command id payload

    go :
        (a b : Bool)
        → (if a
            then s
            else if b
            then put (transport_send bytes) s
            else put_all (map transport_send (encode snappy s.wrote_identifier bytes).0) (record s {
              wrote_identifier = (encode snappy s.wrote_identifier bytes).1;
            })).next_stream_id
          ≡ s.next_stream_id
    go true b = refl
    go false true = refl
    go false false = refl

-- The id of one call.
open_stream-id :
    (snappy : Snappy) (crypto : Primitives) (s : Core) {id : ℕ} {s' : Core}
    → s.next_stream_id < 2 ^ 32
    → open_stream snappy crypto s ≡ some (id, s')
    → (id ≡ s.next_stream_id + 2) × (id < 2 ^ 32) × (s'.next_stream_id ≡ id)
unfolding open_stream
open_stream-id snappy crypto s {id} {s'} h e = go s.closed (ltb sid s.next_stream_id) refl e
  where
    sid : ℕ
    sid = (s.next_stream_id + 2) % 2 ^ 32

    opened : Core
    opened =
        let s1 = send snappy syn sid [] (record s { next_stream_id = sid }) in
        record s1 {
          streams = emplace snappy crypto sid (new_stream snappy crypto sid s) s1.streams;
        }

    go :
        (a b : Bool)
        → ltb sid s.next_stream_id ≡ b
        → (if◌then◌else◌ {A = Option (ℕ × Core)} a none (if b then none else some (sid, opened)))
          ≡ some (id, s')
        → (id ≡ s.next_stream_id + 2) × (id < 2 ^ 32) × (s'.next_stream_id ≡ id)
    go true b f q = absurd (ground arith)
    go false true f q = absurd (ground arith)
    go false false f q =
        let both : (sid, opened) ≡ (id, s') = some-injective (sid, opened) (id, s') q in
        let same : sid ≡ id = ap (λ r. r.0) both in
        let up : sid ≡ s.next_stream_id + 2 = ground arith in
        (
          sym same ∙ up,
          omega (arith, same),
          sym (ap (λ r. r.1.next_stream_id) both)
              ∙ send-next snappy syn sid [] (record s { next_stream_id = sid })
              ∙ same,
        )

-- For a session whose counter is below 2 ^ 32, the ids that any number of calls of `open_stream`
-- return, up to the first exception, are each 2 above the one before, the first 2 above the
-- counter, and all below 2 ^ 32.
pub open_all-IsChain :
    (n : ℕ) (snappy : Snappy) (crypto : Primitives) (s : Core)
    → s.next_stream_id < 2 ^ 32
    → IsChain s.next_stream_id (open_all n snappy crypto s)
unfolding open_all
open_all-IsChain zero snappy crypto s h = tt
open_all-IsChain (suc n) snappy crypto s h =
    go (open_stream snappy crypto s) refl (open_all-IsChain n snappy crypto)
  where
    go :
        (o : Option (ℕ × Core))
        → open_stream snappy crypto s ≡ o
        → ((t : Core)
            → t.next_stream_id < 2 ^ 32
            → IsChain t.next_stream_id (open_all n snappy crypto t))
        → IsChain s.next_stream_id
            (elim o [ none ↦ [] | some opened ↦ opened.0 ∷ open_all n snappy crypto opened.1 ])
    go none e later = tt
    go (some (id, s')) e later =
        let (up, small, same) = open_stream-id snappy crypto s h e in
        (
          up,
          small,
          subst (λ k. IsChain k (open_all n snappy crypto s')) same
              (later s' (omega (arith, same, small))),
        )
