-- ===== src/Examples/Sessions.antt =====
-- Concrete runs of `KcpSession`, over a queue of messages in the place of ikcp.
use shimakaze.Common.{
  inl, ◌&&◌, ℕ, ◌<◌, List, [], ◌∷◌, ◌++◌, Option, none, some, length, ◌≡◌, ◌≢◌, refl, arith,
}
use shimakaze.Common.Int.{above, ℤ, pos, negsuc, at_least_zero}
use shimakaze.Wire.Codec.{write_be32}
use shimakaze.Kcp.State.{Ikcp, Session, data'}
use shimakaze.Kcp.Frame.{type_byte, make_frame, frame, read_frame}
use shimakaze.Kcp.Parse.{read_frame-make_frame}
use shimakaze.Kcp.Stream.{fresh_core, configure_kcp}
use shimakaze.Kcp.Session.{drain_loop}
use shimakaze.Kcp.Delivery.{all_frames, DeliveredTo, receive_all, receive_all-frames}
use shimakaze.Kcp.Drain.{IsQueue, IsDrained, drain_loop-IsDrained}
use shimakaze.Config.Bounds.{IsFrom, IsUpTo, IsValid}
use shimakaze.Fec.Codec.{is_enabled}
use shimakaze.Kcp.Setup.{TakesMtu, configure_kcp-accepts}
use shimakaze.Examples.Data.{sample, toy_crypt, toy_library}

abbrev pub Messages : Type 0
Messages = List (List ℕ)

unfoldable pub peek : Messages → ℤ
peek [] = negsuc 0
peek (m ∷ ms) = pos (length m)

unfoldable pub take_message : Messages → Option (List ℕ) × Messages
take_message [] = (none, [])
take_message (m ∷ ms) = (some m, ms)

abbrev pub toy_ikcp : Ikcp Messages
toy_ikcp = record {
  create = λ conv. some [];
  nodelay = λ nodelay interval resend nc k. k;
  wndsize = λ sndwnd rcvwnd k. k;
  setmtu = λ mtu k. some k;
  stream_mode = λ k. k;
  input = λ packet k. some (k ++ (packet ∷ []));
  update = λ now k. ([], k);
  flush = λ k. ([], k);
  send = λ bytes k. (pos (length bytes), k);
  peeksize = peek;
  recv = λ size k. take_message k;
}

toy_ikcp-IsQueue : IsQueue toy_ikcp (λ k. length k)
unfolding peek take_message
toy_ikcp-IsQueue = record { given = given }
  where
    given :
        (k : Messages)
        → at_least_zero (peek k) ≢ 0
        → (bytes : List ℕ) × ((take_message k).0 ≡ some bytes)
          × (length (take_message k).1 < length k)
    given [] h = absurd (h refl)
    given (m ∷ ms) h = (m, refl, omega arith)

-- A session for which two messages wait.
abbrev toy_session : Session Messages
toy_session = record {
  core =
      fresh_core toy_library toy_ikcp 1 sample toy_crypt
        ((1 ∷ 0 ∷ 0 ∷ []) ∷ (0 ∷ 2 ∷ 7 ∷ 8 ∷ []) ∷ []) (λ n. []);
  stream_buffer = [];
}

read_frame-make_frame_example :
    read_frame (make_frame data' (7 ∷ 8 ∷ []) ++ (9 ∷ []))
    ≡ frame (type_byte data') (7 ∷ 8 ∷ []) (9 ∷ [])
read_frame-make_frame_example = read_frame-make_frame data' (7 ∷ 8 ∷ []) (9 ∷ []) (omega arith)

abbrev sent : List (List ℕ)
sent = (7 ∷ 8 ∷ []) ∷ [] ∷ (9 ∷ []) ∷ []

abbrev cut : List (List ℕ)
cut =
    (1 ∷ 0 ∷ 0 ∷ []) ∷ (0 ∷ 2 ∷ 7 ∷ 8 ∷ 1 ∷ 0 ∷ 0 ∷ 0 ∷ 0 ∷ 1 ∷ []) ∷ (0 ∷ 0 ∷ 0 ∷ 1 ∷ 9 ∷ []) ∷ []

receive_all-frames_example :
    DeliveredTo sent toy_session (receive_all toy_library toy_ikcp cut toy_session)
unfolding all_frames make_frame fresh_core write_be32
receive_all-frames_example =
    receive_all-frames toy_library toy_ikcp sent cut toy_session refl refl
      (omega arith, (omega arith, (omega arith, tt))) refl

drain_loop-IsDrained_example :
    IsDrained toy_library toy_ikcp (drain_loop toy_library toy_ikcp 3 toy_session)
unfolding fresh_core
drain_loop-IsDrained_example =
    drain_loop-IsDrained toy_library toy_ikcp (λ k. length k) 3 toy_session toy_ikcp-IsQueue
      (omega arith)

sample-IsValid : IsValid sample
unfolding IsFrom IsUpTo
sample-IsValid = record {
  mtu = (omega arith, omega arith);
  ratelimit = omega arith;
  interval = omega arith;
  windows = (omega arith, omega arith);
  shards = (omega arith, omega arith);
  shard_sum = inl (omega arith);
  smuxver = omega arith;
  smuxbuf = omega arith;
  framesize = omega arith;
  streambuf = omega arith;
  keepalive = omega arith;
  qpp = inl refl;
}

toy_ikcp-TakesMtu : TakesMtu toy_ikcp
unfolding TakesMtu
toy_ikcp-TakesMtu mtu k h = (k, refl)

configure_kcp-accepts_example :
    ((k : Messages) × (configure_kcp toy_library toy_ikcp sample toy_crypt [] ≡ some k))
    × (is_enabled (pos 10) (pos 3) ≡ (above (pos 10) 0 && above (pos 3) 0))
configure_kcp-accepts_example =
    configure_kcp-accepts toy_library toy_ikcp sample toy_crypt [] sample-IsValid toy_ikcp-TakesMtu
