-- ===== src/Examples/Routes.antt =====
-- A concrete run from a client's transport to a session of the server.
use shimakaze.Common.{ℕ, false, List, [], ◌∷◌, none, some, replicate, ◌≡◌, refl, arith}
use shimakaze.Common.Text.{codes}
use shimakaze.Smux.Session.{make_session}
use shimakaze.Smux.Stream.{start_server}
use shimakaze.Stats.Counters.{fresh_counters}
use shimakaze.Transport.State.{Transport, fresh_transport}
use shimakaze.Transport.Sending.{send_udp}
use shimakaze.Endpoint.{endpoint_key}
use shimakaze.Wire.Codec.{read_le32}
use shimakaze.Server.Listener
use shimakaze.Server.Listener.{Listener, SessionEntry}
use shimakaze.Server.Routing.{Routed, send_udp-Routed}
use shimakaze.Examples.Data.{sample, toy_library, toy_library-IsLibrary}
use shimakaze.Examples.Packets
use shimakaze.Examples.Packets.{toy_crypt_made}
use shimakaze.Examples.Codecs.{small_codec}
use shimakaze.Examples.Sessions.{Messages, toy_ikcp}
use shimakaze.Examples.Endpoints.{toy_addresses, home, libs, now, segment}

abbrev client : Transport (List (List ℕ)) ℕ
client = fresh_transport 7 sample Packets.toy_crypt small_codec [] 0 (λ n. replicate 16 5)

abbrev session : SessionEntry (List ℕ) Messages
session = record {
  remote_endpoint = home;
  tunnel =
      fresh_transport 7 sample Packets.toy_crypt small_codec []
        (record { smux = make_session sample false none 0; asks = [] }) (λ n. []);
}

abbrev serving : Listener (List ℕ) Messages
serving = record {
  sessions = (codes "10.0.0.1:4000#7", session) ∷ [];
  ended = [];
  stats = fresh_counters;
}

session_found :
    Listener.find (endpoint_key toy_addresses home (read_le32 segment)) serving.sessions
    ≡ some session
unfolding Listener.find endpoint_key read_le32
session_found = refl

send_udp-Routed_example :
    Routed toy_addresses libs now sample Packets.toy_crypt start_server
      (λ n. [])
      9
      home
      segment
      session
      serving
      client
      (send_udp toy_library toy_ikcp 0 1000 segment client)
unfolding fresh_transport
send_udp-Routed_example =
    send_udp-Routed toy_addresses libs now sample Packets.toy_crypt start_server (λ n. []) 9
      toy_ikcp toy_library-IsLibrary (codes "secret") (codes "AES-128") 0 1000 home segment session
      serving client toy_crypt_made toy_crypt_made refl (omega arith) (omega arith) refl refl refl
      refl session_found
