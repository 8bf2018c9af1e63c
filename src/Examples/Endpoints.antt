-- ===== src/Examples/Endpoints.antt =====
-- Concrete runs of the server, of the addresses and of the statistics.
use shimakaze.Common.{
  ℕ, ◌-◌, true, false, suc, List, [], ◌∷◌, none, some, get_or, ap, replicate, inl, ◌≡◌, ◌≢◌, refl,
  subst, arith,
}
use shimakaze.Common.Int.{pos}
use shimakaze.Common.Text.{codes, to_lower, same, same→eq, same_refl}
use shimakaze.Address.{
  parse_multiport, join_host_port, split_host_service, parse_range, parse_port, from_chars,
  digits_value, find, rfind,
}
use shimakaze.Address.RoundTrip.{parse_multiport-join_host_port}
use shimakaze.Config.Base.{BaseConfig}
use shimakaze.Config.Reading.{ServerConfig}
use shimakaze.Crypto.Packet.{
  PacketCrypt, decrypt, null, make_crypt, choose, recover, derive_key, block_choice,
  normalize_method,
}
use shimakaze.Fec.Matrix.{indices}
use shimakaze.Stats.Counters.{fresh_counters}
use shimakaze.Stats.Changes.{Change, opened, closed, take_changes, Counted, take_changes-Counted}
use shimakaze.Endpoint.{Endpoint, Addresses, IsAddresses, endpoint_key}
use shimakaze.Smux.Stream.{start_server}
use shimakaze.Tunnel.{Tunnel, Libraries, Moment}
use shimakaze.Tunnel.Keeps.{Holds}
use shimakaze.Smux.Session.{make_session}
use shimakaze.Transport.State.{fresh_transport}
use shimakaze.Wire.Codec.{read_le16}
use shimakaze.Fec.Codec.{fec_kcp_payload_offset, fresh, no_reed_solomon}
use shimakaze.Server.Listener.{Listener, SessionEntry, datagram, handle_packet}
use shimakaze.Server.Listener
use shimakaze.Server.Sessions.{IsListener}
use shimakaze.Server.Steps.{arrived}
use shimakaze.Server.Process.{Process, total, IsProcess, take_step_at, take_step_at-IsProcess}
use shimakaze.Server.Isolation.{handle_packet-Untouched}
use shimakaze.Server.Start.{Server, make_server, start, start-indices, unix}
use shimakaze.Examples.Data.{sample, toy_library, toy_snappy, toy_primitives}
use shimakaze.Examples.Sessions.{Messages, toy_ikcp}

abbrev pub toy_addresses : Addresses (List ℕ)
toy_addresses = record { text = λ a. a; same_address = same }

pub toy_addresses-IsAddresses : IsAddresses toy_addresses
toy_addresses-IsAddresses = record {
  text-injective = λ a b e. e;
  same_address_iff = λ a b. (same→eq a b, λ e. subst (λ c. same a c ≡ true) e (same_refl a));
}

abbrev pub home : Endpoint (List ℕ)
home = record { address = codes "10.0.0.1"; port = 4000 }

abbrev pub away : Endpoint (List ℕ)
away = record { address = codes "10.0.0.2"; port = 4000 }

pub elsewhere : home.address ≢ away.address
elsewhere e = omega (arith, ap (λ text. get_or text 7 0) e)

parse_multiport-join_host_port_example :
    parse_multiport (join_host_port (codes "::1") 4000)
    ≡ some (record { host = codes "::1"; min_port = 4000; max_port = 4000 })
parse_multiport-join_host_port_example =
    parse_multiport-join_host_port (codes "::1") 4000 (λ e. omega (arith, e))
      ((λ e. omega (arith, e)), ((λ e. omega (arith, e)), ((λ e. omega (arith, e)), tt)))
      (omega arith) (omega arith)

abbrev changes : List Change
changes = opened true ∷ opened false ∷ closed ∷ opened false ∷ []

take_changes-Counted_example : Counted changes fresh_counters (take_changes changes fresh_counters)
take_changes-Counted_example =
    take_changes-Counted changes fresh_counters refl (omega arith) (omega arith) (omega arith)

abbrev pub libs : Libraries Messages
libs = record {
  crypto = toy_library;
  ikcp = toy_ikcp;
  snappy = toy_snappy;
  primitives = toy_primitives;
}

abbrev pub now : Moment
now = record { micros = 5; millis = 0; nanos = 5000 }

-- Without forward error correction and encryption.
abbrev pub direct : BaseConfig
direct = record sample { datashard = pos 0; parityshard = pos 0; crypt = codes "null" }

abbrev pub clear : PacketCrypt
clear = record {
  method = null;
  effective_method = codes "null";
  derived_key = replicate 32 7;
  cipher_key = [];
  xor_table = [];
  block = none;
}

-- A packet of the conversation 7.
abbrev pub segment : List ℕ
segment = 7 ∷ 0 ∷ 0 ∷ 0 ∷ 81 ∷ 0 ∷ 128 ∷ 0 ∷ replicate 16 0

abbrev pub tunnel : Tunnel Messages
tunnel =
    fresh_transport 7 direct clear (fresh 0 0 false no_reed_solomon) []
      (record { smux = make_session direct false none 0; asks = [] }) (λ n. [])

abbrev key : List ℕ
key = codes "10.0.0.1:4000#7"

abbrev entry : SessionEntry (List ℕ) Messages
entry = record { remote_endpoint = home; tunnel = tunnel }

abbrev serving : Listener (List ℕ) Messages
serving = record {
  sessions = (key, entry) ∷ [];
  ended = [];
  stats = 0 ∷ 0 ∷ 1 ∷ 0 ∷ 1 ∷ 1 ∷ replicate 24 0;
}

serving-IsListener : IsListener toy_addresses 0 serving
unfolding fresh_transport endpoint_key Listener.find
serving-IsListener = record {
  keyed = ((refl, refl, omega arith), tt);
  distinct = (refl, tt);
  sized = refl;
  counted = refl;
}

session_found : Listener.find key serving.sessions ≡ some entry
unfolding Listener.find
session_found = refl

-- Two listeners, of which the first has a session.
abbrev process : Process (List ℕ) Messages
process = record {
  listeners =
      record { sessions = (key, entry) ∷ []; ended = [] }
      ∷ record { sessions = []; ended = [] }
      ∷ [];
  stats = serving.stats;
}

process-IsProcess : IsProcess toy_addresses libs now direct clear start_server (λ n. []) 9 process
unfolding fresh_transport endpoint_key Listener.find total
process-IsProcess = record {
  sound = ((((refl, refl, omega arith), tt), (refl, tt)), ((tt, tt), tt));
  sized = refl;
  counted = refl;
}

-- A packet at the second one.
take_step_at-IsProcess_example :
    Holds (IsProcess toy_addresses libs now direct clear start_server (λ n. []) 9) (
      take_step_at toy_addresses libs now direct clear start_server
        (λ n. [])
        9
        (arrived (datagram home segment))
        1
        process)
take_step_at-IsProcess_example =
    take_step_at-IsProcess toy_addresses libs now direct clear start_server (λ n. []) 9
      (arrived (datagram home segment)) 1 process process-IsProcess (omega arith)
      (unfold total in omega arith)

-- A parity packet from elsewhere.
abbrev parity : List ℕ
parity = 2 ∷ 0 ∷ 0 ∷ 0 ∷ 0xf2 ∷ 0 ∷ replicate 10 9

parity_ignored :
    handle_packet toy_addresses libs now direct clear start_server (λ n. []) 9 away parity serving
    ≡ some serving
unfolding handle_packet decrypt fec_kcp_payload_offset read_le16
parity_ignored = refl

handle_packet-Untouched_example : Listener.find key serving.sessions ≡ some entry
handle_packet-Untouched_example =
    handle_packet-Untouched toy_addresses libs now direct clear start_server (λ n. []) 9
      toy_addresses-IsAddresses away parity serving key entry (omega arith) serving-IsListener
      session_found (inl elsewhere) parity_ignored

abbrev server_config : ServerConfig
server_config = record {
  base = direct;
  listen = codes ":65534-65535";
  target = codes "/run/target";
}

abbrev server : Server
server = record {
  config = server_config;
  crypt = clear;
  listen_address = record { host = []; min_port = 65534; max_port = 65535 };
  target = unix (codes "/run/target");
}

server_made : make_server toy_library server_config ≡ some server
unfolding make_server make_crypt choose recover derive_key block_choice normalize_method
    parse_multiport split_host_service parse_range parse_port from_chars digits_value find rfind
    to_lower
server_made = refl

start-indices_example : start server ≡ indices 65534 (suc (65535 - 65534))
start-indices_example = start-indices toy_library server_config server_made
