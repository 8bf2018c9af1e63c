-- ===== src/Examples/Clients.antt =====
-- Concrete runs of the client.
use shimakaze.Common.{ℕ, true, List, [], ◌∷◌, none, some, replicate, inl, ◌≡◌, refl, arith}
use shimakaze.Common.Int.{pos}
use shimakaze.Common.Text.{codes}
use shimakaze.Config.Reading.{ClientConfig}
use shimakaze.Tunnel.Keeps.{Holds}
use shimakaze.Transport.State.{fresh_transport}
use shimakaze.Server.Listener.{datagram}
use shimakaze.Client.State.{Client, Connection, contains, find as Client_find}
use shimakaze.Client.Table.{open_convs}
use shimakaze.Client.Receive.{on_receive}
use shimakaze.Client.Accept.{handle_accept}
use shimakaze.Client.Connections.{IsClient}
use shimakaze.Client.Steps
use shimakaze.Client.Steps.{Ignores, take_step-IsClient, on_receive-Ignores, accepted}
use shimakaze.Client.RoundRobin.{Served, handle_accept-Served}
use shimakaze.Examples.Sessions.{Messages}
use shimakaze.Examples.Endpoints.{
  toy_addresses, toy_addresses-IsAddresses, home, away, elsewhere, libs, now, direct, clear,
  segment, tunnel,
}

abbrev client_config : ClientConfig
client_config = record {
  base = direct;
  localaddr = codes ":12948";
  remoteaddr = codes "vps:29900";
  conn = pos 2;
  autoexpire = pos 0;
  scavengettl = pos 600;
}

-- A client with a connection in the first of its two slots.
abbrev connection : Connection (List ℕ) Messages
connection = record {
  conv = 7;
  remote_endpoint = home;
  tunnel = tunnel;
  expiry = 5000;
  socket_open = true;
}

abbrev connected : Client (List ℕ) Messages
connected = record {
  config = client_config;
  crypt = clear;
  connections = (0, connection) ∷ [];
  next_number = 1;
  transports = 7 ∷ [];
  muxes = some 0 ∷ none ∷ [];
  scavenge_timers = [];
  rr = 1;
  stats = 0 ∷ 0 ∷ 1 ∷ 1 ∷ 0 ∷ 1 ∷ replicate 24 0;
}

connected-IsClient : IsClient connected
unfolding fresh_transport contains Client_find open_convs
connected-IsClient = record {
  in_step = ((refl, refl), tt);
  numbered = (omega arith, tt);
  unique = (refl, tt);
  convs = refl;
  distinct = (refl, tt);
  sized = refl;
  counted = refl;
}

-- The first random number is in use.
take_step-IsClient_example : Holds IsClient (
    Steps.take_step toy_addresses libs now 9
      (accepted (7 ∷ 8 ∷ []) (some home) (λ n. []) true)
      connected)
take_step-IsClient_example =
    take_step-IsClient toy_addresses libs now 9 (accepted (7 ∷ 8 ∷ []) (some home) (λ n. []) true)
      connected connected-IsClient (omega arith)

connection_found : Client_find 0 connected.connections ≡ some connection
unfolding Client_find
connection_found = refl

on_receive-Ignores_example :
    (t : Client (List ℕ) Messages) × (on_receive toy_addresses libs now 9 0
        (datagram away segment)
        connected
      ≡ some t)
    × Ignores toy_addresses libs now 9 connected t
on_receive-Ignores_example =
    on_receive-Ignores toy_addresses libs now 9 toy_addresses-IsAddresses 0 away segment connected
      connection_found (inl elsewhere)

handle_accept-Served_example :
    Served libs now connected
      (handle_accept libs now (7 ∷ 8 ∷ []) (some home) (λ n. []) true connected)
handle_accept-Served_example =
    handle_accept-Served libs now (7 ∷ 8 ∷ []) (some home) (λ n. []) true connected
