-- ===== src/Client/State.antt =====
-- `Client`: its fields, its construction, and the making and the end of a connection. The logging is left out.
use shimakaze.Common.{
  ℕ, ◌+◌, ◌*◌, ◌==◌, not, ◌&&◌, ◌||◌, Bool, true, false, if◌then◌else◌, List, [], ◌∷◌, Option, none,
  some, set, replicate,
}
use shimakaze.Common.Int.{at_least_zero, at_least_one, above}
use shimakaze.Address.{MultiPort, parse_multiport}
use shimakaze.Config.Reading.{ClientConfig}
use shimakaze.Crypto.Packet.{Library, PacketCrypt, make_crypt}
use shimakaze.Kcp.State.{◌>>=◌}
use shimakaze.Stats.Counters.{Counters, snmp_connection_open, snmp_connection_close}
use shimakaze.Endpoint.{Endpoint}
use shimakaze.Tunnel.{Tunnel, Libraries, Moment, make_tunnel}

-- `Connection`, with the `remote_endpoint_` of its transport.
pub record Connection (A K : Type 0) : Type 0 where
  pub conv : ℕ
  pub remote_endpoint : Endpoint A
  pub tunnel : Tunnel K
  pub expiry : ℕ
  pub socket_open : Bool

-- A connection is shared by its slot and by its handlers, so that `connections` has all that were made under numbers
-- of their own, and `muxes` has the number in each slot. `transports` has the keys of `transports_`, and
-- `scavenge_timers` the connections with a delay in seconds.
pub record Client (A K : Type 0) : Type 0 where
  pub config : ClientConfig
  pub crypt : PacketCrypt
  pub connections : List (ℕ × Connection A K)
  pub next_number : ℕ
  pub transports : List ℕ
  pub muxes : List (Option ℕ)
  pub scavenge_timers : List (ℕ × ℕ)
  pub rr : ℕ
  pub stats : Counters

-- `local_address_`, or `local_path_` where `local_is_unix_`.
pub data Local : Type 0 where
  tcp : MultiPort → Local
  unix : List ℕ → Local

abbrev pub read_local : List ℕ → Option MultiPort → Option Local
read_local path none = some (unix path)
read_local path (some m) = if not (m.min_port == m.max_port) then none else some (tcp m)

-- The constructor, on a system with local sockets: the remote address, the local one, and the client.
-- An exception is `none`.
unfoldable pub make_client :
    {A K : Type 0} → Library → ClientConfig → Counters → Option (MultiPort × Local × Client A K)
make_client crypto config stats = do
  crypt ← make_crypt crypto config.base.key config.base.crypt
  remote ← parse_multiport config.remoteaddr
  local' ← read_local config.localaddr (parse_multiport config.localaddr)
  some (
    remote,
    local',
    record {
      config = config;
      crypt = crypt;
      connections = [];
      next_number = 0;
      transports = [];
      muxes = replicate (at_least_one config.conn) none;
      scavenge_timers = [];
      rr = 0;
      stats = stats;
    },
  )

unfoldable pub contains : ℕ → List ℕ → Bool
contains n [] = false
contains n (x ∷ xs) = (x == n) || contains n xs

-- The loop of `next_conv` on what `random_conv` gives, up to the first number that is free. The source goes on until
-- one comes: `none` is a loop that has not ended.
unfoldable pub next_conv : List ℕ → List ℕ → Option ℕ
unfolding contains
next_conv transports [] = none
next_conv transports (conv ∷ more) =
    let later = next_conv transports more in
    if not (contains conv transports) then some conv else later

unfoldable pub erase : ℕ → List ℕ → List ℕ
erase n [] = []
erase n (x ∷ xs) = let rest = erase n xs in if x == n then xs else x ∷ rest

module _ {A K : Type 0} where
  unfoldable pub find : ℕ → List (ℕ × Connection A K) → Option (Connection A K)
  find number [] = none
  find number ((n, c) ∷ rest) =
      let later = find number rest in if n == number then some c else later

  unfoldable pub replace :
      ℕ → Connection A K → List (ℕ × Connection A K) → List (ℕ × Connection A K)
  replace number d [] = []
  replace number d ((n, c) ∷ rest) =
      let rest' = replace number d rest in if n == number then (n, d) ∷ rest else (n, c) ∷ rest'

  -- The close handler of a transport.
  unfoldable pub on_close : ℕ → Connection A K → Client A K → Client A K
  unfolding erase replace
  on_close number c s = record s {
    connections = replace number (record c { socket_open = false }) s.connections;
    transports = erase c.conv s.transports;
    stats = snmp_connection_close s.stats;
  }

  -- A connection after a handler, which calls the close handler where it closes the transport.
  unfoldable pub update_connection : ℕ → Connection A K → Tunnel K → Client A K → Client A K
  unfolding on_close replace
  update_connection number c t s =
      let c' = record c { tunnel = t } in
      if t.closing && not c.tunnel.closing
      then on_close number c' s
      else record s { connections = replace number c' s.connections }

module _ {A K : Type 0} (libs : Libraries K) (m : Moment) where
  -- `create_connection`, and the slot that its caller puts it in. `draws` is what `random_conv` gives, `remote` what
  -- `pick_remote_endpoint` gives, and `draw` the random bytes of the packets; an exception is `none`.
  unfoldable pub create_connection :
      List ℕ → Option (Endpoint A) → (ℕ → List ℕ) → ℕ → Client A K → Option (ℕ × Client A K)
  unfolding next_conv
  create_connection draws remote draw index s = do
    conv ← next_conv s.transports draws
    endpoint ← remote
    t ← make_tunnel libs m conv s.config.base true none draw
    let expiry = m.nanos + at_least_zero s.config.autoexpire * 1_000_000_000
    let delay = at_least_zero s.config.autoexpire + at_least_zero s.config.scavengettl
    let connection : Connection A K = record {
      conv = conv;
      remote_endpoint = endpoint;
      tunnel = t;
      expiry = expiry;
      socket_open = true;
    }
    some (
      s.next_number,
      record s {
        connections = (s.next_number, connection) ∷ s.connections;
        next_number = s.next_number + 1;
        transports = conv ∷ s.transports;
        muxes = set s.muxes index (some s.next_number);
        scavenge_timers =
            if above s.config.autoexpire 0
            then (s.next_number, delay) ∷ s.scavenge_timers
            else s.scavenge_timers;
        stats = snmp_connection_open true s.stats;
      },
    )
