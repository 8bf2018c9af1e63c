-- ===== src/Server/Start.antt =====
-- The construction of the server and of its listeners.
use shimakaze.Common.{
  ℕ, zero, suc, ◌+◌, ◌-◌, ◌%◌, ◌^◌, ◌<◌, ◌≤◌, leb, ◌==◌, not, true, false, if◌then◌else◌, List, [],
  ◌∷◌, Option, none, some, ◌≡◌, refl, ap, sym, subst, ◌∙◌, arith,
}
use mathlib.Core.Option.{some-injective, none-ne-some}
use shimakaze.Address.{MultiPort, parse_multiport, parse_multiport-bounds}
use shimakaze.Config.Reading.{ServerConfig}
use shimakaze.Crypto.Packet.{Library, PacketCrypt, make_crypt}
use shimakaze.Fec.Matrix.{indices}
use shimakaze.Kcp.State.{◌>>=◌}
use shimakaze.Smux.State.{Stream}
use shimakaze.Smux.Stream.{start_server, start_server_unix}

-- `target_address_`, or `target_path_` where `target_is_unix_`.
pub data Target : Type 0 where
  tcp : MultiPort → Target
  unix : List ℕ → Target

pub record Server : Type 0 where
  pub config : ServerConfig
  pub crypt : PacketCrypt
  pub listen_address : MultiPort
  pub target : Target

abbrev pub read_target : List ℕ → Option MultiPort → Option Target
read_target path none = some (unix path)
read_target path (some m) = if not (m.min_port == m.max_port) then none else some (tcp m)

-- The constructor, on a system with local sockets; an exception is `none`.
unfoldable pub make_server : Library → ServerConfig → Option Server
make_server crypto config = do
  crypt ← make_crypt crypto config.base.key config.base.crypt
  listen ← parse_multiport config.listen
  target ← read_target config.target (parse_multiport config.target)
  some (record { config = config; crypt = crypt; listen_address = listen; target = target })

-- The accept handler that a listener gives to a new session.
abbrev pub accept : Target → Stream → Stream
accept (tcp address) stream = start_server stream
accept (unix path) stream = start_server_unix stream

-- The loop of `start`, with fuel for its rounds: the ports that get a listener.
unfoldable pub port_loop : ℕ → ℕ → ℕ → List ℕ
port_loop zero port last = []
port_loop (suc fuel) port last =
    let rest = port_loop fuel ((port + 1) % 2 ^ 16) last in
    if leb port last then port ∷ (if port == 65535 then [] else rest) else []

unfoldable pub start : Server → List ℕ
unfolding port_loop
start s = port_loop (2 ^ 16) s.listen_address.min_port s.listen_address.max_port

-- What an `Option` of a bind was.
made_bounds :
    (crypto : Library) (config : ServerConfig) {s : Server}
    → make_server crypto config ≡ some s
    → (0 < s.listen_address.min_port)
      × (s.listen_address.min_port ≤ s.listen_address.max_port)
      × (s.listen_address.max_port < 65536)
unfolding make_server
made_bounds crypto config {s} made =
    with_crypt (make_crypt crypto config.base.key config.base.crypt) made
  where
    with_target :
        (crypt : PacketCrypt) (listen : MultiPort) (o : Option Target)
        → (o >>= λ target.
            some
              (record { config = config; crypt = crypt; listen_address = listen; target = target }))
          ≡ some s
        → s.listen_address ≡ listen
    with_target crypt listen none e = absurd (none-ne-some s e)
    with_target crypt listen (some target) e =
        ap (λ (v : Server). v.listen_address)
          (sym (
            some-injective
              (record { config = config; crypt = crypt; listen_address = listen; target = target })
              s e))

    with_listen :
        (crypt : PacketCrypt) (o : Option MultiPort)
        → parse_multiport config.listen ≡ o
        → (o >>= λ listen. read_target config.target (parse_multiport config.target) >>= λ target.
            some
              (record { config = config; crypt = crypt; listen_address = listen; target = target }))
          ≡ some s
        → (0 < s.listen_address.min_port)
          × (s.listen_address.min_port ≤ s.listen_address.max_port)
          × (s.listen_address.max_port < 65536)
    with_listen crypt none p e = absurd (none-ne-some s e)
    with_listen crypt (some listen) p e =
        subst
          (λ (l : MultiPort). (0 < l.min_port) × (l.min_port ≤ l.max_port) × (l.max_port < 65536))
          (sym (
            with_target crypt listen (read_target config.target (parse_multiport config.target)) e))
          (parse_multiport-bounds config.listen p)

    with_crypt :
        (o : Option PacketCrypt)
        → (o >>= λ crypt. parse_multiport config.listen >>= λ listen.
            read_target config.target (parse_multiport config.target) >>= λ target.
            some
              (record { config = config; crypt = crypt; listen_address = listen; target = target }))
          ≡ some s
        → (0 < s.listen_address.min_port)
          × (s.listen_address.min_port ≤ s.listen_address.max_port)
          × (s.listen_address.max_port < 65536)
    with_crypt none e = absurd (none-ne-some s e)
    with_crypt (some crypt) e = with_listen crypt (parse_multiport config.listen) refl e

port_loop-past : (fuel port last : ℕ) → last < port → port_loop fuel port last ≡ []
unfolding port_loop
port_loop-past zero port last h = refl
port_loop-past (suc fuel) port last h = ground arith

-- The loop on ports of 16 bits, with enough fuel.
port_loop-indices :
    (fuel port last : ℕ)
    → port ≤ last
    → last < 2 ^ 16
    → last - port < fuel
    → port_loop fuel port last ≡ indices port (suc (last - port))
unfolding port_loop indices
port_loop-indices zero port last h small enough = absurd (omega arith)
port_loop-indices (suc fuel) port last h small enough =
    ap
      (λ b.
        if◌then◌else◌ {A = List ℕ} b
          (port ∷ (if port == 65535 then [] else port_loop fuel ((port + 1) % 2 ^ 16) last)) [])
      {x = leb port last} {y = true} (ground arith)
    ∙ ap (◌∷◌ port) (more (last - port) refl (port_loop-indices fuel (port + 1) last))
  where
    more :
        (n : ℕ)
        → last - port ≡ n
        → (port + 1 ≤ last
            → last < 2 ^ 16
            → last - (port + 1) < fuel
            → port_loop fuel (port + 1) last ≡ indices (port + 1) (suc (last - (port + 1))))
        → (if port == 65535 then [] else port_loop fuel ((port + 1) % 2 ^ 16) last)
          ≡ indices (port + 1) n
    more zero e ih = ground (
      arith,
      port_loop-past fuel (port + 1) last,
      ap (λ p. port_loop fuel p last) {x = (port + 1) % 2 ^ 16} {y = port + 1},
    )
    more (suc n) e ih =
        ap (λ b. if◌then◌else◌ {A = List ℕ} b [] (port_loop fuel ((port + 1) % 2 ^ 16) last))
          {x = port == 65535} {y = false} (ground arith)
        ∙ ap (λ p. port_loop fuel p last) {x = (port + 1) % 2 ^ 16} {y = port + 1} (omega arith)
        ∙ ih (omega arith) small (omega arith)
        ∙ ap (indices (port + 1)) {x = suc (last - (port + 1))} {y = suc n} (omega arith)

-- The server that the constructor makes gives each port of its `listen` address one listener, from the first to the
-- last in order: the loop of `start` ends by its own tests, also where the last port is 65535 and the next one
-- would wrap to 0.
pub start-indices :
    (crypto : Library) (config : ServerConfig) {s : Server}
    → make_server crypto config ≡ some s
    → start s
      ≡ indices s.listen_address.min_port
          (suc (s.listen_address.max_port - s.listen_address.min_port))
unfolding start
start-indices crypto config {s} made =
    let (low, ordered, high) = made_bounds crypto config made in
    port_loop-indices (2 ^ 16) s.listen_address.min_port s.listen_address.max_port ordered
      (omega (arith, high)) (omega (arith, high))
