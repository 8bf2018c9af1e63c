-- ===== src/Lib.antt =====
-- Shimakaze: the tunnel that carries TCP and Unix streams over KCP.
--
-- A connection's bytes pass through these parts, from the socket to the network. A `SmuxStream` queues
-- what it reads, encrypts it with QPP where that is on, and cuts it into frames as far as the peer's
-- window allows. The `SmuxSession` puts a header on each frame and, unless `nocomp` is set, writes the
-- frames into one snappy stream. KCP makes packets of it; `KcpTransport` gives them to `FecCodec`, which
-- adds parity, has `PacketCrypt` seal what comes out, and sends it at its rate. The receiving side undoes
-- each step. A `KcpSession` carries a single TCP stream over a conversation of its own.
--
-- Which file models which part (paths below shimakaze/src/shimakaze):
--   Smux      smux.hpp, smux.cpp. `Smux.State.Stream` has the fields of `SmuxStream`; a handler is a
--             function on it with the source's name, and the calls that it makes of the session, the
--             socket and the timers are appended to `effects`. Outbound has the sending half, Stream
--             the others. A completion handler is a function of its own (`on_read`, `on_written`,
--             `on_connected`, ...), and Events lists what the event loop may deliver, in any order.
--             `Smux.Session.Core` and `Session` are `SmuxSession`; Frame is its frame header.
--   Qpp       qpp.hpp, qpp.cpp: the pad, its generator, the stream.
--   Crypto    crypto.hpp, crypto.cpp: `PacketCrypt`; a `none` is an exception or a refused packet.
--   Snappy    snappy_stream.hpp, snappy_stream.cpp: the encoder and the decoder.
--   Checksum  the two tables of CRC-32 and CRC-32C, which differ in their polynomial.
--   Wire      the little-endian and the 24-bit fields that the headers share.
--   Fec       fec.hpp, fec.cpp. Field has GF(256), Matrix the matrices over it, ReedSolomon the parity and
--             the recovery, Codec and Decoder the two halves of `FecCodec`; an exception is a `none`.
--             The other files have what they keep.
--   Kcp       kcp_session.hpp, kcp_session.cpp: one TCP stream over one conversation. Stream has the TCP side
--             and the frames it sends, Session the loops over what KCP gives; ikcp is a record of functions.
--   Transport kcp_transport.hpp, kcp_transport.cpp: `KcpTransport`. State has its fields, Sending the way to
--             the socket with the queue under a rate limit, Receiving the way from it.
--   Config    config.hpp, config.cpp. Values has the texts of the options, Fields the assignment by name,
--             Arguments the command line, Reading the JSON file, Parsing the two readers, Checks the
--             presets and the validation. An exception is a `refused`.
--   Tunnel    a `KcpTransport` with its `SmuxSession`, as the client and the server put them together: a handler of
--             the session is performed on the transport when it is done.
--   Server    server.hpp, server.cpp. `Server.Listener` is `UdpListener`: its sessions by their keys, and the
--             handler of a packet; Start has the construction and the ports that get a listener.
--             `Server.Process` has the listeners with the one set of counters that they share.
--   Client    client.hpp, client.cpp. `Client.State` has its fields and the connections, Accept the slots, the
--             accepted sockets and the scavenging, Receive the datagrams.
--   Stats     stats.hpp, stats.cpp: Counters has the counters, Report the JSON text and the log file.
--   Address   utils.cpp: addresses and ports. Endpoint has `endpoint_key`.
--   Common    lists, bits, bytes and tests that the parts share.
--   Examples  the theorems at concrete inputs.
--
-- A byte is a number below 256, a `std::string` the list of its bytes, an `int` of the configuration an
-- integer, and the sum of two wraps (`wrap_int`); `uint32_t` and `uint64_t` wrap by `% 2 ^ w`, written out. Maps are association lists.
--
-- Bounds and fuel. `flush_loop` gets a round for each waiting byte and each buffer, and one more; each
-- round sends a byte or drops a buffer. The decoder's loop and `consume_loop` get a round for each
-- buffered byte, and each takes several. `cfb_loop` gets a round for each byte of its buffer.
-- `parse_loop` gets a round for each buffered byte, and `drain_loop` one for each message that waits.
-- `port_loop` gets a round for each port there is.
--
-- Crypto++, snappy and ikcp are records of functions, whose documented behaviour is a hypothesis
-- (`IsLibrary`, `IsSnappy`, `IsQueue`, `TakesMtu`); so are asio's addresses (`IsAddresses`). Boost.JSON,
-- the files, the environment and the order of an unordered map are the record `Surroundings`. The calls
-- of the operating system, the logging, the diagnostics and the KCP protocol are not modelled. The
-- statistics are part of the client and of the server, and are left out of the parts below them. A
-- handler that an exception leaves gives `none`: the exception ends the program's loop. The connect handlers of
-- the streams give the state that it leaves, and the sends of `KcpSession` go on without the packet: there nothing
-- more happens in the program.
pub mod Common
pub mod Wire
pub mod Qpp
pub mod Checksum
pub mod Crypto
pub mod Snappy
pub mod Config
pub mod Address
pub mod Fec
pub mod Kcp
pub mod Transport
pub mod Smux
pub mod Examples
pub mod Stats
pub mod Tunnel
pub mod Server
pub mod Client
pub mod Endpoint
