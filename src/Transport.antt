-- ===== src/Transport.antt =====
-- kcp_transport.hpp and kcp_transport.cpp: one KCP conversation over UDP, with forward error correction,
-- encryption and a limit on its rate.
pub mod State
pub mod Sending
pub mod Receiving
pub mod Pacing
pub mod Waiting
pub mod Path
pub mod Keeps
pub mod Arrivals
