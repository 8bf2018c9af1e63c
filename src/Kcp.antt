-- ===== src/Kcp.antt =====
-- kcp_session.hpp and kcp_session.cpp: one TCP stream over one KCP conversation.
pub mod State
pub mod Frame
pub mod Stream
pub mod Session
pub mod Parse
pub mod Consume
pub mod Pieces
pub mod Delivery
pub mod Drain
pub mod Setup
