-- ===== src/Server.antt =====
-- server.hpp and server.cpp: the listeners, their sessions, and the construction.
pub mod Listener
pub mod Table
pub mod Sessions
pub mod Packets
pub mod Steps
pub mod Process
pub mod Isolation
pub mod Start
pub mod Routing
