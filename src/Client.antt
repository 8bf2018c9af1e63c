-- ===== src/Client.antt =====
-- client.hpp and client.cpp: the slots with their connections, and what comes for them.
pub mod State
pub mod Accept
pub mod Receive
pub mod Convs
pub mod Table
pub mod Connections
pub mod Creation
pub mod Serving
pub mod Steps
pub mod RoundRobin
