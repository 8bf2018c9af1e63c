-- ===== src/Smux.antt =====
-- The stream multiplexer of smux.hpp and smux.cpp.
pub mod State
pub mod Outbound
pub mod Stream
pub mod Frame
pub mod Session
pub mod Parse
pub mod Keeps
pub mod Consume
pub mod Fragments
pub mod Ids
pub mod Reports
pub mod Flow
pub mod Flush
pub mod Events
pub mod Once
pub mod Ending
pub mod Handlers
pub mod Life
