-- ===== src/Crypto.antt =====
-- crypto.hpp and crypto.cpp: the envelope of a UDP packet.
pub mod Cipher
pub mod Packet
pub mod Cfb
pub mod Constructor
pub mod Methods
pub mod Envelope
