-- ===== src/Fec.antt =====
-- fec.hpp and fec.cpp: forward error correction by Reed-Solomon shards over GF(256).
pub mod Field
pub mod Laws
pub mod Inverse
pub mod Matrix
pub mod ReedSolomon
pub mod Codec
pub mod Decoder
pub mod Sequence
pub mod Grouping
pub mod Sending
pub mod Construction
pub mod OpenSets
pub mod Receiving
pub mod Exchange
pub mod Padding
