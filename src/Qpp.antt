-- ===== src/Qpp.antt =====
-- qpp.hpp and qpp.cpp: the quantum permutation pad that obscures the bytes of a stream.
pub mod Prng
pub mod Pad
pub mod Permutation
pub mod Shuffle
pub mod RoundTrip
pub mod Stream
pub mod Chunks
