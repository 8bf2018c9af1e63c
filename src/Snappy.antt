-- ===== src/Snappy.antt =====
-- snappy_stream.hpp and snappy_stream.cpp: the framing of the compressed stream. The functions
-- `snappy::Compress` and `snappy::Uncompress` are parameters.
pub mod Stream
pub mod Fragments
pub mod Chunks
pub mod RoundTrip
