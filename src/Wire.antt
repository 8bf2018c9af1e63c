-- ===== src/Wire.antt =====
-- The fixed-width integers that the packet and frame headers hold: little-endian in smux.cpp, fec.cpp,
-- crypto.cpp and snappy_stream.cpp, big-endian in utils.cpp. A buffer is a list of bytes; a pointer
-- into it is the list from there on, and a caller has checked that enough bytes are left.
pub mod Codec
pub mod RoundTrip
