-- ===== src/Config.antt =====
-- config.hpp and config.cpp: the settings, and how they are read and checked.
pub mod Base
pub mod Values
pub mod Fields
pub mod Arguments
pub mod Checks
pub mod Reading
pub mod Parsing
pub mod Bounds
pub mod Spelling
