-- ===== src/Examples.antt =====
-- The theorems at concrete inputs. The libraries that the program calls are simple functions here.
mod Data
mod Packets
mod Streams
mod Codecs
mod Sessions
mod Settings
mod Transports
mod Endpoints
mod Clients
mod Routes
