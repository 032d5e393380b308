-- ===== src/Network.antt =====
-- Peer-to-peer networking (include/network, src/network).
pub mod Discovery
pub mod Peers
pub mod Sockets
pub mod Listening
pub mod Messages
