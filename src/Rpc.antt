-- ===== src/Rpc.antt =====
-- rpc/rpc.go: the bit field of the subnets, the answers to requests, and the status handshake.
pub mod Attnets
pub mod Handlers
pub mod Handshake
pub mod Tests
