-- ===== src/Node.antt =====
-- The package node: peer ownership across the probe's instances, and what each instance runs.
pub mod PeerSet
pub mod Gater
pub mod PeerFinder
pub mod PeerManager
pub mod Block
pub mod Attestation
pub mod UserAgent
pub mod Connectivity
pub mod Host
pub mod Gossipsub
pub mod Scoring
