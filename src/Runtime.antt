-- ===== src/Runtime.antt =====
-- src/node: the process around the consensus core.
pub mod StateFormat
pub mod StateRoundTrip
pub mod RaftStorage
pub mod StorageLaws
pub mod Configuration
pub mod PeerOrder
pub mod PeerLaws
pub mod PeerRoundTrip
pub mod PeersUnique
pub mod Threads
pub mod Interleaving
pub mod Called
pub mod Refinement
pub mod Lifecycle
pub mod LifecycleLaws
pub mod Startup
