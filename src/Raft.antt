-- ===== src/Raft.antt =====
-- raft/: the consensus node, its log on disk, and the messages between nodes.
pub mod Storage
pub mod Entry
pub mod Log
pub mod Node
pub mod Cluster
mod Tests
