-- ===== src/Raft.antt =====
-- src/raft: the consensus core.
pub mod Types
pub mod Platform
pub mod Node
pub mod Replication
pub mod Election
pub mod AppendEntries
pub mod AppendReplies
pub mod Construction
pub mod Calls
pub mod Safety
pub mod Restart
pub mod Durability
pub mod History
pub mod Answers
pub mod Recovery
pub mod VoteRetry
pub mod Memory
