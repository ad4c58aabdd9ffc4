-- ===== src/Raft/Durability.antt =====
-- What a call of `RaftNode` has saved when it returns.
pub mod Defs
pub mod Sending
pub mod Elections
pub mod Appending
pub mod Replies
pub mod Whole
