-- ===== src/Raft/Safety.antt =====
-- What every operation of a node keeps, and how a node may change from one operation to the next.
pub mod Logs
pub mod Defs
pub mod Shared
pub mod Commit
pub mod Quorum
pub mod Sends
pub mod Elections
pub mod Votes
pub mod Merging
pub mod Appending
pub mod Followers
pub mod Responses
pub mod Replies
pub mod Whole
pub mod Requests
pub mod Ticks
