-- ===== src/Storage.antt =====
-- src/storage and src/store: the key-value store and its file.
pub mod Entries
pub mod Format
pub mod RoundTrip
pub mod File
pub mod KvStore
pub mod Memory
pub mod Laws
pub mod Interface
pub mod Durable
