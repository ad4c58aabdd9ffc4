-- ===== src/Rpc.antt =====
-- src/grpc: the client, the server, and the messages between them.
pub mod Wire
pub mod Convert
pub mod Retry
pub mod Client
pub mod RaftClient
pub mod ErrorText
pub mod Handler
pub mod KvService
pub mod RaftService
pub mod RaftAnswers
pub mod Loopback
pub mod Server
