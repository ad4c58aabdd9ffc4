-- ===== src/Lib.antt =====
-- A model of the fault-tolerant key-value store and its theorems.
--
-- The program is a set of layers. `RaftNode` (src/raft) is an event-driven consensus node: its owner
-- calls `tick`, `step`, `handle_request` and `propose`, and collects messages and committed entries.
-- It saves its term, its vote and its log through the interface `RaftStorage`. `KvStore` (src/storage)
-- is a map that is saved as a whole through the interface `Persistence` before a change is visible;
-- `FilePersistence` is the implementation over a file. `InMemoryKeyValueStore` (src/store) is the
-- map alone. The server (src/grpc) hands remote calls to the store and to the node; the client makes them,
-- and tries again. `NodeRuntime` (src/node) reads its configuration from the environment, makes these
-- parts, and runs the threads that drive the node; src/main.cpp starts it, or asks a running one.
--
-- Files:
-- Prelude, Bytes, Exec, Result: shared names and lemmas; bytes and the little-endian form of 64-bit
-- numbers; operations on a state that return, throw or have undefined behaviour; results that are
-- values or exceptions.
-- Raft/Types: src/raft/raft.h. Raft/Platform: `RaftStorage` and the random engine as a parameter.
-- Raft/Memory: `InMemoryRaftStorage` of src/raft/raft.cpp.
-- Raft/Node, Raft/Replication, Raft/Election, Raft/AppendEntries, Raft/AppendReplies,
-- Raft/Construction, Raft/Calls: src/raft/raft_node.cpp. A definition has the name of its function without `_locked`; a branch or
-- a loop that is long has a definition of its own, with the lemmas on it.
-- Raft/Safety: the invariant `Inv`, the order `Later` on the states of a node, and `Steps`, which
-- says that a call has no undefined behaviour and ends in a later state with the invariant. Its files:
-- Logs (valid logs), Shared (saves and stepping down), Commit and Quorum (`advance_commit_index_locked`),
-- Sends (`send_append_entries_locked`), Elections and Votes, Merging, Appending and Followers
-- (`handle_append_entries_locked`), Responses and Replies (`handle_append_entries_response_locked`), Whole
-- (`step`, `handle_request`), Ticks (`tick`, `propose`), Requests (what a leader sends). Raft/Restart: the constructor. Raft/History: sequences of calls.
-- Raft/Durability and Raft/Recovery: what is saved when a call returns, and what a new node finds.
-- Raft/VoteRetry: a request for a vote after a failed save. Raft/Answers: what `handle_request` gives, and
-- Rpc/RaftAnswers what a client gets of it.
-- Storage/Entries: the `unordered_map` of the stores as an association list. Storage/Format,
-- Storage/File, Storage/KvStore: src/storage/kv_store.cpp. Storage/Memory:
-- src/store/in_memory_key_value_store.cpp. Storage/RoundTrip, Storage/Laws and Storage/Durable hold
-- theorems.
-- Storage/Interface: `KeyValueStore` of include/ftkv/store/key_value_store.hpp and its two stores.
-- Status: the statuses of gRPC. Decimal: `std::to_string`, `std::from_chars`, `find` and `rfind`.
-- Rpc/Wire: the messages of proto/kvstore.proto. Rpc/Convert: the translations between them and the
-- types of the node. Rpc/Retry, Rpc/Client, Rpc/RaftClient: src/grpc/grpc_client.cpp.
-- Rpc/Handler, Rpc/KvService, Rpc/RaftService, Rpc/Server: src/grpc/grpc_server.cpp. Rpc/ErrorText: the texts
-- of exceptions. Rpc/Loopback: the client and the server together, over a network that delivers each
-- call, or loses the first answer.
-- Runtime/StateFormat, Runtime/StateRoundTrip, Runtime/RaftStorage: the codec of the persistent state
-- and `DurableRaftStorage` of src/node/node_runtime.cpp, which keeps that state in a `KvStore`.
-- Runtime/Configuration: its `from_environment`, with theorems in PeerOrder, PeerLaws, PeerRoundTrip and PeersUnique.
-- Runtime/Lifecycle: the constructor, `start` and `stop` of `NodeRuntime`, with theorems in LifecycleLaws
-- and Startup. Runtime/Threads: its threads as steps that interleave, with theorems in Interleaving,
-- Called and Refinement. Runtime/StorageLaws: `DurableRaftStorage` as a `RaftStorage`. Program: src/main.cpp.
-- Tests: concrete nodes, stores and files, and the theorems at them.
--
-- State and operations: a `Node` has the fields of `RaftNode`, with `storage` for the store behind the
-- pointer, and `random` for the state of the engine. `std::optional` is `Option`, a `std::unordered_map`
-- of a node is a function to `Option`, a vector is a list. A lock is held for the whole of each public
-- operation, so an operation is one step. Reading `log_` out of bounds is `undefined`; `at` on a
-- missing key throws. An exception leaves the changes made before it, as in the code.
--
-- Bounds: numbers are natural numbers. `++current_term_` and the request identifiers wrap at 2 ^ 64, as
-- written in `stand` and `next_request_id`. The other sums are indexes of a log in memory plus one, and
-- the match index of an `AppendEntriesRequest`. Durations are integers; the doubling of the
-- backoff wraps at 64 bits, where C++ leaves the result open, and the others have no bound. Every loop is a
-- recursion on its list or on its index, and the retry loop on the attempts that are left, so none needs
-- fuel; `to_decimal` writes at most 20 digits, as many as a 64-bit number has.
--
-- Parameters: the stubs and channels of gRPC with the world they act on, `BuildAndStart`, the answers of
-- `IsCancelled`, `getenv`, the joining of paths, the random engine, the failure of a thread to start and the workers that then miss its notification, and the
-- texts that the C++ library gives to its exceptions and numbers.
--
-- Not modelled: the code generated from proto/kvstore.proto, `run_node`, which waits for a signal, and
-- printing: a line that is printed is a value, and the lines that a node logs are left out. Messages of
-- exceptions leave out paths and addresses.

pub mod Prelude
pub mod Bytes
pub mod Decimal
pub mod Status
pub mod Exec
pub mod Result
pub mod Raft
pub mod Storage
pub mod Runtime
pub mod Rpc
pub mod Program
pub mod Tests
