-- ===== src/Tests/RpcExamples.antt =====
-- The theorems on the remote calls at concrete clients and servers.
use fault_tolerant_kv_store.Prelude.{
  ℕ, zero, suc, ◌+◌, ◌≤◌, ◌≡◌, refl, none, some, [], ◌∷◌, true, false, arith,
}
use fault_tolerant_kv_store.Prelude.Int.{pos}
use fault_tolerant_kv_store.Status.{Status, ok_status, unavailable}
use fault_tolerant_kv_store.Exec.{Post, returns, throws, logic_error, runtime_error}
use fault_tolerant_kv_store.Result.{ok, err}
use fault_tolerant_kv_store.Bytes.{Bytes, bytes_eq}
use fault_tolerant_kv_store.Raft.Types.{RequestVoteRequest, AppendEntriesRequest}
use fault_tolerant_kv_store.Raft.Construction.{fresh_node}
use fault_tolerant_kv_store.Raft.Node.{Node}
use fault_tolerant_kv_store.Storage.Entries.{EntryMap, AreDistinct, not_none, has_key, erase_key}
use fault_tolerant_kv_store.Storage.KvStore.{Persistence}
use fault_tolerant_kv_store.Storage.Memory
use fault_tolerant_kv_store.Storage.Durable.{file_persistence}
use fault_tolerant_kv_store.Storage.Interface.{
  IsKeyValueStore, memory_store, memory_store-IsKeyValueStore,
}
use fault_tolerant_kv_store.Rpc.Retry.{
  default_options, validate_options, options_are_invalid, Network, Call, invoke_with_retry,
}
use fault_tolerant_kv_store.Rpc.Retry.First.{Ends, invoke_with_retry-Ends}
use fault_tolerant_kv_store.Rpc.Retry.Bounds.{paced, invoke_with_retry-paced}
use fault_tolerant_kv_store.Rpc.Client.{get, erase}
use fault_tolerant_kv_store.Rpc.RaftClient.{request_vote, append_entries}
use fault_tolerant_kv_store.Rpc.ErrorText.{Texts}
use fault_tolerant_kv_store.Raft.Calls.{handle_request}
use fault_tolerant_kv_store.Rpc.RaftAnswers.{
  vote_message, append_message, VoteTaken, AppendTaken, request_vote-IsTaken,
  append_entries-IsTaken,
}
use fault_tolerant_kv_store.Rpc.Loopback.{loopback}
use fault_tolerant_kv_store.Rpc.Loopback.Store.{
  remote_store, store_client, remote_store-IsKeyValueStore,
}
use fault_tolerant_kv_store.Rpc.Loopback.Raft.{raft_channel, raft_client}
use fault_tolerant_kv_store.Rpc.Loopback.LostReply.{lossy, lossy_client, erase_retried}
use fault_tolerant_kv_store.Rpc.Server.{
  Transport, GrpcServer, is_running, start, endpoint, start-Post,
}
use fault_tolerant_kv_store.Program.{
  status_flag, healthcheck_flag, main, nothing, status_of_node, success,
}
use fault_tolerant_kv_store.Program.Probe.{main-snapshot}
use fault_tolerant_kv_store.Tests.Cluster.{platform, node}

instance abbrev persistence : Persistence
persistence = file_persistence

instance abbrev texts : Texts
texts = record { out_of_range_text = "out of range"; to_string = λ attempts. "1" }

abbrev lost : Status
lost = record { code = unavailable; message = "" }

-- A server that is unavailable for the first two calls.
instance abbrev busy_net : Network
busy_net = record { World = ℕ; sleep = λ time calls. calls }

abbrev busy_call : Call ℕ
busy_call time zero = ((lost, 0), 1)
busy_call time (suc zero) = ((lost, 0), 2)
busy_call time (suc (suc calls)) = ((ok_status, 7), suc (suc (suc calls)))

defaults_valid : validate_options default_options ≡ ok tt
unfolding validate_options options_are_invalid
defaults_valid = refl

invoke_with_retry-Ends_example :
    Ends default_options busy_call 1 (pos 10) 0 (invoke_with_retry default_options busy_call 0)
invoke_with_retry-Ends_example = invoke_with_retry-Ends default_options busy_call 0 defaults_valid

invoke_with_retry-paced_example :
    (last : ℕ) × (1 + last ≤ 3)
    × (invoke_with_retry default_options busy_call 0
        ≡ returns
            (record {
              status = (busy_call (pos 500) (paced default_options busy_call 10 100 last 0)).0.0;
              response = (busy_call (pos 500) (paced default_options busy_call 10 100 last 0)).0.1;
              attempts = 1 + last;
            })
            (busy_call (pos 500) (paced default_options busy_call 10 100 last 0)).1)
invoke_with_retry-paced_example =
    invoke_with_retry-paced default_options busy_call 10 100 0 defaults_valid refl refl
      (omega arith)

remote_store-IsKeyValueStore_example :
    IsKeyValueStore (remote_store memory_store lost default_options) AreDistinct
    × ((key : Bytes) (s : EntryMap)
        → get ⦃net = loopback EntryMap⦄ (store_client memory_store lost default_options) key s
          ≡ returns (Memory.get key s) s)
remote_store-IsKeyValueStore_example =
    remote_store-IsKeyValueStore memory_store lost default_options AreDistinct defaults_valid
      memory_store-IsKeyValueStore

abbrev one_entry : EntryMap
one_entry = (97 ∷ [], 1 ∷ []) ∷ []

erases_one : memory_store.erase (97 ∷ []) one_entry ≡ returns true []
unfolding Memory.erase has_key erase_key bytes_eq
erases_one = refl

erases_none : memory_store.erase (97 ∷ []) [] ≡ returns false []
unfolding Memory.erase has_key erase_key
erases_none = refl

one_entry-AreDistinct : AreDistinct one_entry
unfolding has_key
one_entry-AreDistinct = (refl, tt)

erase_retried_example :
    (erase ⦃net = lossy EntryMap⦄
        (lossy_client memory_store default_options)
        (97 ∷ [])
        (true, one_entry)
      ≡ returns false (false, []))
    × (Memory.get (97 ∷ []) [] ≡ none)
    × (true ≡ not_none (Memory.get (97 ∷ []) one_entry))
erase_retried_example =
    erase_retried memory_store default_options AreDistinct (97 ∷ []) one_entry [] [] true false
      memory_store-IsKeyValueStore one_entry-AreDistinct defaults_valid (omega arith) erases_one
      erases_none

abbrev vote : RequestVoteRequest
vote = record { term = 1; candidate_id = 2; last_log_index = 0; last_log_term = 0 }

request_vote-IsTaken_example :
    VoteTaken
      (handle_request (vote_message vote node) node)
      (request_vote ⦃net = loopback Node⦄ (raft_client lost default_options) 2 vote node)
request_vote-IsTaken_example = request_vote-IsTaken lost default_options vote node defaults_valid

abbrev entries : AppendEntriesRequest
entries = record {
  term = 1;
  leader_id = 2;
  previous_log_index = 0;
  previous_log_term = 0;
  entries = [];
  leader_commit = 0;
  request_id = 5;
}

append_entries-IsTaken_example :
    AppendTaken
      (handle_request (append_message entries node) node)
      (append_entries ⦃net = loopback Node⦄ (raft_client lost default_options) 2 entries node)
append_entries-IsTaken_example =
    append_entries-IsTaken lost default_options entries node defaults_valid

main-snapshot_example :
    (main ⦃net = loopback Node⦄
        (λ n. returns tt n)
        (λ _. some (raft_channel lost))
        (status_flag ∷ (b'h' ∷ []) ∷ [])
        node
      ≡ returns
          (
            status_of_node (record {
              node_id = 1;
              state = "follower";
              term = 0;
              leader_id = 0;
              commit_index = 0;
              last_applied = 0;
              last_log_index = 0;
            }),
            success,
          )
          node)
    × (main ⦃net = loopback Node⦄
          (λ n. returns tt n)
          (λ _. some (raft_channel lost))
          (healthcheck_flag ∷ (b'h' ∷ []) ∷ [])
          node
        ≡ returns (nothing, success) node)
unfolding fresh_node
main-snapshot_example = main-snapshot lost (λ n. returns tt n) b'h' [] node

-- A transport that always chooses the port 50051.
instance abbrev transport : Transport
transport = record {
  Handle = Unit {0};
  World = ℕ;
  build_and_start = λ address servers. ((some tt, 50051), servers + 1);
  stop = λ handle servers. servers;
}

abbrev server : GrpcServer
server = record {
  listen_address = b'h' ∷ b':' ∷ b'0' ∷ [];
  server = none;
  bound_port = 0;
  world = 0;
}

abbrev bound_server : GrpcServer
bound_server = record server { server = some tt; bound_port = 50051 }

start-Post_example :
    (start bound_server ≡ throws (logic_error "gRPC server is already running") bound_server)
    × Post
        (λ _ t.
          (t.listen_address ≡ server.listen_address)
          × (is_running t.server ≡ true)
          × (t.bound_port ≡ 50051))
        (λ e t.
          (e ≡ runtime_error "failed to start gRPC server on ")
          × (is_running t.server ≡ false)
          × (endpoint t ≡ err (logic_error "gRPC server has not been started")))
        (start server)
start-Post_example = start-Post bound_server server refl refl
