-- ===== src/Rpc/RaftService.antt =====
-- `RaftService` of src/grpc/grpc_server.cpp, over a Raft node.
use fault_tolerant_kv_store.Prelude.{Bool, Option, none, some}
use fault_tolerant_kv_store.Status.{Status}
use fault_tolerant_kv_store.Exec.{Exec, ◌>>=◌, pure, gets, throw, invalid_argument, logic_error}
use fault_tolerant_kv_store.Result.{Result, ok, err}
use fault_tolerant_kv_store.Raft.Types.{
  RequestVoteRequest, RequestVoteResponse, AppendEntriesRequest, AppendEntriesResponse, Message,
  Rpc, vote_request, vote_response, append_request, append_response,
}
use fault_tolerant_kv_store.Raft.Platform.{Platform}
use fault_tolerant_kv_store.Raft.Node.{Node, snapshot}
use fault_tolerant_kv_store.Raft.Calls.{handle_request}
use fault_tolerant_kv_store.Rpc.Wire
use fault_tolerant_kv_store.Rpc.Convert.{
  from_wire_vote, from_wire_append, to_wire_voted, to_wire_appended, to_wire_status,
}
use fault_tolerant_kv_store.Rpc.ErrorText.{Texts}
use fault_tolerant_kv_store.Rpc.Handler.{run_handler}

module _ ⦃p : Platform⦄ where
  -- The constructor; `none` is a null pointer.
  abbrev pub raft_service : Option Node → Result Node
  raft_service none = err (invalid_argument "Raft node must not be null")
  raft_service (some node) = ok node

  -- The response in the message, if it is one of the kind that was asked for.
  abbrev pub voted : Rpc → Exec Node RequestVoteResponse
  voted (vote_response response) = pure response
  voted _ = throw (logic_error "Raft node did not produce a RequestVote response")

  abbrev pub take_vote : Option Message → Exec Node RequestVoteResponse
  take_vote none = throw (invalid_argument "RequestVote sender is not a cluster member")
  take_vote (some message) = voted message.rpc

  abbrev pub appended : Rpc → Exec Node AppendEntriesResponse
  appended (append_response response) = pure response
  appended _ = throw (logic_error "Raft node did not produce an AppendEntries response")

  abbrev pub take_append : Option Message → Exec Node AppendEntriesResponse
  take_append none = throw (invalid_argument "AppendEntries sender is not a cluster member")
  take_append (some message) = appended message.rpc

  -- What the node makes of a request that came over the wire.
  unfoldable pub local_vote : RequestVoteRequest → Exec Node RequestVoteResponse
  unfolding handle_request
  local_vote request = do
    to ← gets (λ n. n.config.node_id)
    message ←
        handle_request (record { from = request.candidate_id; to = to; rpc = vote_request request })
    take_vote message

  unfoldable pub local_append : AppendEntriesRequest → Exec Node AppendEntriesResponse
  unfolding handle_request
  local_append request = do
    to ← gets (λ n. n.config.node_id)
    message ←
        handle_request (record { from = request.leader_id; to = to; rpc = append_request request })
    take_append message

  module _ ⦃texts : Texts⦄ (early late : Bool) where
    unfoldable pub serve_vote :
        Wire.RequestVoteRequest → Exec Node (Status × Wire.RequestVoteResponse)
    unfolding run_handler local_vote from_wire_vote to_wire_voted
    serve_vote request =
        run_handler early late Wire.cleared_vote
          do response ← local_vote (from_wire_vote request); pure (to_wire_voted response)

    unfoldable pub serve_append :
        Wire.AppendEntriesRequest → Exec Node (Status × Wire.AppendEntriesResponse)
    unfolding run_handler local_append from_wire_append to_wire_appended
    serve_append request =
        run_handler early late Wire.cleared_append
          do response ← local_append (from_wire_append request); pure (to_wire_appended response)

    unfoldable pub serve_status :
        Wire.NodeStatusRequest → Exec Node (Status × Wire.NodeStatusResponse)
    unfolding run_handler snapshot to_wire_status
    serve_status request =
        run_handler early late Wire.cleared_status
          do node ← gets snapshot; pure (to_wire_status node)
