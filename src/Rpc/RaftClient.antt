-- ===== src/Rpc/RaftClient.antt =====
-- src/grpc/grpc_client.cpp: the calls of the Raft service.
use fault_tolerant_kv_store.Prelude.{ℕ, Option, none, some, not, ◌==◌, if◌then◌else◌}
use fault_tolerant_kv_store.Status.{data_loss}
use fault_tolerant_kv_store.Exec.{Exec, ◌>>=◌, pure, throw, invalid_argument, grpc_error}
use fault_tolerant_kv_store.Raft.Types.{
  NodeId, NodeState, NodeSnapshot, RequestVoteRequest, RequestVoteResponse, AppendEntriesRequest,
  AppendEntriesResponse,
}
use fault_tolerant_kv_store.Rpc.Wire
use fault_tolerant_kv_store.Rpc.Convert.{
  to_wire_vote, to_wire_append, from_wire_voted, from_wire_appended, from_role, from_wire_status,
}
use fault_tolerant_kv_store.Rpc.Retry.{Network, invoke_with_retry}
use fault_tolerant_kv_store.Rpc.Client.{GrpcClient, check_status, invoke}

module _ ⦃net : Network⦄ where
  -- The `switch` on the role.
  abbrev pub read_status :
      Option NodeState → ℕ → Wire.NodeStatusResponse → Exec net.World NodeSnapshot
  read_status none attempts response = throw (
      grpc_error "GetStatus"
        (record { code = data_loss; message = "server returned an unknown Raft role" }) attempts)
  read_status (some state) attempts response = pure (from_wire_status state response)

  unfoldable pub status : GrpcClient → Exec net.World NodeSnapshot
  unfolding invoke_with_retry check_status
  status client = do
    result ← invoke_with_retry client.options (client.channel.call_status Wire.status_request)
    response ← check_status "GetStatus" result
    read_status (from_role response.role) result.attempts response

  unfoldable pub ask_vote : GrpcClient → RequestVoteRequest → Exec net.World RequestVoteResponse
  unfolding invoke to_wire_vote from_wire_voted
  ask_vote client request = do
    response ← invoke "RequestVote" client.options (client.channel.call_vote (to_wire_vote request))
    pure (from_wire_voted response)

  unfoldable pub request_vote :
      GrpcClient → NodeId → RequestVoteRequest → Exec net.World RequestVoteResponse
  unfolding ask_vote
  request_vote client sender request =
      if not (request.candidate_id == sender)
      then throw (invalid_argument "RequestVote sender must match candidate ID")
      else ask_vote client request

  unfoldable pub ask_append :
      GrpcClient → AppendEntriesRequest → Exec net.World AppendEntriesResponse
  unfolding invoke to_wire_append from_wire_appended
  ask_append client request = do
    response ←
        invoke "AppendEntries" client.options (client.channel.call_append (to_wire_append request))
    pure (from_wire_appended response)

  unfoldable pub append_entries :
      GrpcClient → NodeId → AppendEntriesRequest → Exec net.World AppendEntriesResponse
  unfolding ask_append
  append_entries client sender request =
      if not (request.leader_id == sender)
      then throw (invalid_argument "AppendEntries sender must match leader ID")
      else ask_append client request
