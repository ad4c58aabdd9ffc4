-- ===== src/Rpc/Loopback/Raft.antt =====
-- `GrpcClient` of src/grpc/grpc_client.cpp over `RaftService` of src/grpc/grpc_server.cpp.
use fault_tolerant_kv_store.Prelude.{
  ==_refl, not, if◌then◌else◌, ◌≡◌, refl, sym, subst, inl, ◌∙◌, ap, false,
}
use fault_tolerant_kv_store.Status.{Status}
use fault_tolerant_kv_store.Exec.{returns, continue, throw, invalid_argument}
use fault_tolerant_kv_store.Result.{ok}
use fault_tolerant_kv_store.Raft.Types.{RequestVoteRequest, AppendEntriesRequest}
use fault_tolerant_kv_store.Raft.Platform.{Platform}
use fault_tolerant_kv_store.Raft.Node.{Node, snapshot}
use fault_tolerant_kv_store.Rpc.Wire
use fault_tolerant_kv_store.Rpc.Convert.{
  to_wire_vote, to_wire_append, to_wire_voted, to_wire_appended, to_wire_status, from_wire_vote,
  from_wire_append, from_wire_voted, from_wire_appended, from_wire_append-to_wire_append,
  from_wire_voted-to_wire_voted, from_wire_appended-to_wire_appended,
  from_wire_status-to_wire_status, from_role-to_role,
}
use fault_tolerant_kv_store.Rpc.Retry.{GrpcClientOptions, validate_options}
use fault_tolerant_kv_store.Rpc.Client.{Channel, GrpcClient}
use fault_tolerant_kv_store.Rpc.RaftClient.{
  ask_vote, request_vote, ask_append, append_entries, status, read_status,
}
use fault_tolerant_kv_store.Rpc.Retry.Early.{invoke_with_retry_once}
use fault_tolerant_kv_store.Rpc.ErrorText.{Texts}
use fault_tolerant_kv_store.Rpc.Handler.{conclude, run_handler}
use fault_tolerant_kv_store.Rpc.RaftService.{
  local_vote, local_append, serve_vote, serve_append, serve_status,
}
use fault_tolerant_kv_store.Rpc.Loopback.{loopback, delivered, IsDefined, reported, invoke-written}

module _ ⦃p : Platform⦄ ⦃texts : Texts⦄ (lost : Status) where
  -- The stubs of the Raft service reach its handlers, those of the key-value service nothing.
  abbrev pub raft_channel : Channel ⦃net = loopback Node⦄
  raft_channel = record {
    call_get = λ q time n. ((lost, Wire.cleared_get), n);
    call_put = λ q time n. ((lost, Wire.put_done), n);
    call_delete = λ q time n. ((lost, Wire.cleared_delete), n);
    call_vote = λ q. delivered lost Wire.cleared_vote (serve_vote false false q);
    call_append = λ q. delivered lost Wire.cleared_append (serve_append false false q);
    call_status = λ q. delivered lost Wire.cleared_status (serve_status false false q);
  }

  module _ (options : GrpcClientOptions) where
    abbrev pub raft_client : GrpcClient ⦃net = loopback Node⦄
    raft_client = record { options = options; channel = raft_channel }

    ask_vote-local_vote :
        (request : RequestVoteRequest) (n : Node)
        → validate_options options ≡ ok tt
        → IsDefined (local_vote request n)
        → ask_vote ⦃net = loopback Node⦄ raft_client request n
          ≡ reported "RequestVote" (local_vote request n)
    unfolding ask_vote serve_vote from_wire_vote to_wire_vote
    ask_vote-local_vote request n valid defined =
        invoke-written to_wire_voted from_wire_voted from_wire_voted-to_wire_voted lost
          Wire.cleared_vote "RequestVote" options (local_vote request) n valid defined

    -- With options that the constructor accepts, a network that delivers every call, and a node whose
    -- call is not undefined: a request for a vote that a client sends for its own candidate gets what
    -- the node answers to it, and an exception of the node becomes a `GrpcError` after one attempt.
    pub request_vote-local_vote :
        (request : RequestVoteRequest) (n : Node)
        → validate_options options ≡ ok tt
        → IsDefined (local_vote request n)
        → request_vote ⦃net = loopback Node⦄ raft_client request.candidate_id request n
          ≡ reported "RequestVote" (local_vote request n)
    unfolding request_vote
    request_vote-local_vote request n valid defined =
        ap
          (λ b.
            (if not b
                then throw (invalid_argument "RequestVote sender must match candidate ID")
                else ask_vote ⦃net = loopback Node⦄ raft_client request)
              n)
          (==_refl request.candidate_id)
        ∙ ask_vote-local_vote request n valid defined

    ask_append-local_append :
        (request : AppendEntriesRequest) (n : Node)
        → validate_options options ≡ ok tt
        → IsDefined (local_append request n)
        → ask_append ⦃net = loopback Node⦄ raft_client request n
          ≡ reported "AppendEntries" (local_append request n)
    unfolding ask_append serve_append
    ask_append-local_append request n valid defined =
        let again = from_wire_append-to_wire_append request in
        invoke-written to_wire_appended from_wire_appended from_wire_appended-to_wire_appended lost
          Wire.cleared_append "AppendEntries" options
          (local_append (from_wire_append (to_wire_append request))) n valid
          (subst (λ r. IsDefined (local_append r n)) (sym again) defined)
        ∙ ap (λ r. reported "AppendEntries" (local_append r n)) again

    -- With options that the constructor accepts, a network that delivers every call, and a node whose
    -- call is not undefined: entries that a client sends for their leader get what the node answers to
    -- them, and an exception of the node becomes a `GrpcError` after one attempt.
    pub append_entries-local_append :
        (request : AppendEntriesRequest) (n : Node)
        → validate_options options ≡ ok tt
        → IsDefined (local_append request n)
        → append_entries ⦃net = loopback Node⦄ raft_client request.leader_id request n
          ≡ reported "AppendEntries" (local_append request n)
    unfolding append_entries
    append_entries-local_append request n valid defined =
        ap
          (λ b.
            (if not b
                then throw (invalid_argument "AppendEntries sender must match leader ID")
                else ask_append ⦃net = loopback Node⦄ raft_client request)
              n)
          (==_refl request.leader_id)
        ∙ ask_append-local_append request n valid defined

    -- With options that the constructor accepts and a network that delivers every call, a client's
    -- `status` is the node's snapshot.
    pub status-snapshot :
        (n : Node)
        → validate_options options ≡ ok tt
        → status ⦃net = loopback Node⦄ raft_client n ≡ returns (snapshot n) n
    unfolding status to_wire_status serve_status run_handler conclude
    status-snapshot n valid =
        ap (continue _) (
          invoke_with_retry_once ⦃net = loopback Node⦄ options
            (raft_channel.call_status Wire.status_request) n valid (inl refl))
        ∙ ap (λ role. read_status ⦃net = loopback Node⦄ role 1 (to_wire_status (snapshot n)) n)
            (from_role-to_role n.state)
        ∙ ap (λ m. returns m n) (from_wire_status-to_wire_status (snapshot n))
