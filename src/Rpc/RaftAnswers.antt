-- ===== src/Rpc/RaftAnswers.antt =====
-- `RequestVote` and `AppendEntries` of src/grpc/grpc_server.cpp on what `handle_request` returns, with
-- the client of src/grpc/grpc_client.cpp that asks.
use Prim.Native.String.{String}
use fault_tolerant_kv_store.Prelude.{◌≡◌, refl, sym, subst, Option, none, some, ◌⊎◌, inl, inr}
use fault_tolerant_kv_store.Status.{Status, invalid_argument_code}
use fault_tolerant_kv_store.Exec.{
  Outcome, returns, throws, undefined, continue, returned, thrown, IfReturns, grpc_error,
}
use fault_tolerant_kv_store.Result.{ok}
use fault_tolerant_kv_store.Raft.Types.{
  RequestVoteRequest, RequestVoteResponse, AppendEntriesRequest, AppendEntriesResponse, Message,
  Rpc, vote_request, vote_response, append_request, append_response,
}
use fault_tolerant_kv_store.Raft.Platform.{Platform}
use fault_tolerant_kv_store.Raft.Node.{Node}
use fault_tolerant_kv_store.Raft.Calls.{handle_request}
use fault_tolerant_kv_store.Raft.Answers.{
  IsResponse, to_vote, to_entries, IsAnswered, handle_request-IsAnswered,
}
use fault_tolerant_kv_store.Rpc.ErrorText.{Texts}
use fault_tolerant_kv_store.Rpc.Handler.{status_of}
use fault_tolerant_kv_store.Rpc.Retry.{GrpcClientOptions, validate_options}
use fault_tolerant_kv_store.Rpc.RaftClient.{request_vote, append_entries}
use fault_tolerant_kv_store.Rpc.RaftService.{
  voted, take_vote, local_vote, appended, take_append, local_append,
}
use fault_tolerant_kv_store.Rpc.Loopback.{loopback, IsDefined, reported}
use fault_tolerant_kv_store.Rpc.Loopback.Raft.{
  raft_client, request_vote-local_vote, append_entries-local_append,
}

module _ ⦃p : Platform⦄ where
  abbrev pub vote_message : RequestVoteRequest → Node → Message
  vote_message r n = record { from = r.candidate_id; to = n.config.node_id; rpc = vote_request r }

  abbrev pub append_message : AppendEntriesRequest → Node → Message
  append_message r n = record { from = r.leader_id; to = n.config.node_id; rpc = append_request r }

  module _ ⦃texts : Texts⦄ where
    -- What a client gets for what `handle_request` of the node comes to: the response in the message that
    -- it gives, an error for a request that it does not answer, and an error for its exception. `wrap` is
    -- the constructor of the response's payload.
    abbrev pub IsTaken :
        {R : Type 0}
        → String
        → String
        → (R → Rpc)
        → Outcome Node (Option Message)
        → Outcome Node R
        → Type 0
    IsTaken {R} name text wrap (returns (some message) t) result =
        (response : R) × (message.rpc ≡ wrap response) × (result ≡ returns response t)
    IsTaken name text wrap (returns none t) result =
        result
        ≡ throws (grpc_error name (record { code = invalid_argument_code; message = text }) 1) t
    IsTaken name text wrap (throws e t) result = result ≡ throws (grpc_error name (status_of e) 1) t
    IsTaken name text wrap undefined result = Unit {0}

    abbrev pub VoteTaken : Outcome Node (Option Message) → Outcome Node RequestVoteResponse → Type 0
    VoteTaken = IsTaken "RequestVote" "RequestVote sender is not a cluster member" vote_response

    abbrev pub AppendTaken :
        Outcome Node (Option Message) → Outcome Node AppendEntriesResponse → Type 0
    AppendTaken =
        IsTaken "AppendEntries" "AppendEntries sender is not a cluster member" append_response

    voted-Taken :
        (q : RequestVoteRequest) (message : Message) (t : Node) (rpc : Rpc)
        → message.rpc ≡ rpc
        → IsResponse (vote_request q) rpc
        → IsDefined (voted rpc t)
          × VoteTaken (returns (some message) t) (reported "RequestVote" (voted rpc t))
    voted-Taken q message t (vote_response r) e to_vote = (returned tt, (r, e, refl))
    voted-Taken q message t (vote_request r) e h = elim h [ ]
    voted-Taken q message t (append_request r) e h = elim h [ ]
    voted-Taken q message t (append_response r) e h = elim h [ ]

    appended-Taken :
        (q : AppendEntriesRequest) (message : Message) (t : Node) (rpc : Rpc)
        → message.rpc ≡ rpc
        → IsResponse (append_request q) rpc
        → IsDefined (appended rpc t)
          × AppendTaken (returns (some message) t) (reported "AppendEntries" (appended rpc t))
    appended-Taken q message t (append_response r) e (to_entries same) = (returned tt, (r, e, refl))
    appended-Taken q message t (vote_request r) e h = elim h [ ]
    appended-Taken q message t (vote_response r) e h = elim h [ ]
    appended-Taken q message t (append_request r) e h = elim h [ ]

    vote-Taken :
        (q : RequestVoteRequest) (n : Node) (r : Outcome Node (Option Message))
        → IfReturns (IsAnswered (vote_message q n) n) r
        → (r ≡ undefined)
          ⊎ (IsDefined (continue take_vote r)
              × VoteTaken r (reported "RequestVote" (continue take_vote r)))
    unfolding status_of
    vote-Taken q n (returns none t) h = inr (thrown tt, refl)
    vote-Taken q n (returns (some message) t) h =
        let (s, others, _, first, _) = h in
        inr (voted-Taken q message t message.rpc refl first.answer.1)
    vote-Taken q n (throws e t) h = inr (thrown tt, refl)
    vote-Taken q n undefined h = inl refl

    append-Taken :
        (q : AppendEntriesRequest) (n : Node) (r : Outcome Node (Option Message))
        → IfReturns (IsAnswered (append_message q n) n) r
        → (r ≡ undefined)
          ⊎ (IsDefined (continue take_append r)
              × AppendTaken r (reported "AppendEntries" (continue take_append r)))
    unfolding status_of
    append-Taken q n (returns none t) h = inr (thrown tt, refl)
    append-Taken q n (returns (some message) t) h =
        let (s, others, _, first, _) = h in
        inr (appended-Taken q message t message.rpc refl first.answer.1)
    append-Taken q n (throws e t) h = inr (thrown tt, refl)
    append-Taken q n undefined h = inl refl

    module _ (lost : Status) (options : GrpcClientOptions) where
      -- With options that the constructor accepts and a network that delivers every call, a client that
      -- asks a node for a vote for its own candidate gets the response in the message that the node's
      -- `handle_request` gives, `INVALID_ARGUMENT` where it gives none, and the status of its exception
      -- where it throws, after one attempt; the node is left as that call leaves it. Nothing is said where
      -- the behaviour of that call is undefined.
      pub request_vote-IsTaken :
          (q : RequestVoteRequest) (n : Node)
          → validate_options options ≡ ok tt
          → VoteTaken
              (handle_request (vote_message q n) n)
              (request_vote ⦃net = loopback Node⦄ (raft_client lost options) q.candidate_id q n)
      unfolding local_vote
      request_vote-IsTaken q n valid =
          elim (vote-Taken q n (handle_request (vote_message q n) n)
            (handle_request-IsAnswered (vote_message q n) n)) [
              | inl e ↦ rw e tt
              | inr (defined, taken) ↦
                  subst (VoteTaken (handle_request (vote_message q n) n))
                    (sym (request_vote-local_vote lost options q n valid defined)) taken
            ]

      -- With options that the constructor accepts and a network that delivers every call, a client that
      -- sends a node entries for their leader gets the response in the message that the node's
      -- `handle_request` gives, `INVALID_ARGUMENT` where it gives none, and the status of its exception
      -- where it throws, after one attempt; the node is left as that call leaves it. Nothing is said where
      -- the behaviour of that call is undefined.
      pub append_entries-IsTaken :
          (q : AppendEntriesRequest) (n : Node)
          → validate_options options ≡ ok tt
          → AppendTaken
              (handle_request (append_message q n) n)
              (append_entries ⦃net = loopback Node⦄ (raft_client lost options) q.leader_id q n)
      unfolding local_append
      append_entries-IsTaken q n valid =
          elim (append-Taken q n (handle_request (append_message q n) n)
            (handle_request-IsAnswered (append_message q n) n)) [
              | inl e ↦ rw e tt
              | inr (defined, taken) ↦
                  subst (AppendTaken (handle_request (append_message q n) n))
                    (sym (append_entries-local_append lost options q n valid defined)) taken
            ]
