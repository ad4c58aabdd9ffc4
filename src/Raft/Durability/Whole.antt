-- ===== src/Raft/Durability/Whole.antt =====
-- The saves of the public operations.
use fault_tolerant_kv_store.Prelude.{
  ℕ, true, false, Option, none, some, List, drop, length, ltb, ◌==◌, ◌^◌, ◌-◌,
}
use fault_tolerant_kv_store.Prelude.Int.{ℤ, pos, ltb_ℤ}
use fault_tolerant_kv_store.Bytes.{Bytes}
use fault_tolerant_kv_store.Exec.{pure, throw, invalid_argument}
use fault_tolerant_kv_store.Raft.Platform.{Platform, Limits, IsDurable}
use fault_tolerant_kv_store.Raft.Types.{
  NodeId, Rpc, vote_request, vote_response, append_request, append_response, Message, message_term,
  Term,
}
use fault_tolerant_kv_store.Raft.Node.{Node, become_follower, last_log_index}
use fault_tolerant_kv_store.Raft.Election.{start_election, is_leader}
use fault_tolerant_kv_store.Raft.Calls.{
  beat, tick_leader, tick_other, tick_role, tick, dispatch, adopt_term, receive, step, is_request,
  give, take_response, extract_response, serve, handle_request, append_command, replicate,
  propose_leader, propose, heartbeat_is_due, election_is_due,
}
use fault_tolerant_kv_store.Raft.Durability.Defs.{
  IsSaved, Saves, Saves-if, Saves-continue, persist-Saves, become_follower-Saves,
}
use fault_tolerant_kv_store.Raft.Durability.Sending.{
  advance_commit_index-Saves, broadcast_append_entries-Saves,
}
use fault_tolerant_kv_store.Raft.Durability.Elections.{
  start_election-Saves, handle_request_vote-Saves, handle_request_vote_response-Saves,
}
use fault_tolerant_kv_store.Raft.Durability.Appending.{handle_append_entries-Saves}
use fault_tolerant_kv_store.Raft.Durability.Replies.{handle_append_entries_response-Saves}

module _ ⦃p : Platform⦄ ⦃limits : Limits p⦄ where
  pub tick-Saves : (t : ℤ) (n : Node) → IsDurable p → IsSaved n → Saves (tick t n)
  unfolding tick tick_role tick_leader tick_other beat
  tick-Saves t n law h =
      Saves-if (ltb_ℤ t (pos 0)) (throw (invalid_argument "elapsed time must not be negative"))
        (tick_role t) n tt
        (Saves-if (is_leader n.state) (tick_leader t) (tick_other t) n
          (Saves-if (heartbeat_is_due n t) beat _ n
            (broadcast_append_entries-Saves (record n { heartbeat_elapsed = pos 0 }) h) h)
          (Saves-if (election_is_due n t) start_election _ n (start_election-Saves n law h.0) h))

  dispatch-Saves :
      (from : NodeId) (rpc : Rpc) (n : Node) → IsDurable p → IsSaved n → Saves (dispatch from rpc n)
  unfolding dispatch
  dispatch-Saves from (vote_request r) n law h = handle_request_vote-Saves from r n law h
  dispatch-Saves from (vote_response r) n law h = handle_request_vote_response-Saves from r n law h
  dispatch-Saves from (append_request r) n law h = handle_append_entries-Saves from r n law h
  dispatch-Saves from (append_response r) n law h = handle_append_entries_response-Saves from r n h

  adopt_term-Saves : (t : Term) (n : Node) → IsDurable p → IsSaved n → Saves (adopt_term t n)
  unfolding adopt_term
  adopt_term-Saves t n law h =
      Saves-if (ltb n.current_term t) (become_follower t none) (pure tt) n
        (become_follower-Saves t none n law h) h

  receive-Saves : (m : Message) (n : Node) → IsDurable p → IsSaved n → Saves (receive m n)
  unfolding receive
  receive-Saves m n law h =
      Saves-continue _ _ (adopt_term-Saves (message_term m) n law h)
        λ _ k g. Saves-continue (λ _. pure true) _ (dispatch-Saves m.from m.rpc k law g) λ _ j u. u

  pub step-Saves : (m : Message) (n : Node) → IsDurable p → IsSaved n → Saves (step m n)
  unfolding step
  step-Saves m n law h = Saves-if _ (pure false) (receive m) n h (receive-Saves m n law h)

  give-Saves :
      (first : ℕ) (found : Option (Message × List Message)) (n : Node)
      → IsSaved n
      → Saves (give first found n)
  unfolding give
  give-Saves first none n h = h
  give-Saves first (some (response, others)) n h = h

  pub handle_request-Saves :
      (m : Message) (n : Node) → IsDurable p → IsSaved n → Saves (handle_request m n)
  unfolding handle_request serve take_response
  handle_request-Saves m n law h =
      Saves-if (is_request m.rpc) (serve m) _ n
        (Saves-continue _ _ (step-Saves m n law h) λ accepted k g.
          Saves-if accepted (take_response m (length n.outbox)) (pure none) k
            (give-Saves (length n.outbox) (extract_response m (drop (length n.outbox) k.outbox)) k
              g)
            g)
        tt

  replicate-Saves :
      (command : Bytes) (n : Node)
      → IsDurable p
      → limits.IsSound n.storage
      → Saves (replicate command n)
  unfolding replicate
  replicate-Saves command n law h =
      Saves-continue _ _ (persist-Saves (append_command command n) law h) λ _ m h.
        Saves-continue _ _ (advance_commit_index-Saves m h) λ _ k g.
          Saves-continue (λ _. pure (some (last_log_index m))) _
            (broadcast_append_entries-Saves k g) λ _ j u. u

  pub propose-Saves :
      (command : Bytes) (n : Node) → IsDurable p → IsSaved n → Saves (propose command n)
  unfolding propose propose_leader
  propose-Saves command n law h =
      Saves-if (is_leader n.state) (propose_leader command) (pure none) n
        (Saves-if (length n.log == 2 ^ 64 - 1) _ (replicate command) n tt
          (replicate-Saves command n law h.0))
        h
