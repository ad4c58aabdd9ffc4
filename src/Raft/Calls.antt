-- ===== src/Raft/Calls.antt =====
-- raft_node.cpp: the public operations of `RaftNode`, each under the node's mutex.
use fault_tolerant_kv_store.Prelude.{
  ℕ, ◌-◌, ◌^◌, Option, none, some, List, [], ◌∷◌, ◌++◌, Bool, true, false, ltb, ◌==◌, ◌&&◌, ◌||◌,
  not, if◌then◌else◌, length, take, drop,
}
use fault_tolerant_kv_store.Prelude.Int.{ℤ, pos, ◌+ℤ◌, ◌-ℤ◌, leb_ℤ, ltb_ℤ}
use fault_tolerant_kv_store.Exec.{
  Exec, invalid_argument, raft_error, ◌>>=◌, ◌>>◌, pure, gets, modify, throw,
}
use fault_tolerant_kv_store.Raft.Types.{
  NodeId, Term, LogIndex, Bytes, CommittedEntry, Message, message_term, Rpc, vote_request,
  vote_response, append_request, append_response,
}
use fault_tolerant_kv_store.Raft.Platform.{Platform}
use fault_tolerant_kv_store.Raft.Node.{Node, last_log_index, is_peer, persist, become_follower}
use fault_tolerant_kv_store.Raft.Replication.{advance_commit_index, broadcast_append_entries}
use fault_tolerant_kv_store.Raft.Election.{
  is_leader, start_election, handle_request_vote, handle_request_vote_response,
}
use fault_tolerant_kv_store.Raft.AppendEntries.{handle_append_entries}
use fault_tolerant_kv_store.Raft.AppendReplies.{handle_append_entries_response}

module _ ⦃p : Platform⦄ where
  unfoldable pub beat : Exec Node (Unit {0})
  unfolding broadcast_append_entries
  beat = do modify (λ n. record n { heartbeat_elapsed = pos 0 }); broadcast_append_entries

  abbrev pub heartbeat_is_due : Node → ℤ → Bool
  heartbeat_is_due n elapsed = leb_ℤ (n.config.heartbeat_interval -ℤ n.heartbeat_elapsed) elapsed

  unfoldable pub tick_leader : ℤ → Exec Node (Unit {0})
  unfolding beat ◌+ℤ◌ ◌-ℤ◌
  tick_leader elapsed = do
    due ← gets (λ n. heartbeat_is_due n elapsed)
    if due
        then beat
        else modify (λ n. record n { heartbeat_elapsed = n.heartbeat_elapsed +ℤ elapsed })

  abbrev pub election_is_due : Node → ℤ → Bool
  election_is_due n elapsed = leb_ℤ (n.election_timeout -ℤ n.election_elapsed) elapsed

  unfoldable pub tick_other : ℤ → Exec Node (Unit {0})
  unfolding start_election ◌+ℤ◌ ◌-ℤ◌
  tick_other elapsed = do
    due ← gets (λ n. election_is_due n elapsed)
    if due
        then start_election
        else modify (λ n. record n { election_elapsed = n.election_elapsed +ℤ elapsed })

  unfoldable pub tick_role : ℤ → Exec Node (Unit {0})
  unfolding tick_leader tick_other
  tick_role elapsed = do
    leads ← gets (λ n. is_leader n.state)
    if leads then tick_leader elapsed else tick_other elapsed

  unfoldable pub tick : ℤ → Exec Node (Unit {0})
  unfolding tick_role
  tick elapsed =
      if ltb_ℤ elapsed (pos 0)
      then throw (invalid_argument "elapsed time must not be negative")
      else tick_role elapsed

  unfoldable pub dispatch : NodeId → Rpc → Exec Node (Unit {0})
  unfolding handle_request_vote handle_request_vote_response handle_append_entries
      handle_append_entries_response
  dispatch from (vote_request r) = handle_request_vote from r
  dispatch from (vote_response r) = handle_request_vote_response from r
  dispatch from (append_request r) = handle_append_entries from r
  dispatch from (append_response r) = handle_append_entries_response from r

  -- A message of a newer term makes the node a follower in that term.
  unfoldable pub adopt_term : Term → Exec Node (Unit {0})
  unfolding become_follower
  adopt_term term = do
    newer ← gets (λ n. ltb n.current_term term)
    if newer then become_follower term none else pure tt

  unfoldable pub receive : Message → Exec Node Bool
  unfolding adopt_term dispatch
  receive m = do adopt_term (message_term m); dispatch m.from m.rpc; pure true

  unfoldable pub step : Message → Exec Node Bool
  unfolding is_peer receive
  step m = do
    foreign ← gets (λ n. not (m.to == n.config.node_id) || not (is_peer n m.from))
    if foreign then pure false else receive m

  abbrev pub is_request : Rpc → Bool
  is_request (vote_request r) = true
  is_request (append_request r) = true
  is_request _ = false

  -- The test of the loop over the new messages.
  unfoldable pub answers : Rpc → Rpc → Bool
  answers (vote_request _) (vote_response _) = true
  answers (append_request q) (append_response r) = r.request_id == q.request_id
  answers _ _ = false

  -- The first answer among the messages, and the messages without it.
  unfoldable pub extract_response : Message → List Message → Option (Message × List Message)
  unfolding answers
  extract_response m [] = none
  extract_response m (candidate ∷ rest) =
      if candidate.to == m.from && answers m.rpc candidate.rpc
      then some (candidate, rest)
      else elim (extract_response m rest) [
        | none ↦ none
        | some (found, others) ↦ some (found, candidate ∷ others)
      ]

  unfoldable pub give : ℕ → Option (Message × List Message) → Exec Node (Option Message)
  give first none = pure none
  give first (some (response, others)) = do
    modify (λ n. record n { outbox = take first n.outbox ++ others })
    pure (some response)

  unfoldable pub take_response : Message → ℕ → Exec Node (Option Message)
  unfolding extract_response give
  take_response m first = do
    found ← gets (λ n. extract_response m (drop first n.outbox))
    give first found

  unfoldable pub serve : Message → Exec Node (Option Message)
  unfolding step take_response
  serve m = do
    first ← gets (λ n. length n.outbox)
    accepted ← step m
    if accepted then take_response m first else pure none

  unfoldable pub handle_request : Message → Exec Node (Option Message)
  unfolding serve
  handle_request m =
      if is_request m.rpc
      then serve m
      else throw (invalid_argument "Raft message must contain a request")

  unfoldable pub append_command : Bytes → Node → Node
  append_command command n = record n {
    log = n.log ++ (record { term = n.current_term; command = command; is_no_op = false } ∷ []);
  }

  unfoldable pub replicate : Bytes → Exec Node (Option LogIndex)
  unfolding append_command persist advance_commit_index broadcast_append_entries
  replicate command = do
    modify (append_command command)
    persist
    index ← gets last_log_index
    _ ← advance_commit_index
    broadcast_append_entries
    pure (some index)

  unfoldable pub propose_leader : Bytes → Exec Node (Option LogIndex)
  unfolding replicate
  propose_leader command = do
    full ← gets (λ n. length n.log == 2 ^ 64 - 1)
    if full then throw (raft_error "Raft log index overflow") else replicate command

  unfoldable pub propose : Bytes → Exec Node (Option LogIndex)
  unfolding propose_leader
  propose command = do
    leads ← gets (λ n. is_leader n.state)
    if leads then propose_leader command else pure none

  unfoldable pub take_messages : Exec Node (List Message)
  take_messages = do
    messages ← gets (λ n. n.outbox)
    modify (λ n. record n { outbox = [] })
    pure messages

  unfoldable pub take_committed_entries : Exec Node (List CommittedEntry)
  take_committed_entries = do
    entries ← gets (λ n. n.committed_entries)
    modify (λ n. record n { committed_entries = [] })
    pure entries
