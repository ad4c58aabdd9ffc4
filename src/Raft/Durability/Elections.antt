-- ===== src/Raft/Durability/Elections.antt =====
-- The saves of elections and votes.
use fault_tolerant_kv_store.Prelude.{false, some, List, [], ◌∷◌, ◌&&◌}
use fault_tolerant_kv_store.Exec.{pure, modify, ◌>>◌}
use fault_tolerant_kv_store.Raft.Platform.{Platform, Limits, IsDurable}
use fault_tolerant_kv_store.Raft.Types.{NodeId, RequestVoteRequest, RequestVoteResponse}
use fault_tolerant_kv_store.Raft.Node.{
  Node, persist, last_log_term, last_log_index, send, reset_election_timeout,
}
use fault_tolerant_kv_store.Raft.Election.{
  take_office, become_leader, stand, request_votes, ask_for_votes, has_quorum, start_election,
  candidate_log_is_current, answer_vote, record_vote, grant, can_vote, judge_vote,
  handle_request_vote, count_vote, accept_vote, handle_request_vote_response, is_some_id,
}
use fault_tolerant_kv_store.Raft.Durability.Defs.{
  IsSaved, Saves, Saves-if, Saves-continue, persist-Saves,
}
use fault_tolerant_kv_store.Raft.Durability.Sending.{
  read_log-Saves, advance_commit_index-Saves, broadcast_append_entries-Saves,
}

module _ ⦃p : Platform⦄ ⦃limits : Limits p⦄ where
  become_leader-Saves :
      (n : Node) → IsDurable p → limits.IsSound n.storage → Saves (become_leader n)
  unfolding become_leader
  become_leader-Saves n law g = Saves-continue _ _ (persist-Saves (take_office n) law g) λ _ m h.
      Saves-continue _ _ (advance_commit_index-Saves m h) λ _. broadcast_append_entries-Saves

  request_votes-IsSaved :
      (r : RequestVoteRequest) (peers : List NodeId) (n : Node)
      → IsSaved n
      → IsSaved (request_votes r peers n)
  unfolding request_votes send
  request_votes-IsSaved r [] n h = h
  request_votes-IsSaved r (peer ∷ peers) n h = request_votes-IsSaved r peers _ h

  last_log_term-Saves : (n : Node) → IsSaved n → Saves (last_log_term n)
  unfolding last_log_term
  last_log_term-Saves n h = Saves-continue _ _ (read_log-Saves (last_log_index n) n h) λ e m g. g

  ask_for_votes-Saves : (n : Node) → IsSaved n → Saves (ask_for_votes n)
  unfolding ask_for_votes
  ask_for_votes-Saves n h =
      Saves-continue _ _ (last_log_term-Saves n h)
        λ t m g. request_votes-IsSaved _ m.config.peers m g

  pub start_election-Saves :
      (n : Node) → IsDurable p → limits.IsSound n.storage → Saves (start_election n)
  unfolding start_election
  start_election-Saves n law g = Saves-continue _ _ (persist-Saves (stand n) law g) λ _ m h.
      Saves-if (has_quorum m) become_leader ask_for_votes m (become_leader-Saves m law h.0)
        (ask_for_votes-Saves m h)

  record_vote-Saves : (id : NodeId) (n : Node) → IsDurable p → IsSaved n → Saves (record_vote id n)
  unfolding record_vote
  record_vote-Saves id n law h =
      Saves-if (is_some_id n.voted_for id) (pure tt)
        (do modify (λ n. record n { voted_for = some id }); persist) n h
        (persist-Saves (record n { voted_for = some id }) law h.0)

  grant-Saves : (id : NodeId) (n : Node) → IsDurable p → IsSaved n → Saves (grant id n)
  unfolding grant reset_election_timeout
  grant-Saves id n law h = Saves-continue _ _ (record_vote-Saves id n law h) λ _ m g. g

  candidate_log_is_current-Saves :
      (r : RequestVoteRequest) (n : Node) → IsSaved n → Saves (candidate_log_is_current r n)
  unfolding candidate_log_is_current
  candidate_log_is_current-Saves r n h = Saves-continue _ _ (last_log_term-Saves n h) λ _ m g. g

  judge_vote-Saves :
      (from : NodeId) (r : RequestVoteRequest) (n : Node)
      → IsDurable p
      → IsSaved n
      → Saves (judge_vote from r n)
  unfolding judge_vote answer_vote send
  judge_vote-Saves from r n law h =
      Saves-continue _ _ (candidate_log_is_current-Saves r n h) λ current m g.
        let granted = can_vote n r.candidate_id && current in
        Saves-continue (λ _. modify (answer_vote from granted)) _
          (Saves-if granted (grant r.candidate_id) (pure tt) m (grant-Saves r.candidate_id m law g)
            g)
          λ _ k u. u

  pub handle_request_vote-Saves :
      (from : NodeId) (r : RequestVoteRequest) (n : Node)
      → IsDurable p
      → IsSaved n
      → Saves (handle_request_vote from r n)
  unfolding handle_request_vote answer_vote send
  handle_request_vote-Saves from r n law h =
      Saves-if _ (modify (answer_vote from false)) (judge_vote from r) n h
        (judge_vote-Saves from r n law h)

  accept_vote-Saves :
      (from : NodeId) (n : Node) → IsDurable p → IsSaved n → Saves (accept_vote from n)
  unfolding accept_vote count_vote
  accept_vote-Saves from n law h =
      Saves-if (has_quorum (count_vote from n)) become_leader (pure tt) (count_vote from n)
        (become_leader-Saves (count_vote from n) law h.0) h

  pub handle_request_vote_response-Saves :
      (from : NodeId) (r : RequestVoteResponse) (n : Node)
      → IsDurable p
      → IsSaved n
      → Saves (handle_request_vote_response from r n)
  unfolding handle_request_vote_response
  handle_request_vote_response-Saves from r n law h =
      Saves-if _ (pure tt) (accept_vote from) n h (accept_vote-Saves from n law h)
