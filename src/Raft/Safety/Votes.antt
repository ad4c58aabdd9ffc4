-- ===== src/Raft/Safety/Votes.antt =====
-- The answers to requests for votes, and the count of the votes.
use fault_tolerant_kv_store.Prelude.{
  ◌<◌, ◌≡◌, refl, sym, Bool, true, false, some, arith, length, get_elem?, leb, ltb, ◌==◌, ◌&&◌,
  ◌||◌, not, contains, inl, inr, ◌⊎◌, subst, and_left,
}
use fault_tolerant_kv_store.Exec.{returns, modify, pure}
use fault_tolerant_kv_store.Raft.Types.{
  follower, NodeId, Term, LogEntry, RequestVoteRequest, RequestVoteResponse,
}
use fault_tolerant_kv_store.Raft.Platform.{Platform}
use fault_tolerant_kv_store.Raft.Node.{Node, last_log_index, send, reset_election_timeout}
use fault_tolerant_kv_store.Raft.Election.{
  is_some_id, become_leader, candidate_log_is_current, answer_vote, record_vote, grant,
  handle_request_vote, handle_request_vote_response, is_candidate, has_quorum, can_vote, judge_vote,
  accept_vote, count_vote,
}
use fault_tolerant_kv_store.Raft.Safety.Defs.{Inv, Later, Steps}
use fault_tolerant_kv_store.Raft.Safety.Shared.{
  Steps-from, Steps-returns, Steps-continue, Steps-if, persist-Steps,
}
use fault_tolerant_kv_store.Raft.Safety.Elections.{become_leader-Steps, last_log_term-eq}

module _ ⦃p : Platform⦄ where
  -- Whether the candidate's log is at least as up to date as the node's.
  abbrev pub is_current : Node → Term → RequestVoteRequest → Bool
  is_current n local r =
      ltb local r.last_log_term
      || (r.last_log_term == local && leb (last_log_index n) r.last_log_index)

  pub candidate_log_is_current-eq :
      (n : Node) (r : RequestVoteRequest)
      → n.commit_index < length n.log
      → (e : LogEntry) × (get_elem? n.log (last_log_index n) ≡ some e)
        × (candidate_log_is_current r n ≡ returns (is_current n e.term r) n)
  unfolding candidate_log_is_current
  candidate_log_is_current-eq n r h =
      let (e, found, eq) = last_log_term-eq n h in (e, found, rw eq refl)

  vote-Inv :
      (n : Node) (id : NodeId)
      → Inv n
      → contains n.members id ≡ true
      → Inv (record n { voted_for = some id })
  vote-Inv n id v c = record {
    self_known = v.self_known;
    peers_known = v.peers_known;
    vote_known = c;
    log_valid = v.log_valid;
    committed = v.committed;
    all_applied = v.all_applied;
    in_office = v.in_office;
    leading = v.leading;
  }

  vote-Later :
      (n : Node) (id : NodeId)
      → can_vote n id ≡ true
      → is_some_id n.voted_for id ≡ false
      → Later n (record n { voted_for = some id })
  vote-Later n id can new = record {
    same_config = refl;
    same_members = refl;
    term_mono = omega arith;
    vote_kept = λ _ c h. ground arith;
    commit_mono = omega arith;
    committed_kept = refl;
  }

  record_vote-Steps :
      (n : Node) (id : NodeId)
      → Inv n
      → contains n.members id ≡ true
      → can_vote n id ≡ true
      → Steps n (record_vote id n)
  unfolding record_vote
  record_vote-Steps n id v c can =
      Steps-if (is_some_id n.voted_for id) _ _ n (λ _. Steps-returns tt n v)
        λ new.
          let m = record n { voted_for = some id } in
          Steps-from n m _ (vote-Later n id can new) (persist-Steps m (vote-Inv n id v c))

  grant-Steps :
      (n : Node) (id : NodeId)
      → Inv n
      → contains n.members id ≡ true
      → can_vote n id ≡ true
      → Steps n (grant id n)
  unfolding grant reset_election_timeout
  grant-Steps n id v c can =
      Steps-continue n _ _ (record_vote-Steps n id v c can) λ _ m w _. Steps-returns tt _ w

  judge_vote-Steps :
      (n : Node) (from : NodeId) (r : RequestVoteRequest)
      → Inv n
      → contains n.members r.candidate_id ≡ true
      → Steps n (judge_vote from r n)
  unfolding judge_vote answer_vote send
  judge_vote-Steps n from r v c =
      let (e, _, eq) = candidate_log_is_current-eq n r v.committed in
      let granted = can_vote n r.candidate_id && is_current n e.term r in
      rw eq (
        Steps-continue n (λ _. modify (answer_vote from granted)) _
          (Steps-if granted (grant r.candidate_id) (pure tt) n
            (λ g. grant-Steps n r.candidate_id v c (and_left _ _ g)) (λ _. Steps-returns tt n v))
          λ _ m w _. Steps-returns tt (answer_vote from granted m) w)

  pub handle_request_vote-Steps :
      (n : Node) (from : NodeId) (r : RequestVoteRequest)
      → Inv n
      → contains n.members from ≡ true
      → Steps n (handle_request_vote from r n)
  unfolding handle_request_vote answer_vote send
  handle_request_vote-Steps n from r v c =
      Steps-if (not (r.candidate_id == from) || ltb r.term n.current_term)
        (modify (answer_vote from false)) (judge_vote from r) n
        (λ _. Steps-returns tt (answer_vote from false n) v)
        (λ fresh.
          judge_vote-Steps n from r v
            (subst (λ k. contains n.members k ≡ true) (sym (same fresh)) c))
    where
      same :
          (not (r.candidate_id == from) || ltb r.term n.current_term) ≡ false
          → r.candidate_id ≡ from
      same h = ground arith

  accept_vote-Steps :
      (n : Node) (from : NodeId) → Inv n → 0 < n.current_term → Steps n (accept_vote from n)
  unfolding accept_vote count_vote
  accept_vote-Steps n from v h =
      let m = count_vote from n in
      Steps-if (has_quorum m) become_leader (pure tt) m (λ _. become_leader-Steps m v h)
        (λ _. Steps-returns tt m v)

  pub handle_request_vote_response-Steps :
      (n : Node) (from : NodeId) (r : RequestVoteResponse)
      → Inv n
      → Steps n (handle_request_vote_response from r n)
  unfolding handle_request_vote_response
  handle_request_vote_response-Steps n from r v =
      Steps-if ignored (pure tt) (accept_vote from) n (λ _. Steps-returns tt n v)
        (λ counted. accept_vote-Steps n from v (positive counted v.in_office))
    where
      ignored : Bool
      ignored = not (is_candidate n.state) || (not (r.term == n.current_term) || not r.vote_granted)

      positive : ignored ≡ false → (n.state ≡ follower) ⊎ (0 < n.current_term) → 0 < n.current_term
      positive counted (inl e) = absurd (ground arith)
      positive counted (inr h) = h
