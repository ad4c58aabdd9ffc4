-- ===== src/Raft/VoteRetry.antt =====
-- What `handle_request_vote_locked` does with a request that it has refused to answer because its
-- save has failed.
use fault_tolerant_kv_store.Prelude.{
  ◌≡◌, refl, sym, subst, ◌∙◌, true, false, Bool, Bool-cases, inl, inr, Option, none, some,
  get_elem?, ◌==◌, ◌||◌, ◌&&◌, not, ltb, leb, and_left, and_right, if◌then◌else◌, ==_refl, arith,
}
use fault_tolerant_kv_store.Exec.{
  Exception, Outcome, returns, throws, undefined, continue, modify, pure,
}
use fault_tolerant_kv_store.Raft.Platform.{Platform, Limits, IsDurable}
use fault_tolerant_kv_store.Raft.Types.{NodeId, LogEntry, RequestVoteRequest}
use fault_tolerant_kv_store.Raft.Node.{
  Node, persist, after_save, persistent_state, reset_election_timeout, last_log_index,
  last_log_term, read_log,
}
use fault_tolerant_kv_store.Raft.Election.{
  handle_request_vote, judge_vote, answer_vote, record_vote, grant, can_vote, is_some_id,
  candidate_log_is_current, has_value,
}
use fault_tolerant_kv_store.Raft.Safety.Commit.{read_log-eq}

module _ ⦃p : Platform⦄ where
  -- The node that a failed save of a vote for `id` leaves behind.
  voted : NodeId → Node → Node
  voted id n = record n {
    voted_for = some id;
    storage = (p.save n.storage (persistent_state (record n { voted_for = some id }))).1;
  }

  module _ (from : NodeId) (r : RequestVoteRequest) (n m : Node) (e : Exception) where
    apart : {A : Type 0} {a : A} (k : Node) → returns a k ≡ throws e m → ⊥
    apart k h = cc

    continue-modify_throws :
        (f : Node → Node) (o : Outcome Node (Unit {0}))
        → continue (λ _. modify f) o ≡ throws e m
        → o ≡ throws e m
    continue-modify_throws f (returns a k) h = cc
    continue-modify_throws f (throws x k) h = h
    continue-modify_throws f undefined h = cc

    record_vote_throws :
        record_vote r.candidate_id n ≡ throws e m
        → (m ≡ voted r.candidate_id n)
          × ((p.save n.storage (persistent_state (record n { voted_for = some r.candidate_id }))).0
              ≡ some e)
          × (is_some_id n.voted_for r.candidate_id ≡ false)
    unfolding record_vote persist after_save voted
    record_vote_throws h = elim (Bool-cases (is_some_id n.voted_for r.candidate_id)) [
      | inl same ↦ absurd (apart _ (rw same at h))
      | inr other ↦ go _ refl (rw other at h) other
    ]
      where
        v : Node
        v = record n { voted_for = some r.candidate_id }

        go :
            (failure : Option Exception)
            → (p.save n.storage (persistent_state v)).0 ≡ failure
            → after_save failure (voted r.candidate_id n) ≡ throws e m
            → is_some_id n.voted_for r.candidate_id ≡ false
            → (m ≡ voted r.candidate_id n)
              × ((p.save n.storage (persistent_state v)).0 ≡ some e)
              × (is_some_id n.voted_for r.candidate_id ≡ false)
        go none s h o = cc
        go (some x) s h o = (cc, cc, o)

    abbrev is_current : Node → LogEntry → Bool
    is_current k x =
        ltb x.term r.last_log_term
        || (r.last_log_term == x.term && leb (last_log_index k) r.last_log_index)

    -- Once the last entry of the log is known, the call is a test of the candidate's log.
    judge_vote-eq :
        (k : Node) (x : LogEntry)
        → get_elem? k.log (last_log_index k) ≡ some x
        → judge_vote from r k
          ≡ continue
              (λ _. modify (answer_vote from (can_vote k r.candidate_id && is_current k x)))
              ((if can_vote k r.candidate_id && is_current k x
                  then grant r.candidate_id
                  else pure tt)
                k)
    unfolding judge_vote candidate_log_is_current last_log_term
    judge_vote-eq k x found = rw (read_log-eq (last_log_index k) k x found) refl

    judge_vote_out : get_elem? n.log (last_log_index n) ≡ none → judge_vote from r n ≡ undefined
    unfolding judge_vote candidate_log_is_current last_log_term
    judge_vote_out none_there = rw (none_there, read_log) refl

    grant-voted :
        grant r.candidate_id (voted r.candidate_id n)
        ≡ returns tt (reset_election_timeout (voted r.candidate_id n))
    unfolding grant record_vote voted
    grant-voted = rw (==_refl r.candidate_id) refl

    granted_again :
        (x : LogEntry)
        → get_elem? n.log (last_log_index n) ≡ some x
        → is_current n x ≡ true
        → m ≡ voted r.candidate_id n
        → judge_vote from r m ≡ returns tt (answer_vote from true (reset_election_timeout m))
    unfolding voted
    granted_again x found current same =
        subst
          (λ k. judge_vote from r k ≡ returns tt (answer_vote from true (reset_election_timeout k)))
          (sym same)
          (judge_vote-eq (voted r.candidate_id n) x found
            ∙ rw (current, ==_refl r.candidate_id, grant-voted) refl)

    retried :
        ⦃limits : Limits p⦄ (x : LogEntry)
        → get_elem? n.log (last_log_index n) ≡ some x
        → judge_vote from r n ≡ throws e m
        → IsDurable p
        → limits.IsSound n.storage
        → (judge_vote from r m ≡ returns tt (answer_vote from true (reset_election_timeout m)))
          × (p.load m.storage ≡ p.load n.storage)
          × (n.voted_for ≡ none)
          × (m.current_term ≡ n.current_term)
    unfolding grant voted
    retried x found h law sound = elim (Bool-cases (can_vote n r.candidate_id && is_current n x)) [
      | inl granted ↦
          let h' = rw (judge_vote-eq n x found, granted) at h in
          let (same, failed, other) =
            record_vote_throws (continue-modify_throws _ _ (continue-modify_throws _ _ h')) in
          (
            granted_again x found (and_right _ _ granted) same,
            subst (λ k. p.load k.storage ≡ p.load n.storage) (sym same)
                (law.kept n.storage _ e sound failed),
            no_vote n.voted_for (and_left _ _ granted) other,
            subst (λ k. k.current_term ≡ n.current_term) (sym same) refl,
          )
      | inr refused ↦ absurd (apart _ (rw (judge_vote-eq n x found, refused) at h))
    ]
      where
        no_vote :
            (o : Option NodeId)
            → (not (has_value o) || is_some_id o r.candidate_id) ≡ true
            → is_some_id o r.candidate_id ≡ false
            → o ≡ none
        no_vote none a b = refl
        no_vote (some v) a b = absurd (ground arith)

    -- Over a storage that keeps its promises, and is in a sound state: where a request for a vote throws
    -- (its save has failed), the same request again is granted without a save. The vote that the answer
    -- gives away is in memory only, and the storage still loads what it loaded before. It happens only
    -- where the node had not voted.
    pub retried_vote :
        ⦃limits : Limits p⦄
        → IsDurable p
        → limits.IsSound n.storage
        → handle_request_vote from r n ≡ throws e m
        → (handle_request_vote from r m
            ≡ returns tt (answer_vote from true (reset_election_timeout m)))
          × (p.load m.storage ≡ p.load n.storage)
          × (n.voted_for ≡ none)
    unfolding handle_request_vote
    retried_vote law sound h = elim (Bool-cases (is_stale n)) [
      | inl stale ↦ absurd (apart _ (rw stale at h))
      | inr fresh ↦ looked_up (get_elem? n.log (last_log_index n)) refl fresh (rw fresh at h)
    ]
      where
        is_stale : Node → Bool
        is_stale k = not (r.candidate_id == from) || ltb r.term k.current_term

        still_fresh : m.current_term ≡ n.current_term → is_stale n ≡ false → is_stale m ≡ false
        still_fresh term fresh = ground arith

        out : (o : Outcome Node (Unit {0})) → o ≡ undefined → o ≡ throws e m → ⊥
        out o a b = cc

        looked_up :
            (o : Option LogEntry)
            → get_elem? n.log (last_log_index n) ≡ o
            → is_stale n ≡ false
            → judge_vote from r n ≡ throws e m
            → (handle_request_vote from r m
                ≡ returns tt (answer_vote from true (reset_election_timeout m)))
              × (p.load m.storage ≡ p.load n.storage)
              × (n.voted_for ≡ none)
        looked_up none found fresh h = absurd (out _ (judge_vote_out found) h)
        looked_up (some x) found fresh h =
            let (again, loads, unvoted, term) = retried x found h law sound in
            (rw (still_fresh term fresh) again, loads, unvoted)
