-- ===== src/Raft/AppendEntries.antt =====
-- raft_node.cpp: `handle_append_entries_locked`.
use fault_tolerant_kv_store.Prelude.{
  ℕ, suc, ◌+◌, min, Option, none, some, List, [], ◌∷◌, ◌++◌, Bool, true, false, leb, ltb, ◌==◌,
  ◌||◌, not, if◌then◌else◌, length, take,
}
use fault_tolerant_kv_store.Exec.{Exec, raft_error, ◌>>=◌, ◌>>◌, pure, gets, modify, throw}
use fault_tolerant_kv_store.Raft.Types.{
  NodeId, Term, LogEntry, LogIndex, AppendEntriesRequest, AppendEntriesResponse, append_response,
  entry_eq,
}
use fault_tolerant_kv_store.Raft.Platform.{Platform}
use fault_tolerant_kv_store.Raft.Node.{
  Node, last_log_index, read_log, reset_election_timeout, persist, send, become_follower,
}
use fault_tolerant_kv_store.Raft.Replication.{apply_committed_entries}
use fault_tolerant_kv_store.Raft.Election.{is_follower, is_some_id}

-- The test of the `std::any_of`, over all the entries.
unfoldable pub any_invalid : Term → List LogEntry → Bool
any_invalid term [] = false
any_invalid term (e ∷ es) = (e.term == 0 || ltb term e.term) || any_invalid term es

abbrev pub is_empty {ℓ} : {A : Type ℓ} → List A → Bool
is_empty [] = true
is_empty (x ∷ xs) = false

-- How the comparison of the incoming entries with the log ends: at a committed entry that differs,
-- or with the entries from `incoming_offset` on still to be appended, and `log_changed`.
pub data Merge : Type 0 where
  conflict : LogIndex → Term → Merge
  remaining : Bool → List LogEntry → Merge

module _ ⦃p : Platform⦄ where
  unfoldable pub reply : NodeId → AppendEntriesResponse → Node → Node
  unfolding send
  reply from response = send from (append_response response)

  unfoldable pub reject : NodeId → ℕ → LogIndex → Option Term → Node → Node
  unfolding reply
  reject from request_id conflict_index conflict_term n =
      reply from
        (record {
          term = n.current_term;
          success = false;
          match_index = 0;
          conflict_index = conflict_index;
          conflict_term = conflict_term;
          request_id = request_id;
        })
        n

  unfoldable pub reject_at_end : NodeId → ℕ → Node → Node
  unfolding reject
  reject_at_end from request_id n = reject from request_id (last_log_index n + 1) none n

  unfoldable pub follow_leader : NodeId → Exec Node (Unit {0})
  unfolding become_follower reset_election_timeout
  follow_leader id = do
    changed ← gets (λ n. not (is_follower n.state) || not (is_some_id n.leader_id id))
    term ← gets (λ n. n.current_term)
    if changed then become_follower term (some id) else modify reset_election_timeout

  -- The loop over `conflict_index`.
  unfoldable pub conflict_start : Term → LogIndex → Exec Node LogIndex
  unfolding read_log
  conflict_start term (suc (suc i)) = do
    let earlier = conflict_start term (suc i)
    entry ← read_log (suc i)
    if entry.term == term then earlier else pure (suc (suc i))
  conflict_start term i = pure i

  unfoldable pub reject_conflict : NodeId → AppendEntriesRequest → Exec Node (Unit {0})
  unfolding read_log conflict_start reject
  reject_conflict from request = do
    entry ← read_log request.previous_log_index
    conflict_index ← conflict_start entry.term request.previous_log_index
    modify (reject from request.request_id conflict_index (some entry.term))

  -- `previous_log_index` is 0, or the terms there are equal.
  unfoldable pub previous_matches : AppendEntriesRequest → Exec Node Bool
  unfolding read_log
  previous_matches request =
      if ltb 0 request.previous_log_index
      then (do
        entry ← read_log request.previous_log_index
        pure (entry.term == request.previous_log_term))
      else pure true

  -- The entries have equal terms.
  unfoldable pub match_entry : LogEntry → LogEntry → Exec Node Merge → Exec Node Merge
  unfolding entry_eq
  match_entry local incoming next =
      if entry_eq local incoming then next else throw (raft_error "log matching invariant violated")

  -- The entries have different terms: `log_.resize(entry_index)`, unless the entry is committed.
  unfoldable pub replace_from : LogIndex → LogEntry → List LogEntry → Exec Node Merge
  replace_from entry_index local incoming = do
    committed ← gets (λ n. leb entry_index n.commit_index)
    if committed then pure (conflict entry_index local.term) else do
      modify (λ n. record n { log = take entry_index n.log })
      pure (remaining true incoming)

  unfoldable pub compare_entry :
      LogIndex → LogEntry → List LogEntry → Exec Node Merge → Exec Node Merge
  unfolding read_log match_entry replace_from
  compare_entry entry_index incoming rest next = do
    local ← read_log entry_index
    if local.term == incoming.term
        then match_entry local incoming next
        else replace_from entry_index local (incoming ∷ rest)

  -- The loop over the incoming entries and the log entries at the same indexes.
  unfoldable pub merge : LogIndex → List LogEntry → Exec Node Merge
  unfolding compare_entry
  merge entry_index [] = pure (remaining false [])
  merge entry_index (incoming ∷ rest) = do
    let next = merge (entry_index + 1) rest
    beyond ← gets (λ n. ltb (last_log_index n) entry_index)
    if beyond
        then pure (remaining false (incoming ∷ rest))
        else compare_entry entry_index incoming rest next

  -- Appends what remains; saves if the log has changed.
  unfoldable pub extend_log : Bool → List LogEntry → Exec Node (Unit {0})
  unfolding persist
  extend_log changed rest = do
    modify (λ n. record n { log = n.log ++ rest })
    if changed || not (is_empty rest) then persist else pure tt

  unfoldable pub commit_to : LogIndex → Exec Node (Unit {0})
  unfolding apply_committed_entries
  commit_to leader_commit = do
    modify (λ n. record n { commit_index = min leader_commit (last_log_index n) })
    apply_committed_entries

  unfoldable pub follow_commit : LogIndex → Exec Node (Unit {0})
  unfolding commit_to
  follow_commit leader_commit = do
    newer ← gets (λ n. ltb n.commit_index leader_commit)
    if newer then commit_to leader_commit else pure tt

  unfoldable pub accept : NodeId → AppendEntriesRequest → Node → Node
  unfolding reply
  accept from request n =
      let match_index = request.previous_log_index + length request.entries in
      reply from
        (record {
          term = n.current_term;
          success = true;
          match_index = match_index;
          conflict_index = match_index + 1;
          conflict_term = none;
          request_id = request.request_id;
        })
        n

  unfoldable pub finish : NodeId → AppendEntriesRequest → Merge → Exec Node (Unit {0})
  unfolding reject extend_log follow_commit accept
  finish from request (conflict index term) =
      modify (reject from request.request_id index (some term))
  finish from request (remaining changed rest) = do
    extend_log changed rest
    follow_commit request.leader_commit
    modify (accept from request)

  unfoldable pub store : NodeId → AppendEntriesRequest → Exec Node (Unit {0})
  unfolding merge finish
  store from request = do
    merged ← merge (request.previous_log_index + 1) request.entries
    finish from request merged

  unfoldable pub check_previous : NodeId → AppendEntriesRequest → Exec Node (Unit {0})
  unfolding previous_matches store reject_conflict
  check_previous from request = do
    matches ← previous_matches request
    if matches then store from request else reject_conflict from request

  -- From the first check of `previous_log_index` to the end.
  unfoldable pub append : NodeId → AppendEntriesRequest → Exec Node (Unit {0})
  unfolding reject_at_end check_previous
  append from request = do
    missing ← gets (λ n. ltb (last_log_index n) request.previous_log_index)
    if missing then modify (reject_at_end from request.request_id) else check_previous from request

  unfoldable pub take_entries : NodeId → AppendEntriesRequest → Exec Node (Unit {0})
  unfolding follow_leader append
  take_entries from request = do follow_leader request.leader_id; append from request

  abbrev pub is_refused : Node → NodeId → AppendEntriesRequest → Bool
  is_refused n from request =
      (not (request.leader_id == from) || ltb request.term n.current_term)
      || any_invalid request.term request.entries

  unfoldable pub handle_append_entries : NodeId → AppendEntriesRequest → Exec Node (Unit {0})
  unfolding any_invalid reject_at_end take_entries
  handle_append_entries from request = do
    refused ← gets (λ n. is_refused n from request)
    if refused then modify (reject_at_end from request.request_id) else take_entries from request
