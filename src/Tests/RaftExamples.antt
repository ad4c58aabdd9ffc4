-- ===== src/Tests/RaftExamples.antt =====
-- The theorems on a Raft node at concrete nodes, messages and calls.
use fault_tolerant_kv_store.Prelude.{◌≡◌, refl, Option, some, List, [], ◌∷◌, arith, drop, false}
use fault_tolerant_kv_store.Prelude.Int.{pos}
use fault_tolerant_kv_store.Exec.{returns, for_each}
use fault_tolerant_kv_store.Raft.Types.{
  append_response, initial_state, Message, append_request, leader, sentinel, LogIndex,
  AppendEntriesRequest,
}
use fault_tolerant_kv_store.Raft.Memory.{load_memory, save_memory}
use fault_tolerant_kv_store.Raft.Node.{Node, last_log_index}
use fault_tolerant_kv_store.Raft.Construction.{construct, fresh_node}
use fault_tolerant_kv_store.Raft.Calls.{step, tick, propose, handle_request}
use fault_tolerant_kv_store.Raft.Replication.{apply_committed_entries, advance_commit_index}
use fault_tolerant_kv_store.Raft.AppendEntries.{reject_conflict}
use fault_tolerant_kv_store.Raft.Safety.Commit.{committed_to, apply_committed_entries-eq}
use fault_tolerant_kv_store.Raft.Safety.Quorum.{Advanced, IsGreatest, advance_commit_index_lem}
use fault_tolerant_kv_store.Raft.Safety.Appending.{IsRunStart, reject_conflict-eq}
use fault_tolerant_kv_store.Raft.Restart.{restart_lem}
use fault_tolerant_kv_store.Result.{ok}
use fault_tolerant_kv_store.Raft.Safety.Requests.{IsSound, sent_request_lem}
use fault_tolerant_kv_store.Raft.Replication.{send_append_entries}
use fault_tolerant_kv_store.Raft.Node.{send}
use fault_tolerant_kv_store.Prelude.{ℕ, Map, contains}
use fault_tolerant_kv_store.Raft.Safety.Defs.{Inv, Later, Steps}
use fault_tolerant_kv_store.Raft.Answers.{IsAnswered, handle_request-IsAnswered}
use fault_tolerant_kv_store.Exec.{IfReturns}
use fault_tolerant_kv_store.Raft.Safety.Whole.{step-Steps, handle_request-Steps}
use fault_tolerant_kv_store.Raft.Safety.Ticks.{tick-Steps, propose-Steps}
use fault_tolerant_kv_store.Raft.History.{
  Call, ticks, steps, proposes, run, run-Inv, run_from_construct,
}
use fault_tolerant_kv_store.Tests.Cluster.{
  config, node, node-made, node-Inv, vote_from, entry, platform,
}

-- An election that node 2's vote wins, and a proposal.
abbrev history : List Call
history = ticks (pos 150) ∷ steps (vote_from 2) ∷ proposes (65 ∷ []) ∷ []

abbrev leader_node : Node
leader_node = run node (ticks (pos 150) ∷ steps (vote_from 2) ∷ [])

elected : leader_node.state ≡ leader
unfolding run construct propose step tick save_memory for_each
elected = refl

-- Two entries from node 2, the leader of the term 1.
abbrev entries_from_2 : Message
entries_from_2 = record {
  from = 2;
  to = 1;
  rpc = append_request (record {
    term = 1;
    leader_id = 2;
    previous_log_index = 0;
    previous_log_term = 0;
    entries = entry 1 ∷ entry 1 ∷ [];
    leader_commit = 1;
    request_id = 1;
  });
}

first_committed : (run node (steps entries_from_2 ∷ [])).commit_index ≡ 1
unfolding run construct step save_memory
first_committed = refl

run_from_construct_example : Inv (run node history) × Later node (run node history)
unfolding construct
run_from_construct_example =
    run_from_construct config (some initial_state) node history node-made
      (omega arith, (tt, (tt, tt)))

leader_node-Inv : Inv leader_node
unfolding construct
leader_node-Inv =
    (run-Inv node (ticks (pos 150) ∷ steps (vote_from 2) ∷ []) node-Inv (omega arith, (tt, tt))).0

step-Steps_example : Steps node (step entries_from_2 node)
step-Steps_example = step-Steps node entries_from_2 node-Inv (omega arith, (omega arith, tt))

handle_request-Steps_example : Steps node (handle_request entries_from_2 node)
handle_request-Steps_example =
    handle_request-Steps node entries_from_2 node-Inv (omega arith, (omega arith, tt))

handle_request-IsAnswered_example :
    IfReturns (IsAnswered entries_from_2 node) (handle_request entries_from_2 node)
handle_request-IsAnswered_example = handle_request-IsAnswered entries_from_2 node

tick-Steps_example : Steps node (tick (pos 150) node)
unfolding construct
tick-Steps_example = tick-Steps node (pos 150) node-Inv (omega arith)

propose-Steps_example : Steps leader_node (propose (65 ∷ []) leader_node)
propose-Steps_example = propose-Steps leader_node (65 ∷ []) leader_node-Inv

restart_lem_example :
    (m : Node) × (construct config (some initial_state) ≡ ok m)
    × (m.current_term ≡ node.current_term)
    × (m.voted_for ≡ node.voted_for)
    × (drop 1 m.log ≡ drop 1 node.log)
unfolding construct load_memory
restart_lem_example = restart_lem node initial_state node-Inv refl refl

advance_commit_index_lem_example :
    (r : Option LogIndex) × Advanced leader_node (advance_commit_index leader_node) r
    × IsGreatest leader_node (last_log_index leader_node) r
advance_commit_index_lem_example =
    advance_commit_index_lem leader_node leader_node-Inv.all_applied leader_node-Inv.committed

-- A follower with two entries of the term 1.
abbrev behind_node : Node
behind_node = record node { current_term = 2; log = sentinel ∷ entry 1 ∷ entry 1 ∷ [] }

abbrev later_request : AppendEntriesRequest
later_request = record {
  term = 2;
  leader_id = 2;
  previous_log_index = 2;
  previous_log_term = 2;
  entries = [];
  leader_commit = 0;
  request_id = 4;
}

reject_conflict-eq_example :
    (i : LogIndex) × (reject_conflict 2 later_request behind_node
      ≡ returns tt (record behind_node {
        outbox =
            record {
              from = 1;
              to = 2;
              rpc = append_response (record {
                term = 2;
                success = false;
                match_index = 0;
                conflict_index = i;
                conflict_term = some 1;
                request_id = 4;
              });
            }
            ∷ [];
      }))
    × IsRunStart behind_node.log 1 2 i
unfolding fresh_node
reject_conflict-eq_example = reject_conflict-eq behind_node 2 later_request (entry 1) refl

apply_committed_entries-eq_example :
    apply_committed_entries (record behind_node { commit_index = 2 })
    ≡ returns tt (committed_to 2 (record behind_node { commit_index = 2 }))
unfolding fresh_node
apply_committed_entries-eq_example =
    apply_committed_entries-eq (record behind_node { commit_index = 2 }) (omega arith) (omega arith)

sent_request_lem_example :
    (r : AppendEntriesRequest) × (ids : Map ℕ) × (send_append_entries 2 leader_node
      ≡ returns tt (send 2 (append_request r) (record leader_node { append_request_id = ids })))
    × IsSound leader_node r
unfolding contains run fresh_node save_memory for_each
sent_request_lem_example = sent_request_lem leader_node 2 leader_node-Inv elected refl
