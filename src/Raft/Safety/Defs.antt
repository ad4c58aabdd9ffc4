-- ===== src/Raft/Safety/Defs.antt =====
-- The invariant of a node, and what never goes back. Both are stated over the fields that they
-- speak of, so that a change of another field leaves them as they are.
use fault_tolerant_kv_store.Prelude.{
  ◌+◌, ◌≤◌, ◌<◌, ◌≡◌, ◌⊎◌, true, Option, none, some, List, take, length, Map, contains,
  value_or_zero,
}
use fault_tolerant_kv_store.Exec.{Outcome, Post}
use fault_tolerant_kv_store.Raft.Types.{
  NodeState, follower, leader, NodeId, Term, LogEntry, LogIndex, RaftConfig,
}
use fault_tolerant_kv_store.Raft.Platform.{Platform}
use fault_tolerant_kv_store.Raft.Node.{Node}
use fault_tolerant_kv_store.Raft.Safety.Logs.{ValidLog}

-- A leader has, for each peer, an index from 1 to the end of the log to send from.
abbrev pub IsNext : List LogEntry → Option LogIndex → Type 0
IsNext log none = ⊥
IsNext log (some i) = (0 < i) × (i ≤ length log)

pub record Leading (config : RaftConfig) (log : List LogEntry) (next match_index : Map LogIndex)
    : Type 0 where
  pub next_known : (k : NodeId) → contains config.peers k ≡ true → IsNext log (next k)
  pub match_known :
      (k : NodeId) → contains config.peers k ≡ true → value_or_zero match_index k < length log

abbrev pub IsMember : List NodeId → Option NodeId → Type 0
IsMember members none = Unit
IsMember members (some id) = contains members id ≡ true

pub record Healthy (config : RaftConfig) (members : List NodeId) (state : NodeState) (term : Term)
    (vote : Option NodeId) (log : List LogEntry) (commit applied : LogIndex)
    (next match_index : Map LogIndex) : Type 0 where
  pub self_known : contains members config.node_id ≡ true
  pub peers_known :
      (k : NodeId)
      → contains members k ≡ true
      → (k ≡ config.node_id) ⊎ (contains config.peers k ≡ true)
  pub vote_known : IsMember members vote
  pub log_valid : ValidLog term log
  pub committed : commit < length log
  pub all_applied : applied ≡ commit
  pub in_office : (state ≡ follower) ⊎ (0 < term)
  pub leading : state ≡ leader → Leading config log next match_index

pub record Forward (config config' : RaftConfig) (members members' : List NodeId)
    (term term' : Term) (vote vote' : Option NodeId) (log log' : List LogEntry)
    (commit commit' : LogIndex) : Type 0 where
  pub same_config : config' ≡ config
  pub same_members : members' ≡ members
  pub term_mono : term ≤ term'
  pub vote_kept : term' ≡ term → (c : NodeId) → vote ≡ some c → vote' ≡ some c
  pub commit_mono : commit ≤ commit'
  pub committed_kept : take (commit + 1) log' ≡ take (commit + 1) log

module _ ⦃p : Platform⦄ where
  abbrev pub Inv : Node → Type 0
  Inv n =
      Healthy n.config n.members n.state n.current_term n.voted_for n.log n.commit_index
        n.last_applied n.next_index n.match_index

  -- `m` is a later state of `n`: terms and commit indexes do not fall, a vote is not changed within
  -- its term, and the log up to the commit index stays as it was.
  abbrev pub Later : Node → Node → Type 0
  Later n m =
      Forward n.config m.config n.members m.members n.current_term m.current_term n.voted_for
        m.voted_for n.log m.log n.commit_index m.commit_index

  -- A call from `n`, whether it returns or throws, has no undefined behaviour and leaves a later
  -- state that keeps the invariant.
  abbrev pub Steps : {A : Type 0} → Node → Outcome Node A → Type 0
  Steps n = Post (λ _ m. Inv m × Later n m) (λ _ m. Inv m × Later n m)
