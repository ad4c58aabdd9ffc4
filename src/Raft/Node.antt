-- ===== src/Raft/Node.antt =====
-- src/raft/raft_node.h and the parts of raft_node.cpp that the other parts share: the state of a
-- node, its clock, its durable state, its outbox and its log. Every operation runs under the node's
-- mutex from its beginning to its end, so it is one step on the state.
use fault_tolerant_kv_store.Prelude.{
  ℕ, ◌+◌, ◌-◌, ◌/◌, Option, none, some, List, [], ◌∷◌, ◌++◌, Bool, true, false, ltb, leb, ◌==◌, not,
  ◌&&◌, if◌then◌else◌, length, get_elem?, drop, Map, no_keys, contains,
}
use fault_tolerant_kv_store.Prelude.Int.{ℤ, pos}
use fault_tolerant_kv_store.Exec.{
  Exec, Exception, returns, undefined, ◌>>=◌, ◌>>◌, pure, throw, gets, modify,
}
use fault_tolerant_kv_store.Raft.Types.{
  NodeState, follower, RaftConfig, Term, NodeId, LogEntry, LogIndex, CommittedEntry, Message, Rpc,
  PersistentState, NodeSnapshot,
}
use fault_tolerant_kv_store.Raft.Platform.{Platform}

module _ ⦃p : Platform⦄ where
  pub record Node : Type 0 where
    pub config : RaftConfig
    pub storage : p.Store
    pub random : p.Random
    pub state : NodeState
    pub current_term : Term
    pub voted_for : Option NodeId
    pub leader_id : Option NodeId
    pub log : List LogEntry
    pub commit_index : LogIndex
    pub last_applied : LogIndex
    pub election_elapsed : ℤ
    pub election_timeout : ℤ
    pub heartbeat_elapsed : ℤ
    pub members : List NodeId
    pub votes_received : List NodeId
    pub next_index : Map LogIndex
    pub match_index : Map LogIndex
    pub append_request_id : Map ℕ
    pub outbox : List Message
    pub committed_entries : List CommittedEntry

  -- The log always holds the sentinel, so the subtraction does not wrap.
  abbrev pub last_log_index : Node → LogIndex
  last_log_index n = length n.log - 1

  abbrev pub quorum_size : Node → ℕ
  quorum_size n = length n.members / 2 + 1

  unfoldable pub is_peer : Node → NodeId → Bool
  unfolding contains
  is_peer n id = not (id == n.config.node_id) && contains n.members id

  -- `log_[index]`
  unfoldable pub read_log : LogIndex → Exec Node LogEntry
  read_log i n = elim (get_elem? n.log i) [ none ↦ undefined | some e ↦ returns e n ]

  unfoldable pub last_log_term : Exec Node Term
  unfolding read_log
  last_log_term = do n ← gets (λ n. n); e ← read_log (last_log_index n); pure e.term

  -- The entries from `log_.begin() + index` on.
  unfoldable pub log_from : LogIndex → Exec Node (List LogEntry)
  log_from i n = if leb i (length n.log) then returns (drop i n.log) n else undefined

  unfoldable pub reset_election_timeout : Node → Node
  reset_election_timeout n =
      let drawn = p.uniform n.config.election_timeout_min n.config.election_timeout_max n.random in
      record n { election_timeout = drawn.0; random = drawn.1; election_elapsed = pos 0 }

  abbrev pub persistent_state : Node → PersistentState
  persistent_state n = record {
    current_term = n.current_term;
    voted_for = n.voted_for;
    log = drop 1 n.log;
  }

  -- What the call of `save` comes to.
  unfoldable pub after_save : Option Exception → Exec Node (Unit {0})
  after_save none = pure tt
  after_save (some e) = throw e

  unfoldable pub persist : Exec Node (Unit {0})
  unfolding after_save
  persist n =
      let saved = p.save n.storage (persistent_state n) in
      after_save saved.0 (record n { storage = saved.1 })

  unfoldable pub send : NodeId → Rpc → Node → Node
  send peer rpc n = record n {
    outbox = n.outbox ++ (record { from = n.config.node_id; to = peer; rpc = rpc } ∷ []);
  }

  unfoldable pub adopt : Bool → Term → Node → Node
  adopt true term n = record n { current_term = term; voted_for = none }
  adopt false term n = n

  unfoldable pub step_down : Option NodeId → Node → Node
  unfolding reset_election_timeout
  step_down leader n = reset_election_timeout (record n {
    state = follower;
    leader_id = leader;
    votes_received = [];
    next_index = no_keys;
    match_index = no_keys;
    append_request_id = no_keys;
    heartbeat_elapsed = pos 0;
  })

  unfoldable pub become_follower : Term → Option NodeId → Exec Node (Unit {0})
  unfolding adopt step_down persist
  become_follower term leader = do
    term_changed ← gets (λ n. ltb n.current_term term)
    modify (adopt term_changed term)
    modify (step_down leader)
    if term_changed then persist else pure tt

  unfoldable pub snapshot : Node → NodeSnapshot
  snapshot n = record {
    node_id = n.config.node_id;
    state = n.state;
    current_term = n.current_term;
    leader_id = n.leader_id;
    commit_index = n.commit_index;
    last_applied = n.last_applied;
    last_log_index = last_log_index n;
  }

  unfoldable pub log_entries : Node → List LogEntry
  log_entries n = drop 1 n.log
