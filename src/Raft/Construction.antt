-- ===== src/Raft/Construction.antt =====
-- raft_node.cpp: the check of the configuration and the constructor of `RaftNode`.
use Prim.Native.Nat.{bit_xor}
use fault_tolerant_kv_store.Prelude.{
  ◌*◌, ◌%◌, ◌^◌, Option, none, some, List, [], ◌∷◌, Bool, false, ltb, ◌==◌, ◌||◌, not,
  if◌then◌else◌, no_keys, contains, insert, insert_all,
}
use fault_tolerant_kv_store.Prelude.Int.{pos, leb_ℤ, ltb_ℤ}
use fault_tolerant_kv_store.Exec.{invalid_argument, raft_error}
use fault_tolerant_kv_store.Result.{Result, ok, err}
use fault_tolerant_kv_store.Raft.Types.{
  follower, NodeId, Term, LogEntry, RaftConfig, PersistentState, sentinel,
}
use fault_tolerant_kv_store.Raft.Platform.{Platform, Loaded, loaded, load_failed}
use fault_tolerant_kv_store.Raft.Node.{Node, reset_election_timeout}

unfoldable pub timing_is_invalid : RaftConfig → Bool
timing_is_invalid c =
    (leb_ℤ c.heartbeat_interval (pos 0) || leb_ℤ c.election_timeout_min (pos 0))
    || (ltb_ℤ c.election_timeout_max c.election_timeout_min
        || leb_ℤ c.election_timeout_min c.heartbeat_interval)

unfoldable pub has_duplicate : List NodeId → List NodeId → Bool
unfolding contains insert
has_duplicate members [] = false
has_duplicate members (peer ∷ peers) =
    contains members peer || has_duplicate (insert members peer) peers

unfoldable pub validate_config : RaftConfig → Result (Unit {0})
unfolding timing_is_invalid has_duplicate
validate_config c =
    if timing_is_invalid c
    then err (invalid_argument "invalid Raft timing configuration")
    else if has_duplicate (c.node_id ∷ []) c.peers
    then err (invalid_argument "Raft members must be unique")
    else ok tt

abbrev pub vote_is_foreign : List NodeId → Option NodeId → Bool
vote_is_foreign members none = false
vote_is_foreign members (some id) = not (contains members id)

-- The check of the persisted entries, after one of the term `previous`.
unfoldable pub log_is_invalid : Term → Term → List LogEntry → Bool
log_is_invalid current previous [] = false
log_is_invalid current previous (e ∷ es) =
    (e.term == 0 || (ltb current e.term || ltb e.term previous)) || log_is_invalid current e.term es

module _ ⦃p : Platform⦄ where
  -- The fields before the constructor's body ends; `reset_election_timeout` draws the timeout.
  unfoldable pub fresh_node : RaftConfig → p.Store → PersistentState → Node
  unfolding insert insert_all reset_election_timeout
  fresh_node c store saved = reset_election_timeout (record {
    config = c;
    storage = store;
    random = p.seed (bit_xor c.random_seed ((c.node_id * 0x9e3779b97f4a7c15) % 2 ^ 64));
    state = follower;
    current_term = saved.current_term;
    voted_for = saved.voted_for;
    leader_id = none;
    log = sentinel ∷ saved.log;
    commit_index = 0;
    last_applied = 0;
    election_elapsed = pos 0;
    election_timeout = pos 0;
    heartbeat_elapsed = pos 0;
    members = insert_all (insert [] c.node_id) c.peers;
    votes_received = [];
    next_index = no_keys;
    match_index = no_keys;
    append_request_id = no_keys;
    outbox = [];
    committed_entries = [];
  })

  unfoldable pub restore : RaftConfig → p.Store → Loaded → Result Node
  unfolding fresh_node log_is_invalid
  restore c store (load_failed e) = err e
  restore c store (loaded saved) =
      if vote_is_foreign (insert_all (insert [] c.node_id) c.peers) saved.voted_for
      then err (raft_error "persisted vote references a non-member")
      else if log_is_invalid saved.current_term 0 saved.log
      then err (raft_error "persisted Raft log is invalid")
      else ok (fresh_node c store saved)

  -- The constructor after the check of the configuration; `none` is a null pointer.
  unfoldable pub build : Result (Unit {0}) → RaftConfig → Option p.Store → Result Node
  unfolding restore
  build (err e) c store = err e
  build (ok _) c none = err (invalid_argument "Raft storage must not be null")
  build (ok _) c (some store) = restore c store (p.load store)

  unfoldable pub construct : RaftConfig → Option p.Store → Result Node
  unfolding validate_config build
  construct c store = build (validate_config c) c store
