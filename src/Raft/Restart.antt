-- ===== src/Raft/Restart.antt =====
-- The constructor of `RaftNode` and the invariant, for a new node and for one that starts again.
use fault_tolerant_kv_store.Prelude.{
  ◌≡◌, refl, ◌∙◌, sym, subst, true, false, Option, none, some, List, [], ◌∷◌, arith, drop, ◌==◌,
  ◌||◌, Bool-cases, inl, inr, ◌⊎◌, contains, insert, insert_all, ==_refl, or_false_right, true_or,
  or_true,
}
use fault_tolerant_kv_store.Prelude.Sets.{contains-insert, contains-insert_all}
use fault_tolerant_kv_store.Exec.{Exception}
use fault_tolerant_kv_store.Result.{Result, ok, err}
use fault_tolerant_kv_store.Raft.Types.{NodeId, Term, LogEntry, RaftConfig, PersistentState}
use fault_tolerant_kv_store.Raft.Platform.{Platform, Loaded, loaded, load_failed}
use fault_tolerant_kv_store.Raft.Node.{Node, persistent_state, reset_election_timeout}
use fault_tolerant_kv_store.Raft.Construction.{
  validate_config, vote_is_foreign, log_is_invalid, fresh_node, restore, build, construct,
}
use fault_tolerant_kv_store.Raft.Safety.Logs.{ValidFrom, ValidLog}
use fault_tolerant_kv_store.Raft.Safety.Defs.{Inv, IsMember}

log_is_invalid-ValidFrom :
    (t u : Term) (es : List LogEntry) → log_is_invalid t u es ≡ false → ValidFrom t u es
unfolding log_is_invalid
log_is_invalid-ValidFrom t u [] h = tt
log_is_invalid-ValidFrom t u (e ∷ es) h = (
  ground arith,
  ground arith,
  ground arith,
  log_is_invalid-ValidFrom t e.term es (or_false_right _ _ h),
)

ValidFrom-log_is_invalid :
    (t u : Term) (es : List LogEntry) → ValidFrom t u es → log_is_invalid t u es ≡ false
unfolding log_is_invalid
ValidFrom-log_is_invalid t u [] h = refl
ValidFrom-log_is_invalid t u (e ∷ es) (a, b, c, d) =
    ground (arith, ValidFrom-log_is_invalid t e.term es d)

abbrev roster : RaftConfig → List NodeId
roster c = insert_all (insert [] c.node_id) c.peers

-- The members are the node itself and its peers.
roster-contains :
    (c : RaftConfig) (k : NodeId) → contains (roster c) k ≡ (c.node_id == k || contains c.peers k)
unfolding contains
roster-contains c k =
    contains-insert_all (insert [] c.node_id) c.peers k
    ∙ ground (arith, contains-insert [] c.node_id k)

IsMember-vote_is_foreign :
    (ms : List NodeId) (vote : Option NodeId) → vote_is_foreign ms vote ≡ false → IsMember ms vote
IsMember-vote_is_foreign ms none h = tt
IsMember-vote_is_foreign ms (some id) h = ground arith

module _ ⦃p : Platform⦄ where
  fresh_node-Inv :
      (c : RaftConfig) (store : p.Store) (saved : PersistentState)
      → vote_is_foreign (roster c) saved.voted_for ≡ false
      → log_is_invalid saved.current_term 0 saved.log ≡ false
      → Inv (fresh_node c store saved)
  unfolding fresh_node reset_election_timeout
  fresh_node-Inv c store saved vote log = record {
    self_known = rw (roster-contains c c.node_id) (true_or _ _ (==_refl c.node_id));
    peers_known = λ k h. known k (sym (roster-contains c k) ∙ h);
    vote_known = IsMember-vote_is_foreign (roster c) saved.voted_for vote;
    log_valid = (refl, log_is_invalid-ValidFrom saved.current_term 0 saved.log log);
    committed = omega arith;
    all_applied = refl;
    in_office = inl refl;
    leading = λ e. cc;
  }
    where
      known :
          (k : NodeId)
          → (c.node_id == k || contains c.peers k) ≡ true
          → (k ≡ c.node_id) ⊎ (contains c.peers k ≡ true)
      known k h = ground arith

  restore-Inv :
      (c : RaftConfig) (store : p.Store) (l : Loaded) (n : Node) → restore c store l ≡ ok n → Inv n
  unfolding restore
  restore-Inv c store (load_failed e) n h = cc
  restore-Inv c store (loaded saved) n h =
      elim (Bool-cases (vote_is_foreign (roster c) saved.voted_for)) [
        | inl foreign ↦ absurd (refused (rw foreign at h))
        | inr member ↦ elim (Bool-cases (log_is_invalid saved.current_term 0 saved.log)) [
          | inl invalid ↦ absurd (refused (rw (member, invalid) at h))
          | inr valid ↦
              subst Inv (same (rw (member, valid) at h)) (fresh_node-Inv c store saved member valid)
        ]
      ]
    where
      refused : {e : Exception} → err e ≡ ok n → ⊥
      refused h = cc

      same : ok (fresh_node c store saved) ≡ ok n → fresh_node c store saved ≡ n
      same h = cc

  build-Inv :
      (checked : Result (Unit {0})) (c : RaftConfig) (store : Option p.Store) (n : Node)
      → build checked c store ≡ ok n
      → Inv n
  unfolding build
  build-Inv (err e) c store n h = cc
  build-Inv (ok u) c none n h = cc
  build-Inv (ok u) c (some store) n h = restore-Inv c store (p.load store) n h

  -- A node that the constructor makes satisfies the invariant, whatever the store holds.
  pub construct-Inv :
      (c : RaftConfig) (store : Option p.Store) (n : Node) → construct c store ≡ ok n → Inv n
  unfolding construct
  construct-Inv c store n h = build-Inv (validate_config c) c store n h

  vote_is_known : (n : Node) → Inv n → vote_is_foreign (roster n.config) n.voted_for ≡ false
  vote_is_known n v = known n.voted_for v.vote_known
    where
      voter :
          (id : NodeId)
          → (id ≡ n.config.node_id) ⊎ (contains n.config.peers id ≡ true)
          → (n.config.node_id == id || contains n.config.peers id) ≡ true
      voter id (inl self) = ground arith
      voter id (inr peer) = or_true _ _ peer

      known :
          (vote : Option NodeId)
          → IsMember n.members vote
          → vote_is_foreign (roster n.config) vote ≡ false
      known none h = refl
      known (some id) h = rw (roster-contains n.config id, voter id (v.peers_known id h)) refl

  log_is_known : (n : Node) → Inv n → log_is_invalid n.current_term 0 (drop 1 n.log) ≡ false
  log_is_known n v = known n.log v.log_valid
    where
      known :
          (log : List LogEntry)
          → ValidLog n.current_term log
          → log_is_invalid n.current_term 0 (drop 1 log) ≡ false
      known [] h = absurd h
      known (s ∷ es) (z, h) = ValidFrom-log_is_invalid n.current_term 0 es h

  -- A node in any state that satisfies the invariant, with a valid configuration, whose state is what
  -- the store loads, is accepted again by the constructor over that store, and has its term, its vote
  -- and its log back.
  pub restart_lem :
      (n : Node) (store : p.Store)
      → Inv n
      → validate_config n.config ≡ ok tt
      → p.load store ≡ loaded (persistent_state n)
      → (m : Node) × (construct n.config (some store) ≡ ok m)
        × (m.current_term ≡ n.current_term)
        × (m.voted_for ≡ n.voted_for)
        × (drop 1 m.log ≡ drop 1 n.log)
  unfolding construct build restore fresh_node reset_election_timeout
  restart_lem n store v valid stored = (
    fresh_node n.config store (persistent_state n),
    rw (valid, stored, vote_is_known n v, log_is_known n v) refl,
    refl,
    refl,
    refl,
  )
