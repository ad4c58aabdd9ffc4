-- ===== src/Raft/Recovery.antt =====
-- Starting a node again after calls that returned: src/raft/raft_node.cpp.
use fault_tolerant_kv_store.Prelude.{
  ◌≡◌, refl, subst, sym, ap, drop, some, List, [], ◌∷◌, Bool, true, false, if◌then◌else◌, ◌∙◌,
  insert, insert_all,
}
use fault_tolerant_kv_store.Exec.{
  Outcome, returns, Post, returned, thrown, pure, Post-weaken, continue, for_each, left_by,
  raft_error,
}
use fault_tolerant_kv_store.Result.{Result, ok, err}
use fault_tolerant_kv_store.Raft.Platform.{Platform, Limits, IsDurable, Loaded, loaded, load_failed}
use fault_tolerant_kv_store.Raft.Types.{PersistentState, RaftConfig}
use fault_tolerant_kv_store.Raft.Node.{Node, persistent_state, reset_election_timeout}
use fault_tolerant_kv_store.Raft.Construction.{
  construct, build, restore, fresh_node, vote_is_foreign, log_is_invalid, validate_config,
}
use fault_tolerant_kv_store.Raft.Calls.{take_messages, take_committed_entries}
use fault_tolerant_kv_store.Raft.Safety.Defs.{Inv, Later, Steps}
use fault_tolerant_kv_store.Raft.Safety.Shared.{Later-trans}
use fault_tolerant_kv_store.Raft.Durability.Defs.{IsSaved, Saves, Saves-continue}
use fault_tolerant_kv_store.Raft.Durability.Whole.{
  tick-Saves, step-Saves, handle_request-Saves, propose-Saves,
}
use fault_tolerant_kv_store.Raft.Restart.{restart_lem, construct-Inv}
use fault_tolerant_kv_store.Raft.History.{
  Call, ticks, steps, requests, proposes, drains_messages, drains_committed, ArePermitted, perform,
  perform-Steps, after,
}

module _ ⦃p : Platform⦄ where
  -- A node that is constructed over the storage has the term, the vote and the log.
  abbrev pub IsRecoverable : Node → Type 0
  IsRecoverable m =
      (k : Node) × (construct m.config (some m.storage) ≡ ok k)
      × (k.current_term ≡ m.current_term)
      × (k.voted_for ≡ m.voted_for)
      × (drop 1 k.log ≡ drop 1 m.log)

  restore_made :
      (c : RaftConfig) (store : p.Store) (saved : PersistentState) (n : Node)
      → restore c store (loaded saved) ≡ ok n
      → fresh_node c store saved ≡ n
  unfolding restore
  restore_made c store saved n h =
      pick (vote_is_foreign (insert_all (insert [] c.node_id) c.peers) saved.voted_for)
        (log_is_invalid saved.current_term 0 saved.log) h
    where
      pick :
          (foreign invalid : Bool)
          → (if foreign
              then err (raft_error "persisted vote references a non-member")
              else if invalid
              then err (raft_error "persisted Raft log is invalid")
              else ok (fresh_node c store saved))
            ≡ ok n
          → fresh_node c store saved ≡ n
      pick true invalid h = cc
      pick false true h = cc
      pick false false h = cc

  fresh_node-config :
      (c : RaftConfig) (store : p.Store) (saved : PersistentState)
      → (fresh_node c store saved).config ≡ c
  unfolding fresh_node reset_election_timeout
  fresh_node-config c store saved = refl

module _ ⦃p : Platform⦄ ⦃limits : Limits p⦄ where
  perform-Saves : (c : Call) (n : Node) → IsDurable p → IsSaved n → Saves (perform c n)
  unfolding perform take_messages take_committed_entries
  perform-Saves (ticks t) n law h = tick-Saves t n law h
  perform-Saves (steps m) n law h =
      Saves-continue (λ _. pure tt) _ (step-Saves m n law h) λ _ k g. g
  perform-Saves (requests m) n law h =
      Saves-continue (λ _. pure tt) _ (handle_request-Saves m n law h) λ _ k g. g
  perform-Saves (proposes command) n law h =
      Saves-continue (λ _. pure tt) _ (propose-Saves command n law h) λ _ k g. g
  perform-Saves drains_messages n law h = h
  perform-Saves drains_committed n law h = h

  fresh_node-IsSaved :
      (c : RaftConfig) (store : p.Store) (saved : PersistentState)
      → limits.IsSound store
      → p.load store ≡ loaded saved
      → IsSaved (fresh_node c store saved)
  unfolding fresh_node reset_election_timeout
  fresh_node-IsSaved c store saved sound at = (sound, λ _. at)

  construct-IsSaved :
      (c : RaftConfig) (store : p.Store) (n : Node)
      → limits.IsSound store
      → construct c (some store) ≡ ok n
      → IsSaved n × (validate_config n.config ≡ ok tt)
  unfolding construct build restore
  construct-IsSaved c store n sound h = checked (validate_config c) refl h
    where
      restored :
          (l : Loaded)
          → p.load store ≡ l
          → validate_config c ≡ ok tt
          → restore c store l ≡ ok n
          → IsSaved n × (validate_config n.config ≡ ok tt)
      restored (load_failed e) at valid h = cc
      restored (loaded saved) at valid h =
          let same = restore_made c store saved n h in
          (
            subst IsSaved same (fresh_node-IsSaved c store saved sound at),
            ap (λ m. validate_config m.config) (sym same)
                ∙ ap validate_config (fresh_node-config c store saved)
                ∙ valid,
          )

      checked :
          (r : Result (Unit {0}))
          → validate_config c ≡ r
          → build r c (some store) ≡ ok n
          → IsSaved n × (validate_config n.config ≡ ok tt)
      checked (err e) valid h = cc
      checked (ok tt) valid h = restored (p.load store) refl valid h

  calls_returned :
      (cs : List Call) (n : Node)
      → IsDurable p
      → Inv n
      → validate_config n.config ≡ ok tt
      → ArePermitted n cs
      → IsSaved n
      → ((m : Node) → for_each cs perform n ≡ returns tt m → limits.Fits (persistent_state m))
      → Post (λ _ m. IsRecoverable m) (λ _ m. Inv m × Later n m) (for_each cs perform n)
  unfolding for_each after
  calls_returned [] n law v valid h g fits =
      returned (restart_lem n n.storage v valid (g.1 (fits n refl)))
  calls_returned (c ∷ cs) n law v valid (h, hs) g fits =
      next (perform c n) refl
        (λ m at w e permitted u.
          calls_returned cs m law w (e ∙ valid) permitted u
            λ k end. fits k (ap (continue (λ _. for_each cs perform)) at ∙ end))
        (perform-Steps n c v h) (perform-Saves c n law g)
    where
      next :
          (r : Outcome Node (Unit {0}))
          → perform c n ≡ r
          → ((m : Node)
              → perform c n ≡ returns tt m
              → Inv m
              → validate_config m.config ≡ validate_config n.config
              → ArePermitted m cs
              → IsSaved m
              → Post (λ _ k. IsRecoverable k) (λ _ k. Inv k × Later m k) (for_each cs perform m))
          → Steps n r
          → Saves r
          → Post
              (λ _ m. IsRecoverable m)
              (λ _ m. Inv m × Later n m)
              (continue (λ _. for_each cs perform) r)
      next r at rest (returned {s = m} (w, l)) u =
          Post-weaken
            (rest m at w (ap validate_config l.same_config)
              (subst (λ k. ArePermitted k cs) (ap (left_by n) at) hs) u)
            (λ _ k q. q) (λ _ k q. (q.0, Later-trans n m k l q.1))
      next r at rest (thrown q) u = thrown q

  -- After any permitted calls of a new node that all return, a node constructed over the storage has
  -- the same term, vote and log, for any random engine and any storage that keeps its promises, if the
  -- node is made over a sound store and if the state that the calls end in is one that the storage can
  -- store; a call that throws ends the calls in a later state with the invariant.
  pub recovery_lem :
      (c : RaftConfig) (store : p.Store) (n : Node) (cs : List Call)
      → IsDurable p
      → limits.IsSound store
      → construct c (some store) ≡ ok n
      → ArePermitted n cs
      → ((m : Node) → for_each cs perform n ≡ returns tt m → limits.Fits (persistent_state m))
      → Post (λ _ m. IsRecoverable m) (λ _ m. Inv m × Later n m) (for_each cs perform n)
  recovery_lem c store n cs law sound made permitted fits =
      let (saved, valid) = construct-IsSaved c store n sound made in
      calls_returned cs n law (construct-Inv c (some store) n made) valid permitted saved fits
