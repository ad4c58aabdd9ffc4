-- ===== src/Raft/Safety/Shared.antt =====
-- The rules for `Later` and `Steps`, and the operations of Raft/Node.antt.
use fault_tolerant_kv_store.Prelude.{
  ◌+◌, ◌≤◌, ◌<◌, ◌≡◌, refl, ◌∙◌, sym, ap, Bool, true, false, Option, none, some, arith, take,
  take-take, if◌then◌else◌, inl, inr, ltb, ltb→lt, lt→ltb,
}
use fault_tolerant_kv_store.Exec.{
  Exec, Outcome, Post, continue, returned, thrown, Post-continue, Post-weaken, Post-if, returns,
  pure, Exception,
}
use fault_tolerant_kv_store.Raft.Types.{NodeId, Term}
use fault_tolerant_kv_store.Raft.Platform.{Platform}
use fault_tolerant_kv_store.Raft.Node.{
  Node, persistent_state, after_save, persist, adopt, step_down, become_follower,
}
use fault_tolerant_kv_store.Raft.Safety.Logs.{ValidLog-mono}
use fault_tolerant_kv_store.Raft.Safety.Defs.{Inv, Later, Steps}

module _ ⦃p : Platform⦄ where
  pub Later-refl : (n : Node) → Later n n
  Later-refl n = record {
    same_config = refl;
    same_members = refl;
    term_mono = omega arith;
    vote_kept = λ _ c h. h;
    commit_mono = omega arith;
    committed_kept = refl;
  }

  pub Later-trans : (n m k : Node) → Later n m → Later m k → Later n k
  Later-trans n m k a b = record {
    same_config = b.same_config ∙ a.same_config;
    same_members = b.same_members ∙ a.same_members;
    term_mono = omega arith;
    vote_kept = λ e c h.
        b.vote_kept (omega (arith, a.term_mono, b.term_mono)) c
          (a.vote_kept (omega (arith, a.term_mono, b.term_mono)) c h);
    commit_mono = omega arith;
    committed_kept =
        sym (take-take (n.commit_index + 1) (m.commit_index + 1) k.log (omega arith))
        ∙ ap (take (n.commit_index + 1)) b.committed_kept
        ∙ take-take (n.commit_index + 1) (m.commit_index + 1) m.log (omega arith)
        ∙ a.committed_kept;
  }

  -- After a call that steps, a call that steps from every state that may follow.
  pub Steps-continue :
      {A B : Type 0} (n : Node) (f : B → Exec Node A) (r : Outcome Node B)
      → Steps n r
      → ((b : B) (m : Node) → Inv m → Later n m → Steps m (f b m))
      → Steps n (continue f r)
  Steps-continue n f r h k = Post-continue _ f r h (λ b m g.
      Post-weaken (k b m g.0 g.1) (λ _ s q. (q.0, Later-trans n m s g.1 q.1))
        (λ _ s q. (q.0, Later-trans n m s g.1 q.1)))

  -- A first change of the state alone.
  pub Steps-from :
      {A : Type 0} (n m : Node) (r : Outcome Node A) → Later n m → Steps m r → Steps n r
  Steps-from n m r l h =
      Post-weaken h (λ _ s q. (q.0, Later-trans n m s l q.1))
        (λ _ s q. (q.0, Later-trans n m s l q.1))

  -- A call whose result is known.
  pub Steps-known :
      {A B : Type 0} (n m : Node) (f : B → Exec Node A) (r : Outcome Node B) (b : B)
      → r ≡ returns b m
      → Steps n (f b m)
      → Steps n (continue f r)
  Steps-known n m f r b e h = rw e h

  pub Steps-returns : {A : Type 0} (a : A) (n : Node) → Inv n → Steps n (returns a n)
  Steps-returns a n v = returned (v, Later-refl n)

  after_save-Steps :
      (n : Node) (failure : Option Exception) → Inv n → Steps n (after_save failure n)
  unfolding after_save
  after_save-Steps n none v = returned (v, Later-refl n)
  after_save-Steps n (some e) v = thrown (v, Later-refl n)

  -- Whether the save returns or throws, the node is as it was but for the stored state.
  pub persist-Steps : (n : Node) → Inv n → Steps n (persist n)
  unfolding persist
  persist-Steps n v = after_save-Steps _ _ v

  adopt-Inv :
      (b : Bool) (t : Term) (n : Node) → (b ≡ true → n.current_term < t) → Inv n → Inv (adopt b t n)
  unfolding adopt
  adopt-Inv true t n h v = record {
    self_known = v.self_known;
    peers_known = v.peers_known;
    vote_known = tt;
    log_valid = ValidLog-mono n.current_term t n.log v.log_valid (omega (arith, h refl));
    committed = v.committed;
    all_applied = v.all_applied;
    in_office = inr (omega (arith, h refl));
    leading = v.leading;
  }
  adopt-Inv false t n h v = v

  adopt-Later :
      (b : Bool) (t : Term) (n : Node) → (b ≡ true → n.current_term < t) → Later n (adopt b t n)
  unfolding adopt
  adopt-Later true t n h = record {
    same_config = refl;
    same_members = refl;
    term_mono = omega (arith, h refl);
    vote_kept = λ e c _. absurd (omega (arith, h refl));
    commit_mono = omega arith;
    committed_kept = refl;
  }
  adopt-Later false t n h = Later-refl n

  pub step_down-Inv : (id : Option NodeId) (n : Node) → Inv n → Inv (step_down id n)
  unfolding step_down
  step_down-Inv id n v = record {
    self_known = v.self_known;
    peers_known = v.peers_known;
    vote_known = v.vote_known;
    log_valid = v.log_valid;
    committed = v.committed;
    all_applied = v.all_applied;
    in_office = inl refl;
    leading = λ e. cc;
  }

  pub persist_if-Steps :
      (b : Bool) (n : Node) → Inv n → Steps n ((if b then persist else pure tt) n)
  persist_if-Steps true n v = persist-Steps n v
  persist_if-Steps false n v = Steps-returns tt n v

  pub become_follower-Steps :
      (t : Term) (id : Option NodeId) (n : Node) → Inv n → Steps n (become_follower t id n)
  unfolding become_follower step_down
  become_follower-Steps t id n v =
      let newer = ltb n.current_term t in
      let m = adopt newer t n in
      Steps-from n m _ (adopt-Later newer t n (ltb→lt _ _)) (
        persist_if-Steps newer (step_down id m)
          (step_down-Inv id m (adopt-Inv newer t n (ltb→lt _ _) v)))

  -- What follows a save depends on the stored state alone.
  pub persist-then :
      {A : Type 0} (n : Node) (f : Unit {0} → Exec Node A)
      → Inv n
      → ((s : p.Store) → Steps n (f tt (record n { storage = s })))
      → Steps n (continue f (persist n))
  unfolding persist after_save
  persist-then n f v h = saves (p.save n.storage (persistent_state n)).0 (h _)
    where
      m : Node
      m = record n { storage = (p.save n.storage (persistent_state n)).1 }

      saves :
          (failure : Option Exception)
          → Steps n (f tt m)
          → Steps n (continue f (after_save failure m))
      saves none h = h
      saves (some e) h = thrown (v, Later-refl n)

  pub Steps-if :
      {A : Type 0} (b : Bool) (f g : Exec Node A) (n : Node)
      → (b ≡ true → Steps n (f n))
      → (b ≡ false → Steps n (g n))
      → Steps n ((if b then f else g) n)
  Steps-if b f g n h k = Post-if b f g n h k

  pub persist-Post :
      {Q : Unit {0} → Node → Type 0} {E : Exception → Node → Type 0} (n : Node)
      → ((s : p.Store) → Q tt (record n { storage = s }))
      → ((e : Exception) (s : p.Store) → E e (record n { storage = s }))
      → Post Q E (persist n)
  unfolding persist after_save
  persist-Post {Q} {E} n q e = saves (p.save n.storage (persistent_state n)).0
    where
      m : Node
      m = record n { storage = (p.save n.storage (persistent_state n)).1 }

      saves : (failure : Option Exception) → Post Q E (after_save failure m)
      saves none = returned (q _)
      saves (some x) = thrown (e x _)

  -- The node follows the newer term, also where the save has failed.
  pub become_follower-Post :
      (t : Term) (id : Option NodeId) (n : Node)
      → Inv n
      → n.current_term < t
      → Post
          (λ _ m. (Inv m × Later n m) × (t ≤ m.current_term))
          (λ _ m. Inv m × Later n m)
          (become_follower t id n)
  unfolding become_follower step_down adopt
  become_follower-Post t id n v lt =
      let m = adopt true t n in
      let w = step_down-Inv id m (adopt-Inv true t n (λ _. lt) v) in
      let l = adopt-Later true t n (λ _. lt) in
      rw (lt→ltb n.current_term t lt)
        (persist-Post (step_down id m) (λ s. ((w, l), omega arith)) (λ e s. (w, l)))
