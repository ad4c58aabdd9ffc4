-- ===== src/Raft/Safety/Quorum.antt =====
-- The search for the index that a quorum holds, and the commit of what it finds.
use fault_tolerant_kv_store.Prelude.{
  ℕ, ◌+◌, ◌*◌, List, [], ◌∷◌, value_or_zero, zero, suc, ◌≤◌, ◌<◌, ◌≡◌, refl, ◌∙◌, sym, Bool, true,
  false, Option, none, some, arith, length, get_elem?, get_elem?-lt, leb, ◌==◌, ◌&&◌, Bool-cases,
  inl, inr, subst, eq_of_some, leb→le, ◌⊎◌, ℕ_discrete,
}
use fault_tolerant_kv_store.Exec.{Exec, Outcome, returns, continue}
use fault_tolerant_kv_store.Raft.Types.{NodeId, LogEntry, LogIndex}
use fault_tolerant_kv_store.Raft.Platform.{Platform}
use fault_tolerant_kv_store.Raft.Node.{Node, quorum_size, last_log_index}
use fault_tolerant_kv_store.Raft.Replication.{
  holders, replicated, quorum_index, advance_commit_index,
}
use fault_tolerant_kv_store.Raft.Safety.Defs.{Inv, Later, Steps}
use fault_tolerant_kv_store.Raft.Safety.Shared.{Later-refl, Steps-from}
use fault_tolerant_kv_store.Raft.Safety.Commit.{
  read_log-eq, committed_to, commit-eq, committed_to-Inv, committed_to-Later,
}

zero_add : (k : ℕ) → 0 + k ≡ k
zero_add k = omega arith

module _ ⦃p : Platform⦄ where
  -- `Holding n i peers k`: `k` of the peers have answered the leader that they hold the index, or more.
  pub data Holding (n : Node) (i : LogIndex) : List NodeId → ℕ → Type 0 where
    nobody : Holding n i [] 0
    holds :
        {peer : NodeId} {peers : List NodeId} {k : ℕ}
        → i ≤ value_or_zero n.match_index peer
        → Holding n i peers k
        → Holding n i (peer ∷ peers) (1 + k)
    lacks :
        {peer : NodeId} {peers : List NodeId} {k : ℕ}
        → value_or_zero n.match_index peer < i
        → Holding n i peers k
        → Holding n i (peer ∷ peers) k

  holders-Holding :
      (n : Node) (i : LogIndex) (peers : List NodeId) → Holding n i peers (holders n i peers)
  unfolding holders
  holders-Holding n i [] = nobody
  holders-Holding n i (peer ∷ peers) =
      elim (Bool-cases (leb i (value_or_zero n.match_index peer))) [
        | inl held ↦ rw held (holds (leb→le _ _ held) (holders-Holding n i peers))
        | inr missing ↦ rw missing (
            subst (Holding n i (peer ∷ peers)) (sym (zero_add (holders n i peers)))
              (lacks (ground arith) (holders-Holding n i peers)))
      ]

  Holding-holders :
      {n : Node} {i : LogIndex} {peers : List NodeId} {k : ℕ}
      → Holding n i peers k
      → holders n i peers ≡ k
  unfolding holders
  Holding-holders nobody = refl
  Holding-holders (holds held rest) = ground (arith, Holding-holders rest)
  Holding-holders (lacks missing rest) = ground (arith, Holding-holders rest)

  -- An index that a leader may commit: its entry is of the current term, and the leader and the peers
  -- that hold it are more than half of the members.
  pub record IsCommittable (n : Node) (i : LogIndex) : Type 0 where
    pub entry : LogEntry
    pub at_index : get_elem? n.log i ≡ some entry
    pub current : entry.term ≡ n.current_term
    pub holding : ℕ
    pub counted : Holding n i n.config.peers holding
    pub quorum : length n.members < 2 * (1 + holding)

  -- The greatest such index above the commit index and not above `c`, if there is one.
  abbrev pub IsGreatest : Node → LogIndex → Option LogIndex → Type 0
  IsGreatest n c none = (j : LogIndex) → n.commit_index < j → j ≤ c → ¬ IsCommittable n j
  IsGreatest n c (some i) =
      (n.commit_index < i)
      × (i ≤ c)
      × IsCommittable n i
      × ((j : LogIndex) → i < j → j ≤ c → ¬ IsCommittable n j)

  IsGreatest-suc :
      (n : Node) (c : LogIndex) (r : Option LogIndex)
      → ¬ IsCommittable n (suc c)
      → IsGreatest n c r
      → IsGreatest n (suc c) r
  IsGreatest-suc n c none last h = λ j below le k. elim (ℕ_discrete j (suc c)) [
    | yes e ↦ last (subst (IsCommittable n) e k)
    | no ne ↦ h j below (omega arith) k
  ]
  IsGreatest-suc n c (some i) last (a, b, k, h) = (
    a,
    omega arith,
    k,
    λ j below le q. elim (ℕ_discrete j (suc c)) [
      | yes e ↦ last (subst (IsCommittable n) e q)
      | no ne ↦ h j below (omega arith) q
    ],
  )

  abbrev is_chosen : Node → LogIndex → LogEntry → Bool
  is_chosen n i e = e.term == n.current_term && leb (quorum_size n) (replicated n i)

  not_chosen :
      (n : Node) (i : LogIndex) (e : LogEntry)
      → get_elem? n.log i ≡ some e
      → is_chosen n i e ≡ false
      → ¬ IsCommittable n i
  unfolding replicated
  not_chosen n i e found h k = ground (arith, same, k.current, k.quorum, Holding-holders k.counted)
    where
      same : e ≡ k.entry
      same = eq_of_some (sym found ∙ k.at_index)

  is_chosen-IsCommittable :
      (n : Node) (i : LogIndex) (e : LogEntry)
      → get_elem? n.log i ≡ some e
      → is_chosen n i e ≡ true
      → IsCommittable n i
  unfolding replicated
  is_chosen-IsCommittable n i e found h = record {
    entry = e;
    at_index = found;
    current = ground arith;
    holding = holders n i n.config.peers;
    counted = holders-Holding n i n.config.peers;
    quorum = ground arith;
  }

  pub quorum_index_lem :
      (c : LogIndex) (n : Node)
      → c < length n.log
      → (r : Option LogIndex) × (quorum_index c n ≡ returns r n) × IsGreatest n c r
  unfolding quorum_index
  quorum_index_lem zero n lt = (none, refl, λ j h h'. absurd (omega arith))
  quorum_index_lem (suc c) n lt =
      search_from (quorum_index_lem c n (omega arith)) (get_elem?-lt n.log (suc c) lt)
        (Bool-cases (leb (suc c) n.commit_index))
    where
      search_from :
          (r : Option LogIndex) × (quorum_index c n ≡ returns r n) × IsGreatest n c r
          → (e : LogEntry) × (get_elem? n.log (suc c) ≡ some e)
          → (leb (suc c) n.commit_index ≡ true) ⊎ (leb (suc c) n.commit_index ≡ false)
          → (r : Option LogIndex) × (quorum_index (suc c) n ≡ returns r n) × IsGreatest n (suc c) r
      search_from (r, eq, h) (e, found) (inl done) =
          (none, rw done refl, λ j below le k. absurd (omega (arith, leb→le _ _ done)))
      search_from (r, eq, h) (e, found) (inr more) = elim (Bool-cases (is_chosen n (suc c) e)) [
        | inl chosen ↦ (
          some (suc c),
          rw (more, read_log-eq (suc c) n e found, chosen) refl,
          (
            ground arith,
            omega arith,
            is_chosen-IsCommittable n (suc c) e found chosen,
            λ j below le k. absurd (omega arith),
          ),
        )
        | inr rejected ↦ (
          r,
          rw (more, read_log-eq (suc c) n e found, rejected) eq,
          IsGreatest-suc n c r (not_chosen n (suc c) e found rejected) h,
        )
      ]

  -- What a call did that found the index, or that found none.
  abbrev pub Advanced : Node → Outcome Node Bool → Option LogIndex → Type 0
  Advanced n r none = r ≡ returns false n
  Advanced n r (some i) = r ≡ returns true (committed_to i n)

  -- Where all committed entries are applied and the commit index is in the log, the commit index moves
  -- to the greatest index of the log above it whose entry has the current term and that the leader and
  -- the peers with a match index of at least it, which are more than half of the members, hold; then the
  -- call returns true. Where there is no such index, it returns false and changes nothing.
  pub advance_commit_index_lem :
      (n : Node)
      → n.last_applied ≡ n.commit_index
      → n.commit_index < length n.log
      → (r : Option LogIndex) × Advanced n (advance_commit_index n) r
        × IsGreatest n (last_log_index n) r
  unfolding advance_commit_index
  advance_commit_index_lem n sync lt =
      conclude (quorum_index_lem (last_log_index n) n (omega arith))
    where
      conclude :
          (r : Option LogIndex) × (quorum_index (last_log_index n) n ≡ returns r n)
            × IsGreatest n (last_log_index n) r
          → (r : Option LogIndex) × Advanced n (advance_commit_index n) r
            × IsGreatest n (last_log_index n) r
      conclude (none, eq, h) = (none, rw eq refl, h)
      conclude (some i, eq, h) =
          (some i, rw eq (commit-eq i n (omega (arith, h.0)) (omega (arith, h.1))), h)

  -- What follows may rely on the invariant, and on the role and the maps, which stay as they were.
  pub advance-then :
      {A : Type 0} (n : Node) (f : Bool → Exec Node A)
      → Inv n
      → ((b : Bool) (m : Node) → Inv m → Later n m → m.state ≡ n.state → Steps m (f b m))
      → Steps n (continue f (advance_commit_index n))
  advance-then n f v k = conclude (advance_commit_index_lem n v.all_applied v.committed)
    where
      conclude :
          (r : Option LogIndex) × Advanced n (advance_commit_index n) r
            × IsGreatest n (last_log_index n) r
          → Steps n (continue f (advance_commit_index n))
      conclude (none, eq, h) = rw eq (k false n v (Later-refl n) refl)
      conclude (some i, eq, h) =
          let later = committed_to-Later i n (omega (arith, h.0)) in
          rw eq (
            Steps-from n (committed_to i n) _ later (
              k true (committed_to i n)
                (committed_to-Inv i n v (omega (arith, h.0, h.1, v.committed))) later refl))
