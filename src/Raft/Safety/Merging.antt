-- ===== src/Raft/Safety/Merging.antt =====
-- The comparison of the incoming entries with the log, and what remains to be appended.
use fault_tolerant_kv_store.Prelude.{
  suc, ◌+◌, ◌≤◌, ◌<◌, ◌≡◌, refl, sym, false, some, List, [], ◌∷◌, ◌++◌, arith, length, length-take,
  get_elem?, get_elem?-lt, leb, ltb, ◌==◌, Bool-cases, inl, inr, append-nil, take, take-take,
  take_all, subst, ltb→lt, ==_iff, get_elem?-some_lt,
}
use fault_tolerant_kv_store.Exec.{Exec, Outcome, Post, returned, thrown, Post-if, pure}
use fault_tolerant_kv_store.Raft.Types.{follower, LogEntry, LogIndex, entry_eq}
use fault_tolerant_kv_store.Raft.Platform.{Platform}
use fault_tolerant_kv_store.Raft.Node.{Node, last_log_index}
use fault_tolerant_kv_store.Raft.AppendEntries.{
  Merge, conflict, remaining, match_entry, replace_from, compare_entry, merge,
}
use fault_tolerant_kv_store.Raft.Safety.Logs.{ValidFrom, ValidLog, ValidLog-take, ValidLog-splice}
use fault_tolerant_kv_store.Raft.Safety.Defs.{Inv, Later}
use fault_tolerant_kv_store.Raft.Safety.Shared.{Later-refl}
use fault_tolerant_kv_store.Raft.Safety.Commit.{read_log-eq}

module _ ⦃p : Platform⦄ where
  -- A log that keeps its entries up to the commit index.
  pub log-Later :
      (n : Node) (log : List LogEntry)
      → take (n.commit_index + 1) log ≡ take (n.commit_index + 1) n.log
      → Later n (record n { log = log })
  log-Later n log h = record {
    same_config = refl;
    same_members = refl;
    term_mono = omega arith;
    vote_kept = λ _ _ h. h;
    commit_mono = omega arith;
    committed_kept = h;
  }

  pub log-Inv :
      (n : Node) (log : List LogEntry)
      → Inv n
      → n.state ≡ follower
      → ValidLog n.current_term log
      → n.commit_index < length log
      → Inv (record n { log = log })
  log-Inv n log v f valid lt = record {
    self_known = v.self_known;
    peers_known = v.peers_known;
    vote_known = v.vote_known;
    log_valid = valid;
    committed = lt;
    all_applied = v.all_applied;
    in_office = v.in_office;
    leading = λ e. absurd (ground arith);
  }

  -- What the comparison leaves: a follower whose log may be extended by the entries that remain.
  pub record Ready (rest : List LogEntry) (m : Node) : Type 0 where
    pub inv : Inv m
    pub follows : m.state ≡ follower
    pub extends : ValidLog m.current_term (m.log ++ rest)

  abbrev pub Merged : Merge → Node → Type 0
  Merged (conflict i t) m = Inv m
  Merged (remaining changed rest) m = Ready rest m

  abbrev pub Merges : Node → Outcome Node Merge → Type 0
  Merges n = Post (λ r m. Merged r m × Later n m) (λ _ m. Inv m × Later n m)

  splice :
      (n : Node) (i : LogIndex) (e : LogEntry) (rest : List LogEntry)
      → Inv n
      → get_elem? n.log i ≡ some e
      → ValidFrom n.current_term e.term rest
      → ValidLog n.current_term (take (i + 1) n.log ++ rest)
  splice n i e rest v at valid =
      subst (λ k. ValidLog n.current_term (take k n.log ++ rest)) next
        (ValidLog-splice n.current_term i e n.log rest v.log_valid at valid)
    where
      next : suc i ≡ i + 1
      next = omega arith

  Ready-at_end :
      (n : Node) (i : LogIndex) (e : LogEntry) (rest : List LogEntry)
      → Inv n
      → n.state ≡ follower
      → get_elem? n.log i ≡ some e
      → ValidFrom n.current_term e.term rest
      → length n.log ≤ i + 1
      → Ready rest n
  Ready-at_end n i e rest v f at valid end = record {
    inv = v;
    follows = f;
    extends =
        subst (λ l. ValidLog n.current_term (l ++ rest)) (take_all (i + 1) n.log end)
          (splice n i e rest v at valid);
  }

  Ready-after_cut :
      (n : Node) (i : LogIndex) (e : LogEntry) (rest : List LogEntry)
      → Inv n
      → n.state ≡ follower
      → get_elem? n.log i ≡ some e
      → ValidFrom n.current_term e.term rest
      → n.commit_index < i + 1
      → i + 1 ≤ length n.log
      → Ready rest (record n { log = take (i + 1) n.log })
  Ready-after_cut n i e rest v f at valid above le = record {
    inv =
        log-Inv n (take (i + 1) n.log) v f
          (ValidLog-take n.current_term (i + 1) n.log v.log_valid (omega arith))
          (omega (arith, length-take (i + 1) n.log));
    follows = f;
    extends = splice n i e rest v at valid;
  }

  replace_from-Merges :
      (n : Node) (i : LogIndex) (e local : LogEntry) (rest : List LogEntry)
      → Inv n
      → n.state ≡ follower
      → get_elem? n.log i ≡ some e
      → ValidFrom n.current_term e.term rest
      → i + 1 ≤ length n.log
      → Merges n (replace_from (i + 1) local rest n)
  unfolding replace_from
  replace_from-Merges n i e local rest v f at valid le =
      elim (Bool-cases (leb (i + 1) n.commit_index)) [
        | inl kept ↦ rw kept (returned (v, Later-refl n))
        | inr free ↦
            let above = ltb→lt n.commit_index (i + 1) (ground arith) in
            rw free (
              returned (
                Ready-after_cut n i e rest v f at valid above le,
                log-Later n (take (i + 1) n.log)
                    (take-take (n.commit_index + 1) (i + 1) n.log (omega arith)),
              ))
      ]

  match_entry-Merges :
      (n : Node) (local x : LogEntry) (next : Exec Node Merge)
      → Inv n
      → Merges n (next n)
      → Merges n (match_entry local x next n)
  unfolding match_entry
  match_entry-Merges n local x next v h = elim (Bool-cases (entry_eq local x)) [
    | inl same ↦ rw same h
    | inr differ ↦ rw differ (thrown (v, Later-refl n))
  ]

  compare_entry-Merges :
      (n : Node) (i : LogIndex) (e x : LogEntry) (rest : List LogEntry) (next : Exec Node Merge)
      → Inv n
      → n.state ≡ follower
      → get_elem? n.log i ≡ some e
      → ValidFrom n.current_term e.term (x ∷ rest)
      → (l : LogEntry) × (get_elem? n.log (i + 1) ≡ some l)
      → ((l : LogEntry) → get_elem? n.log (i + 1) ≡ some l → l.term ≡ x.term → Merges n (next n))
      → Merges n (compare_entry (i + 1) x rest next n)
  unfolding compare_entry
  compare_entry-Merges n i e x rest next v f at valid (l, found) h =
      rw (read_log-eq (i + 1) n l found) (
        Post-if (l.term == x.term) (match_entry l x next) (replace_from (i + 1) l (x ∷ rest)) n
          (λ same. match_entry-Merges n l x next v (h l found ((==_iff _ _).0 same)))
          (λ _.
            replace_from-Merges n i e l (x ∷ rest) v f at valid
              (omega (arith, get_elem?-some_lt n.log (i + 1) found))))

  -- The entry before `entry_index` is `e`, and the entries may follow one of its term.
  pub merge-Merges :
      (i : LogIndex) (es : List LogEntry) (n : Node) (e : LogEntry)
      → Inv n
      → n.state ≡ follower
      → get_elem? n.log i ≡ some e
      → ValidFrom n.current_term e.term es
      → Merges n (merge (i + 1) es n)
  unfolding merge
  merge-Merges i [] n e v f at h = returned (
    record {
      inv = v;
      follows = f;
      extends = subst (ValidLog n.current_term) (sym (append-nil n.log)) v.log_valid;
    },
    Later-refl n,
  )
  merge-Merges i (x ∷ es) n e v f at (a, b, c, d) =
      Post-if (ltb (last_log_index n) (i + 1)) (pure (remaining false (x ∷ es)))
        (compare_entry (i + 1) x es (merge (i + 1 + 1) es)) n
        (λ beyond. returned (
          Ready-at_end n i e (x ∷ es) v f at (a, b, c, d) (omega (arith, ltb→lt _ _ beyond)),
          Later-refl n,
        ))
        (λ within.
          compare_entry-Merges n i e x es (merge (i + 1 + 1) es) v f at (a, b, c, d)
            (get_elem?-lt n.log (i + 1) (ground arith))
            λ l found same.
              merge-Merges (i + 1) es n l v f found
                (subst (λ t. ValidFrom n.current_term t es) (sym same) d))
