-- ===== src/Raft/Safety/Commit.antt =====
-- Applying committed entries.
use fault_tolerant_kv_store.Prelude.{
  ℕ, zero, suc, ◌+◌, ◌-◌, ◌≤◌, ◌<◌, ◌≡◌, refl, ◌∙◌, sym, ap, true, some, List, [], ◌∷◌, ◌++◌, arith,
  take, drop, length, get_elem?, get_elem?-lt, drop-get_elem?, Bool-cases, inl, inr, if◌then◌else◌,
  append-nil, append_assoc,
}
use fault_tolerant_kv_store.Exec.{returns}
use fault_tolerant_kv_store.Raft.Types.{LogEntry, LogIndex, CommittedEntry}
use fault_tolerant_kv_store.Raft.Platform.{Platform}
use fault_tolerant_kv_store.Raft.Node.{Node, read_log}
use fault_tolerant_kv_store.Raft.Replication.{
  apply_entry, apply_rounds, apply_committed_entries, commit,
}
use fault_tolerant_kv_store.Raft.Safety.Defs.{Inv, Later}

-- The entries for the state machine: of all but the no-ops, with their indexes, in the log's order.
pub applied : LogIndex → List LogEntry → List CommittedEntry
applied i [] = []
applied i (e ∷ es) =
    (if e.is_no_op then [] else record { index = i; term = e.term; command = e.command } ∷ [])
    ++ applied (i + 1) es

apply_entry-applied :
    (i : LogIndex) (e : LogEntry) (es : List LogEntry) (done : List CommittedEntry)
    → apply_entry i e done ++ applied (i + 1) es ≡ done ++ applied i (e ∷ es)
unfolding apply_entry applied
apply_entry-applied i e es done = elim (Bool-cases e.is_no_op) [
  | inl h ↦ rw h refl
  | inr h ↦ rw h (append_assoc done _ _)
]

module _ ⦃p : Platform⦄ where
  pub read_log-eq :
      (i : LogIndex) (n : Node) (e : LogEntry)
      → get_elem? n.log i ≡ some e
      → read_log i n ≡ returns e n
  unfolding read_log
  read_log-eq i n e h = rw (h, read_log) refl

  abbrev after_rounds : ℕ → Node → Node
  after_rounds k n = record n {
    last_applied = n.last_applied + k;
    committed_entries =
        n.committed_entries
        ++ applied (n.last_applied + 1) (take k (drop (n.last_applied + 1) n.log));
  }

  -- One entry more, at the front.
  after_rounds-suc :
      (k : ℕ) (n : Node) (e : LogEntry)
      → get_elem? n.log (n.last_applied + 1) ≡ some e
      → after_rounds k (record n {
        last_applied = n.last_applied + 1;
        committed_entries = apply_entry (n.last_applied + 1) e n.committed_entries;
      })
        ≡ after_rounds (suc k) n
  after_rounds-suc k n e found = λ i. record n { last_applied = sum i; committed_entries = all i }
    where
      sum : n.last_applied + 1 + k ≡ n.last_applied + suc k
      sum = omega arith

      again : suc (n.last_applied + 1) ≡ n.last_applied + 1 + 1
      again = omega arith

      next : drop (n.last_applied + 1) n.log ≡ e ∷ drop (n.last_applied + 1 + 1) n.log
      next =
          drop-get_elem? n.log (n.last_applied + 1) e found ∙ ap (λ (j : ℕ). e ∷ drop j n.log) again

      all :
          apply_entry (n.last_applied + 1) e n.committed_entries
            ++ applied (n.last_applied + 1 + 1) (take k (drop (n.last_applied + 1 + 1) n.log))
          ≡ n.committed_entries
            ++ applied (n.last_applied + 1) (take (suc k) (drop (n.last_applied + 1) n.log))
      all = rw next (apply_entry-applied (n.last_applied + 1) e _ n.committed_entries)

  apply_rounds-eq :
      (k : ℕ) (n : Node)
      → n.last_applied + k < length n.log
      → apply_rounds k n ≡ returns tt (after_rounds k n)
  unfolding apply_rounds applied
  apply_rounds-eq zero n h = λ i. returns tt (record n {
    last_applied = sum i;
    committed_entries = sym (append-nil n.committed_entries) i;
  })
    where
      sum : n.last_applied ≡ n.last_applied + 0
      sum = omega arith
  apply_rounds-eq (suc k) n h =
      go (apply_rounds-eq k) (get_elem?-lt n.log (n.last_applied + 1) (omega arith))
    where
      go :
          ((m : Node)
            → m.last_applied + k < length m.log
            → apply_rounds k m ≡ returns tt (after_rounds k m))
          → (e : LogEntry) × (get_elem? n.log (n.last_applied + 1) ≡ some e)
          → apply_rounds (suc k) n ≡ returns tt (after_rounds (suc k) n)
      go ih (e, found) =
          rw
            (read_log-eq (n.last_applied + 1) (record n { last_applied = n.last_applied + 1 }) e
              found)
            (ih
                (record n {
                  last_applied = n.last_applied + 1;
                  committed_entries = apply_entry (n.last_applied + 1) e n.committed_entries;
                })
                (omega arith)
              ∙ ap (returns tt) (after_rounds-suc k n e found))

  -- The entries behind the applied ones, up to the index, are applied.
  abbrev pub committed_to : LogIndex → Node → Node
  committed_to c n = record n {
    commit_index = c;
    last_applied = c;
    committed_entries =
        n.committed_entries
        ++ applied (n.last_applied + 1)
            (take (c - n.last_applied) (drop (n.last_applied + 1) n.log));
  }

  -- Where the commit index is in the log and not below the last applied index, applying hands over, in
  -- order, the entries between the two that are not no-ops, each with its index.
  pub apply_committed_entries-eq :
      (n : Node)
      → n.last_applied ≤ n.commit_index
      → n.commit_index < length n.log
      → apply_committed_entries n ≡ returns tt (committed_to n.commit_index n)
  unfolding apply_committed_entries
  apply_committed_entries-eq n le lt =
      apply_rounds-eq (n.commit_index - n.last_applied) n (omega arith)
      ∙ ap
          (λ (l : ℕ).
            returns tt
              (record (after_rounds (n.commit_index - n.last_applied) n) { last_applied = l }))
          sum
    where
      sum : n.last_applied + (n.commit_index - n.last_applied) ≡ n.commit_index
      sum = omega arith

  pub commit-eq :
      (c : LogIndex) (n : Node)
      → n.last_applied ≤ c
      → c < length n.log
      → commit (some c) n ≡ returns true (committed_to c n)
  unfolding commit
  commit-eq c n le lt = rw (apply_committed_entries-eq (record n { commit_index = c }) le lt) refl

  pub committed_to-Inv :
      (c : LogIndex) (n : Node) → Inv n → c < length n.log → Inv (committed_to c n)
  committed_to-Inv c n v lt = record {
    self_known = v.self_known;
    peers_known = v.peers_known;
    vote_known = v.vote_known;
    log_valid = v.log_valid;
    committed = lt;
    all_applied = refl;
    in_office = v.in_office;
    leading = v.leading;
  }

  pub committed_to-Later :
      (c : LogIndex) (n : Node) → n.commit_index ≤ c → Later n (committed_to c n)
  committed_to-Later c n le = record {
    same_config = refl;
    same_members = refl;
    term_mono = omega arith;
    vote_kept = λ _ _ h. h;
    commit_mono = le;
    committed_kept = refl;
  }
