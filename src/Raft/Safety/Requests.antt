-- ===== src/Raft/Safety/Requests.antt =====
-- The requests that a leader sends, seen from the followers that check them.
use fault_tolerant_kv_store.Prelude.{
  ℕ, zero, suc, ◌≡◌, refl, true, false, Option, none, some, List, [], ◌∷◌, arith, drop, get_elem?,
  get_elem?-lt, Map, assign, contains, eq_of_some, subst,
}
use fault_tolerant_kv_store.Exec.{returns}
use fault_tolerant_kv_store.Raft.Types.{
  LogEntry, LogIndex, NodeId, Term, AppendEntriesRequest, append_request, leader,
}
use fault_tolerant_kv_store.Raft.Platform.{Platform}
use fault_tolerant_kv_store.Raft.Node.{Node, send}
use fault_tolerant_kv_store.Raft.Replication.{send_append_entries, next_request_id}
use fault_tolerant_kv_store.Raft.AppendEntries.{any_invalid}
use fault_tolerant_kv_store.Raft.Safety.Defs.{Inv, IsNext}
use fault_tolerant_kv_store.Raft.Safety.Logs.{ValidFrom, ValidLog, Ascending}
use fault_tolerant_kv_store.Raft.Safety.Sends.{replication_request, send_append_entries-eq}
use fault_tolerant_kv_store.Raft.Safety.Whole.{IsRising}

ValidFrom-drop :
    (t : Term) (i : ℕ) (x e : LogEntry) (es : List LogEntry)
    → ValidFrom t x.term es
    → get_elem? (x ∷ es) i ≡ some e
    → ValidFrom t e.term (drop i es)
ValidFrom-drop t zero x e es h at =
    subst (λ (y : LogEntry). ValidFrom t y.term es) (eq_of_some at) h
ValidFrom-drop t (suc i) x e [] h at = cc
ValidFrom-drop t (suc i) x e (y ∷ es) (a, b, c, d) at = ValidFrom-drop t i y e es d at

ValidLog-drop :
    (t : Term) (i : ℕ) (e : LogEntry) (log : List LogEntry)
    → ValidLog t log
    → get_elem? log i ≡ some e
    → ValidFrom t e.term (drop (suc i) log)
ValidLog-drop t i e [] h at = absurd h
ValidLog-drop t i e (s ∷ es) (z, h) at = ValidFrom-drop t i s e es (rw z h) at

ValidFrom-Ascending :
    (t previous : Term) (es : List LogEntry) → ValidFrom t previous es → Ascending previous es
ValidFrom-Ascending t previous [] h = tt
ValidFrom-Ascending t previous (e ∷ es) (a, b, c, d) = (c, ValidFrom-Ascending t e.term es d)

ValidFrom-any_invalid :
    (t previous : Term) (es : List LogEntry) → ValidFrom t previous es → any_invalid t es ≡ false
unfolding any_invalid
ValidFrom-any_invalid t previous [] h = refl
ValidFrom-any_invalid t previous (e ∷ es) (a, b, c, d) =
    ground (arith, ValidFrom-any_invalid t e.term es d)

module _ ⦃p : Platform⦄ where
  -- A request that a follower with this term need not refuse, and whose entries rise.
  pub record IsSound (n : Node) (r : AppendEntriesRequest) : Type 0 where
    pub rising : IsRising (append_request r)
    pub entries_ok : any_invalid r.term r.entries ≡ false
    pub own_term : r.term ≡ n.current_term
    pub own_id : r.leader_id ≡ n.config.node_id
    pub own_commit : r.leader_commit ≡ n.commit_index
    pub follows :
        (e : LogEntry) × (get_elem? n.log r.previous_log_index ≡ some e)
        × (e.term ≡ r.previous_log_term)
        × (r.entries ≡ drop (suc r.previous_log_index) n.log)

  -- A leader with the invariant sends to each of its peers, without throwing, one request: its own
  -- term, identity and commit index, the whole log behind the entry that the request names as the
  -- previous one, with that entry's term, and entries that rise and that no follower refuses.
  pub sent_request_lem :
      (n : Node) (peer : NodeId)
      → Inv n
      → n.state ≡ leader
      → contains n.config.peers peer ≡ true
      → (r : AppendEntriesRequest) × (ids : Map ℕ) × (send_append_entries peer n
          ≡ returns tt (send peer (append_request r) (record n { append_request_id = ids })))
        × IsSound n r
  sent_request_lem n peer v l c = known (n.next_index peer) refl ((v.leading l).next_known peer c)
    where
      known :
          (next : Option LogIndex)
          → n.next_index peer ≡ next
          → IsNext n.log next
          → (r : AppendEntriesRequest) × (ids : Map ℕ) × (send_append_entries peer n
              ≡ returns tt (send peer (append_request r) (record n { append_request_id = ids })))
            × IsSound n r
      known none eq h = absurd h
      known (some zero) eq h = absurd (omega (arith, h.0))
      known (some (suc previous)) eq h =
          let (e, found) = get_elem?-lt n.log previous (omega (arith, h.1)) in
          let valid = ValidLog-drop n.current_term previous e n.log v.log_valid found in
          (
            replication_request n peer previous e,
            assign n.append_request_id peer (next_request_id peer n),
            send_append_entries-eq n peer previous e eq h.1 found,
            record {
              rising = ValidFrom-Ascending n.current_term e.term (drop (suc previous) n.log) valid;
              entries_ok =
                  ValidFrom-any_invalid n.current_term e.term (drop (suc previous) n.log) valid;
              own_term = refl;
              own_id = refl;
              own_commit = refl;
              follows = (e, found, refl, refl);
            },
          )
