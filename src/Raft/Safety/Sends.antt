-- ===== src/Raft/Safety/Sends.antt =====
-- What a leader sends: the entries from the peer's next index on, behind the entry before them.
use fault_tolerant_kv_store.Prelude.{
  ℕ, zero, suc, ◌≤◌, ◌≡◌, refl, ◌∙◌, ap, true, Option, none, some, List, [], ◌∷◌, ◌++◌, arith, drop,
  length, get_elem?, get_elem?-lt, Map, assign, contains, append-nil, append_assoc, le→leb, ==_refl,
  true_or, or_true, sym,
}
use fault_tolerant_kv_store.Exec.{Outcome, returns, returned, for_each}
use fault_tolerant_kv_store.Raft.Types.{
  LogEntry, LogIndex, NodeId, Message, AppendEntriesRequest, append_request, leader,
}
use fault_tolerant_kv_store.Raft.Platform.{Platform}
use fault_tolerant_kv_store.Raft.Node.{Node, log_from, send}
use fault_tolerant_kv_store.Raft.Replication.{
  next_index_at, next_request_id, send_append_entries, broadcast_append_entries,
}
use fault_tolerant_kv_store.Raft.Safety.Defs.{Inv, Steps, IsNext}
use fault_tolerant_kv_store.Raft.Safety.Shared.{Later-refl}
use fault_tolerant_kv_store.Raft.Safety.Commit.{read_log-eq}

module _ ⦃p : Platform⦄ where
  -- The request for a peer whose next index is `previous + 1`.
  abbrev pub replication_request : Node → NodeId → LogIndex → LogEntry → AppendEntriesRequest
  replication_request n peer previous e = record {
    term = n.current_term;
    leader_id = n.config.node_id;
    previous_log_index = previous;
    previous_log_term = e.term;
    entries = drop (suc previous) n.log;
    leader_commit = n.commit_index;
    request_id = next_request_id peer n;
  }

  -- Messages are put into the outbox, and requests counted; nothing else changes.
  abbrev pub Sends : Node → Outcome Node (Unit {0}) → Type 0
  Sends n r =
      (ids : Map ℕ) × (sent : List Message) × (r
        ≡ returns tt (record n { append_request_id = ids; outbox = n.outbox ++ sent }))

  pub Sends-Steps : (n : Node) (r : Outcome Node (Unit {0})) → Inv n → Sends n r → Steps n r
  Sends-Steps n r v (ids, sent, e) = rw e (returned (v, Later-refl n))

  next_index_at-eq :
      (n : Node) (peer : NodeId) (i : LogIndex)
      → n.next_index peer ≡ some i
      → next_index_at peer n ≡ returns i n
  unfolding next_index_at
  next_index_at-eq n peer i h = rw (h, next_index_at) refl

  log_from-eq :
      (i : LogIndex) (n : Node) → i ≤ length n.log → log_from i n ≡ returns (drop i n.log) n
  unfolding log_from
  log_from-eq i n h = rw (le→leb i (length n.log) h) refl

  pub send_append_entries-eq :
      (n : Node) (peer : NodeId) (previous : LogIndex) (e : LogEntry)
      → n.next_index peer ≡ some (suc previous)
      → suc previous ≤ length n.log
      → get_elem? n.log previous ≡ some e
      → send_append_entries peer n
        ≡ returns tt (
            send peer (append_request (replication_request n peer previous e)) (record n {
              append_request_id = assign n.append_request_id peer (next_request_id peer n);
            }))
  unfolding send_append_entries
  send_append_entries-eq n peer previous e next le found =
      rw
        (
          next_index_at-eq n peer (suc previous) next,
          log_from-eq (suc previous) n le,
          read_log-eq previous
              (record n {
                append_request_id = assign n.append_request_id peer (next_request_id peer n);
              })
              e found,
        )
        refl

  pub send_append_entries-Sends :
      (n : Node) (peer : NodeId)
      → IsNext n.log (n.next_index peer)
      → Sends n (send_append_entries peer n)
  unfolding send
  send_append_entries-Sends n peer h = known (n.next_index peer) refl h
    where
      known :
          (next : Option LogIndex)
          → n.next_index peer ≡ next
          → IsNext n.log next
          → Sends n (send_append_entries peer n)
      known none eq h = absurd h
      known (some zero) eq h = absurd (omega (arith, h.0))
      known (some (suc previous)) eq h =
          let (e, found) = get_elem?-lt n.log previous (omega (arith, h.1)) in
          (
            assign n.append_request_id peer (next_request_id peer n),
            record {
              from = n.config.node_id;
              to = peer;
              rpc = append_request (replication_request n peer previous e);
            }
                ∷ [],
            send_append_entries-eq n peer previous e eq h.1 found,
          )

  for_each-Sends :
      (n : Node) (peers : List NodeId)
      → ((k : NodeId) → contains peers k ≡ true → IsNext n.log (n.next_index k))
      → Sends n (for_each peers send_append_entries n)
  unfolding for_each contains
  for_each-Sends n [] h = (
    n.append_request_id,
    [],
    ap (λ (o : List Message). returns tt (record n { outbox = o })) (sym (append-nil n.outbox)),
  )
  for_each-Sends n (k ∷ ks) h =
      both (send_append_entries-Sends n k (h k (true_or _ _ (==_refl k)))) λ ids out.
        for_each-Sends (record n { append_request_id = ids; outbox = out }) ks
          (λ j c. h j (or_true _ _ c))
    where
      both :
          Sends n (send_append_entries k n)
          → ((ids : Map ℕ) (out : List Message)
              → Sends
                  (record n { append_request_id = ids; outbox = out })
                  (for_each ks send_append_entries
                    (record n { append_request_id = ids; outbox = out })))
          → Sends n (for_each (k ∷ ks) send_append_entries n)
      both (ids, sent, e) rest =
          let more = rest ids (n.outbox ++ sent) in
          (
            more.0,
            sent ++ more.1,
            rw e (
                more.2
                ∙ ap
                    (λ (o : List Message).
                      returns tt (record n { append_request_id = more.0; outbox = o }))
                    (append_assoc n.outbox sent more.1)),
          )

  pub broadcast_append_entries-Sends :
      (n : Node) → Inv n → n.state ≡ leader → Sends n (broadcast_append_entries n)
  unfolding broadcast_append_entries
  broadcast_append_entries-Sends n v e = for_each-Sends n n.config.peers (v.leading e).next_known
