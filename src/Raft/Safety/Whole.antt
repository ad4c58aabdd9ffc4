-- ===== src/Raft/Safety/Whole.antt =====
-- The delivery of messages, through `step` and `handle_request`.
use fault_tolerant_kv_store.Prelude.{
  ℕ, ◌≤◌, ◌≡◌, sym, Bool, true, false, Option, none, some, List, ◌++◌, arith, length, ltb, ◌==◌,
  ◌||◌, not, inl, inr, ◌⊎◌, subst, ltb→lt, contains, and_right, or_false_right, take, drop,
}
use fault_tolerant_kv_store.Exec.{
  returned, thrown, Post, Post-if, Post-continue, pure, throw, invalid_argument,
}
use fault_tolerant_kv_store.Raft.Types.{
  NodeId, Term, Message, message_term, Rpc, rpc_term, vote_request, vote_response, append_request,
  append_response,
}
use fault_tolerant_kv_store.Raft.Platform.{Platform}
use fault_tolerant_kv_store.Raft.Node.{Node, is_peer, become_follower}
use fault_tolerant_kv_store.Raft.Calls.{
  dispatch, adopt_term, receive, step, is_request, extract_response, give, take_response, serve,
  handle_request,
}
use fault_tolerant_kv_store.Raft.Safety.Logs.{Ascending}
use fault_tolerant_kv_store.Raft.Safety.Defs.{Inv, Later, Steps}
use fault_tolerant_kv_store.Raft.Safety.Shared.{
  Later-refl, Steps-from, Steps-returns, Steps-continue, Steps-if, become_follower-Post,
}
use fault_tolerant_kv_store.Raft.Safety.Votes.{
  handle_request_vote-Steps, handle_request_vote_response-Steps,
}
use fault_tolerant_kv_store.Raft.Safety.Followers.{handle_append_entries-Steps}
use fault_tolerant_kv_store.Raft.Safety.Replies.{handle_append_entries_response-Steps}

-- The entries of a request rise in their terms, from `previous_log_term` on.
abbrev pub IsRising : Rpc → Type 0
IsRising (append_request r) = Ascending r.previous_log_term r.entries
IsRising _ = Unit

module _ ⦃p : Platform⦄ where
  dispatch-Steps :
      (n : Node) (from : NodeId) (rpc : Rpc)
      → Inv n
      → contains n.members from ≡ true
      → contains n.config.peers from ≡ true
      → rpc_term rpc ≤ n.current_term
      → IsRising rpc
      → Steps n (dispatch from rpc n)
  unfolding dispatch
  dispatch-Steps n from (vote_request r) v c d le h = handle_request_vote-Steps n from r v c
  dispatch-Steps n from (vote_response r) v c d le h = handle_request_vote_response-Steps n from r v
  dispatch-Steps n from (append_request r) v c d le h = handle_append_entries-Steps n from r v le h
  dispatch-Steps n from (append_response r) v c d le h =
      handle_append_entries_response-Steps n from r v d

  adopt_term-Post :
      (t : Term) (n : Node)
      → Inv n
      → Post
          (λ _ m. (Inv m × Later n m) × (t ≤ m.current_term))
          (λ _ m. Inv m × Later n m)
          (adopt_term t n)
  unfolding adopt_term
  adopt_term-Post t n v =
      Post-if (ltb n.current_term t) (become_follower t none) (pure tt) n
        (λ newer. become_follower-Post t none n v (ltb→lt _ _ newer))
        (λ old. returned ((v, Later-refl n), ground arith))

  known_peer :
      (n : Node) (from : NodeId)
      → Inv n
      → is_peer n from ≡ true
      → (contains n.members from ≡ true) × (contains n.config.peers from ≡ true)
  unfolding is_peer
  known_peer n from v h = (and_right _ _ h, other (v.peers_known from (and_right _ _ h)))
    where
      other :
          (from ≡ n.config.node_id) ⊎ (contains n.config.peers from ≡ true)
          → contains n.config.peers from ≡ true
      other (inl same) = absurd (ground arith)
      other (inr peer) = peer

  receive-Steps :
      (n : Node) (m : Message)
      → Inv n
      → is_peer n m.from ≡ true
      → IsRising m.rpc
      → Steps n (receive m n)
  unfolding receive
  receive-Steps n m v peer h =
      Post-continue _ _ _ (adopt_term-Post (message_term m) n v) λ _ k ((w, l), le).
        let (c, d) = known_peer n m.from v peer in
        Steps-from n k _ l (
          Steps-continue k (λ _. pure true) _
            (dispatch-Steps k m.from m.rpc w
              (subst (λ ms. contains ms m.from ≡ true) (sym l.same_members) c)
              (subst (λ c. contains c.peers m.from ≡ true) (sym l.same_config) d) le h)
            λ _ s u _. Steps-returns true s u)

  -- From a state with the invariant, the delivery of any message whose entries rise has no undefined
  -- behaviour: whether it returns or throws, it leaves a later state with the invariant.
  pub step-Steps : (n : Node) (m : Message) → Inv n → IsRising m.rpc → Steps n (step m n)
  unfolding step
  step-Steps n m v h =
      Steps-if (not (m.to == n.config.node_id) || not (is_peer n m.from)) (pure false) (receive m) n
        (λ _. Steps-returns false n v)
        (λ member. receive-Steps n m v (is_true _ (or_false_right _ _ member)) h)
    where
      is_true : (b : Bool) → not b ≡ false → b ≡ true
      is_true b h = ground arith

  give-Steps :
      (n : Node) (first : ℕ) (found : Option (Message × List Message))
      → Inv n
      → Steps n (give first found n)
  unfolding give
  give-Steps n first none v = Steps-returns none n v
  give-Steps n first (some (response, others)) v =
      Steps-returns (some response) (record n { outbox = take first n.outbox ++ others }) v

  serve-Steps : (n : Node) (m : Message) → Inv n → IsRising m.rpc → Steps n (serve m n)
  unfolding serve take_response
  serve-Steps n m v h =
      let first = length n.outbox in
      Steps-continue n _ _ (step-Steps n m v h) λ accepted k w _.
        Steps-if accepted (take_response m first) (pure none) k
          (λ _. give-Steps k first (extract_response m (drop first k.outbox)) w)
          (λ _. Steps-returns none k w)

  -- From a state with the invariant, the request adapter has no undefined behaviour on any message
  -- whose entries rise: whether it returns or throws, it leaves a later state with the invariant.
  pub handle_request-Steps :
      (n : Node) (m : Message) → Inv n → IsRising m.rpc → Steps n (handle_request m n)
  unfolding handle_request
  handle_request-Steps n m v h =
      Steps-if (is_request m.rpc) (serve m)
        (throw (invalid_argument "Raft message must contain a request")) n
        (λ _. serve-Steps n m v h) (λ _. thrown (v, Later-refl n))
