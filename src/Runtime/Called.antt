-- ===== src/Runtime/Called.antt =====
-- The calls of a Raft node, and what `send_message` of src/node/node_runtime.cpp does with it.
use fault_tolerant_kv_store.Prelude.{
  ◌≡◌, refl, ap, sym, subst, Option, none, some, Bool, List, [], ◌∷◌,
}
use fault_tolerant_kv_store.Exec.{
  Outcome, returns, throws, undefined, continue, left_by, pure, grpc_error, invalid_argument,
  raft_error, storage_error, out_of_range, logic_error, runtime_error,
}
use fault_tolerant_kv_store.Result.{Result, ok, err}
use fault_tolerant_kv_store.Raft.Types.{
  NodeId, Message, Rpc, vote_request, vote_response, append_request, append_response,
}
use fault_tolerant_kv_store.Raft.Platform.{Platform}
use fault_tolerant_kv_store.Raft.Node.{Node}
use fault_tolerant_kv_store.Raft.Calls.{step}
use fault_tolerant_kv_store.Raft.History
use fault_tolerant_kv_store.Raft.History.{perform, after, run, IsPermitted, ArePermitted}
use fault_tolerant_kv_store.Raft.Safety.Whole.{IsRising}
use fault_tolerant_kv_store.Rpc.ErrorText.{Texts}
use fault_tolerant_kv_store.Rpc.Handler.{conclude}
use fault_tolerant_kv_store.Runtime.Threads.{
  PeerClient, ignore_grpc_error, hand_over, exchange, send_by, send_message,
}

module _ ⦃p : Platform⦄ where
  -- A node that some permitted calls of its operations lead to.
  abbrev pub IsCalled : Node → Node → Type 0
  IsCalled n t = (calls : List History.Call) × ArePermitted n calls × (t ≡ run n calls)

  pub none-IsCalled : (n : Node) → IsCalled n n
  unfolding run
  none-IsCalled n = ([], tt, refl)

  pub after-IsCalled : (n : Node) (c : History.Call) → IsPermitted n c → IsCalled n (after n c)
  unfolding run
  after-IsCalled n c h = (c ∷ [], (h, tt), refl)

  pub left_continue :
      {A B : Type 0} (n : Node) (f : A → B) (r : Outcome Node A)
      → left_by n (continue (λ a. pure (f a)) r) ≡ left_by n r
  left_continue n f (returns a s) = refl
  left_continue n f (throws e s) = refl
  left_continue n f undefined = refl

  left_ignored :
      (n : Node) (r : Outcome Node (Unit {0})) → left_by n (ignore_grpc_error r) ≡ left_by n r
  left_ignored n (returns a s) = refl
  left_ignored n undefined = refl
  left_ignored n (throws (invalid_argument text) s) = refl
  left_ignored n (throws (raft_error text) s) = refl
  left_ignored n (throws (storage_error text) s) = refl
  left_ignored n (throws out_of_range s) = refl
  left_ignored n (throws (logic_error text) s) = refl
  left_ignored n (throws (runtime_error text) s) = refl
  left_ignored n (throws (grpc_error operation status attempts) s) = refl

  hand_over-IsCalled :
      {R : Type 0} (n : Node) (kind : R → Rpc) (from to : NodeId) (r : Result R)
      → ((response : R) → IsRising (kind response))
      → IsCalled n (left_by n (hand_over kind from to r n))
  unfolding step after
  hand_over-IsCalled n kind from to (err e) h = none-IsCalled n
  hand_over-IsCalled n kind from to (ok response) h =
      after-IsCalled n (History.steps (record { from = from; to = to; rpc = kind response }))
        (h response)

  pub conclude-left :
      {R : Type 0} ⦃texts : Texts⦄ (late : Bool) (blank : R) (n : Node) (r : Outcome Node R)
      → left_by n (conclude late blank r) ≡ left_by n r
  unfolding conclude
  conclude-left late blank n (returns a s) = refl
  conclude-left late blank n (throws e s) = refl
  conclude-left late blank n undefined = refl

  exchange-IsCalled :
      (n : Node) (id : NodeId) (client : PeerClient) (to : NodeId) (rpc : Rpc)
      → IsCalled n (left_by n (exchange id client to rpc n))
  unfolding exchange
  exchange-IsCalled n id client to (vote_request request) =
      hand_over-IsCalled n vote_response to id (client.request_vote id request) λ _. tt
  exchange-IsCalled n id client to (append_request request) =
      hand_over-IsCalled n append_response to id (client.append_entries id request) λ _. tt
  exchange-IsCalled n id client to (vote_response r) = none-IsCalled n
  exchange-IsCalled n id client to (append_response r) = none-IsCalled n

  send_by-IsCalled :
      (n : Node) (id : NodeId) (o : Option PeerClient) (message : Message)
      → IsCalled n (left_by n (send_by id o message n))
  send_by-IsCalled n id none message = none-IsCalled n
  send_by-IsCalled n id (some client) message =
      subst (IsCalled n) (sym (left_ignored n (exchange id client message.to message.rpc n)))
        (exchange-IsCalled n id client message.to message.rpc)

  pub send_message-IsCalled :
      (n t : Node) (id : NodeId) (clients : NodeId → Option PeerClient) (message : Message)
      → send_message id clients message n ≡ returns tt t
      → IsCalled n t
  unfolding send_message
  send_message-IsCalled n t id clients message e =
      subst (IsCalled n) (ap (left_by n) e) (send_by-IsCalled n id (clients message.to) message)
