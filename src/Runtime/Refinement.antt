-- ===== src/Runtime/Refinement.antt =====
-- The threads of `NodeRuntime` in src/node/node_runtime.cpp as callers of the Raft node.
use fault_tolerant_kv_store.Prelude.{
  ◌+◌, ◌<◌, ◌^◌, ◌≡◌, refl, ap, sym, ◌∙◌, subst, Option, none, some, Bool, true, false, List,
}
use fault_tolerant_kv_store.Exec.{
  Exec, Outcome, returns, throws, undefined, continue, left_by, pure,
}
use fault_tolerant_kv_store.Raft.Types.{
  NodeId, Message, Rpc, vote_request, vote_response, append_request, append_response,
}
use fault_tolerant_kv_store.Raft.Platform.{Platform}
use fault_tolerant_kv_store.Raft.Node.{Node}
use fault_tolerant_kv_store.Raft.Calls.{take_messages, handle_request}
use fault_tolerant_kv_store.Raft.History
use fault_tolerant_kv_store.Raft.History.{perform, after, run-Inv}
use fault_tolerant_kv_store.Raft.Safety.Whole.{IsRising}
use fault_tolerant_kv_store.Raft.Safety.Defs.{Inv, Later}
use fault_tolerant_kv_store.Raft.Safety.Shared.{Later-refl, Later-trans}
use fault_tolerant_kv_store.Rpc.Wire
use fault_tolerant_kv_store.Rpc.Convert.{
  from_wire_vote, from_wire_append, to_wire_voted, to_wire_appended,
}
use fault_tolerant_kv_store.Rpc.ErrorText.{Texts}
use fault_tolerant_kv_store.Rpc.Handler.{run_handler}
use fault_tolerant_kv_store.Rpc.RaftService.{
  voted, take_vote, appended, take_append, local_vote, local_append, serve_vote, serve_append,
}
use fault_tolerant_kv_store.Runtime.Threads.{
  Process, Event, Step, Run, stays, goes, wakes, ticks, takes_messages, enqueues, ticker_exits,
  pops_message, sends, worker_exits, answers_vote, answers_append, stops, clears,
}
use fault_tolerant_kv_store.Runtime.Called.{
  IsCalled, none-IsCalled, after-IsCalled, left_continue, conclude-left, send_message-IsCalled,
}

module _ ⦃p : Platform⦄ where
  left_taken :
      {A B : Type 0} (n : Node) (f : A → Exec Node B) (r : Outcome Node A)
      → ((a : A) (s : Node) → left_by n (f a s) ≡ s)
      → left_by n (continue f r) ≡ left_by n r
  left_taken n f (returns a s) h = h a s
  left_taken n f (throws e s) h = refl
  left_taken n f undefined h = refl

  voted-left : (n : Node) (o : Option Message) (s : Node) → left_by n (take_vote o s) ≡ s
  voted-left n none s = refl
  voted-left n (some message) s = by_kind message.rpc
    where
      by_kind : (rpc : Rpc) → left_by n (voted rpc s) ≡ s
      by_kind (vote_request r) = refl
      by_kind (vote_response r) = refl
      by_kind (append_request r) = refl
      by_kind (append_response r) = refl

  appended-left : (n : Node) (o : Option Message) (s : Node) → left_by n (take_append o s) ≡ s
  appended-left n none s = refl
  appended-left n (some message) s = by_kind message.rpc
    where
      by_kind : (rpc : Rpc) → left_by n (appended rpc s) ≡ s
      by_kind (vote_request r) = refl
      by_kind (vote_response r) = refl
      by_kind (append_request r) = refl
      by_kind (append_response r) = refl

  request-IsCalled :
      {B : Type 0} (n : Node) (message : Message) (f : Option Message → Exec Node B)
      → ((o : Option Message) (s : Node) → left_by n (f o s) ≡ s)
      → IsRising message.rpc
      → IsCalled n (left_by n (continue f (handle_request message n)))
  unfolding after perform
  request-IsCalled n message f h rising =
      subst (IsCalled n)
        (left_continue n (λ _. tt) (handle_request message n)
          ∙ sym (left_taken n f (handle_request message n) h))
        (after-IsCalled n (History.requests message) rising)

  handler-IsCalled :
      {A R : Type 0} ⦃texts : Texts⦄ (n : Node) (early late : Bool) (blank : R) (write : A → R)
      (operation : Exec Node A)
      → IsCalled n (left_by n (operation n))
      → IsCalled n (
          left_by n
            (run_handler early late blank (λ s. continue (λ a. pure (write a)) (operation s)) n))
  unfolding run_handler
  handler-IsCalled n true late blank write operation h = none-IsCalled n
  handler-IsCalled n false late blank write operation h =
      subst (IsCalled n)
        (sym (
          conclude-left late blank n (continue (λ a. pure (write a)) (operation n))
          ∙ left_continue n write (operation n)))
        h

  module _ ⦃texts : Texts⦄ where
    serve_vote-IsCalled :
        (n : Node) (early late : Bool) (request : Wire.RequestVoteRequest)
        → IsCalled n (left_by n (serve_vote early late request n))
    unfolding serve_vote local_vote from_wire_vote
    serve_vote-IsCalled n early late request =
        handler-IsCalled n early late Wire.cleared_vote to_wire_voted
          (local_vote (from_wire_vote request))
          (request-IsCalled n
            (record {
              from = request.candidate_id;
              to = n.config.node_id;
              rpc = vote_request (from_wire_vote request);
            })
            take_vote (voted-left n) tt)

    serve_append-IsCalled :
        (n : Node) (early late : Bool) (request : Wire.AppendEntriesRequest)
        → IsRising (append_request (from_wire_append request))
        → IsCalled n (left_by n (serve_append early late request n))
    unfolding serve_append local_append from_wire_append
    serve_append-IsCalled n early late request rising =
        handler-IsCalled n early late Wire.cleared_append to_wire_appended
          (local_append (from_wire_append request))
          (request-IsCalled n
            (record {
              from = request.leader_id;
              to = n.config.node_id;
              rpc = append_request (from_wire_append request);
            })
            take_append (appended-left n) rising)

    module _ {id : NodeId} where
      -- A tick is not in the last term that 64 bits hold, and the entries of a request rise.
      abbrev pub IsSafe : {s t : Process} {e : Event} → Step id s e t → Type 0
      IsSafe {s} (ticks elapsed n a h) = s.node.current_term + 1 < 2 ^ 64
      IsSafe (answers_append early late request) =
          IsRising (append_request (from_wire_append request))
      IsSafe _ = Unit {0}

      abbrev pub AreSafe : {s t : Process} {es : List Event} → Run id s es t → Type 0
      AreSafe stays = Unit {0}
      AreSafe (goes h run) = IsSafe h × AreSafe run

      Step-IsCalled :
          {s t : Process} {e : Event} (h : Step id s e t) → IsSafe h → IsCalled s.node t.node
      unfolding after perform
      Step-IsCalled {s} (wakes a r) safe = none-IsCalled s.node
      Step-IsCalled {s} (ticks elapsed n a h) safe =
          subst (IsCalled s.node) (ap (left_by s.node) h)
            (after-IsCalled s.node (History.ticks elapsed) safe)
      Step-IsCalled {s} (takes_messages messages n a h) safe =
          subst (IsCalled s.node)
            (left_continue s.node (λ _. tt) (take_messages s.node) ∙ ap (left_by s.node) h)
            (after-IsCalled s.node History.drains_messages tt)
      Step-IsCalled {s} (enqueues messages a) safe = none-IsCalled s.node
      Step-IsCalled {s} (ticker_exits a r) safe = none-IsCalled s.node
      Step-IsCalled {s} (pops_message k message rest i q) safe = none-IsCalled s.node
      Step-IsCalled {s} (sends before after message clients n b h) safe =
          send_message-IsCalled s.node n id clients message h
      Step-IsCalled {s} (worker_exits k i r q) safe = none-IsCalled s.node
      Step-IsCalled {s} (answers_vote early late request) safe =
          serve_vote-IsCalled s.node early late request
      Step-IsCalled {s} (answers_append early late request) safe =
          serve_append-IsCalled s.node early late request safe
      Step-IsCalled {s} stops safe = none-IsCalled s.node
      Step-IsCalled {s} (clears r) safe = none-IsCalled s.node

      -- However the threads of a process interleave, and whatever its peers answer and ask: if no timer
      -- runs in the last term that 64 bits hold and all requests for entries carry entries that rise in
      -- their terms, the node keeps its invariant, and is a later state of the one that it was.
      pub Run-Inv :
          {s t : Process} {es : List Event} (r : Run id s es t)
          → AreSafe r
          → Inv s.node
          → Inv t.node × Later s.node t.node
      Run-Inv {s} stays safe v = (v, Later-refl s.node)
      Run-Inv {s} {t = u} (goes {t} h run) (safe, others) v =
          let (calls, permitted, same) = Step-IsCalled h safe in
          let (w, l) =
            subst (λ n. Inv n × Later s.node n) (sym same) (run-Inv s.node calls v permitted) in
          let (x, k) = Run-Inv run others w in (x, Later-trans s.node t.node u.node l k)
