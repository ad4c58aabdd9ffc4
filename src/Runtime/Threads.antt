-- ===== src/Runtime/Threads.antt =====
-- `NodeRuntime` of src/node/node_runtime.cpp: what its threads do, as steps that interleave. A step is
-- what a thread does while it holds a mutex, or does alone.
use fault_tolerant_kv_store.Prelude.{
  ℕ, suc, ◌+◌, ◌≡◌, Option, none, some, Bool, true, false, List, [], ◌∷◌, ◌++◌,
}
use fault_tolerant_kv_store.Prelude.Int.{ℤ}
use fault_tolerant_kv_store.Exec.{
  Exec, Outcome, returns, throws, ◌>>=◌, pure, throw, left_by, grpc_error,
}
use fault_tolerant_kv_store.Result.{Result, ok, err}
use fault_tolerant_kv_store.Raft.Types.{
  NodeId, RequestVoteRequest, RequestVoteResponse, AppendEntriesRequest, AppendEntriesResponse,
  Message, Rpc, vote_request, vote_response, append_request, append_response,
}
use fault_tolerant_kv_store.Raft.Platform.{Platform}
use fault_tolerant_kv_store.Raft.Node.{Node}
use fault_tolerant_kv_store.Raft.Calls.{tick, step, take_messages}
use fault_tolerant_kv_store.Rpc.Wire
use fault_tolerant_kv_store.Rpc.ErrorText.{Texts}
use fault_tolerant_kv_store.Rpc.RaftService.{serve_vote, serve_append}

-- What the calls of a peer's client come to; they do not touch the node.
pub record PeerClient : Type 0 where
  pub request_vote : NodeId → RequestVoteRequest → Result RequestVoteResponse
  pub append_entries : NodeId → AppendEntriesRequest → Result AppendEntriesResponse

-- Where the ticker thread is: in its sleep, behind its test of `running_`, behind `tick`, with the
-- messages it has taken, or at its end.
pub data Ticker : Type 0 where
  asleep awake has_ticked exited : Ticker
  holding : List Message → Ticker

module _ ⦃p : Platform⦄ where
  -- `catch (const rpc::GrpcError&)`
  abbrev pub ignore_grpc_error : Outcome Node (Unit {0}) → Outcome Node (Unit {0})
  ignore_grpc_error (throws (grpc_error operation status attempts) n) = returns tt n
  ignore_grpc_error r = r

  -- The node is handed the response, if there is one.
  abbrev pub hand_over :
      {R : Type 0} → (R → Rpc) → NodeId → NodeId → Result R → Exec Node (Unit {0})
  hand_over kind from to (err e) = throw e
  hand_over kind from to (ok response) = do
    _ ← step (record { from = from; to = to; rpc = kind response })
    pure tt

  -- Responses that are left in the queue are dropped.
  unfoldable pub exchange : NodeId → PeerClient → NodeId → Rpc → Exec Node (Unit {0})
  exchange id client to (vote_request request) =
      hand_over vote_response to id (client.request_vote id request)
  exchange id client to (append_request request) =
      hand_over append_response to id (client.append_entries id request)
  exchange id client to _ = pure tt

  abbrev pub send_by : NodeId → Option PeerClient → Message → Exec Node (Unit {0})
  send_by id none message n = returns tt n
  send_by id (some client) message n =
      ignore_grpc_error (exchange id client message.to message.rpc n)

  unfoldable pub send_message :
      NodeId → (NodeId → Option PeerClient) → Message → Exec Node (Unit {0})
  unfolding exchange
  send_message id peer_clients message = send_by id (peer_clients message.to) message

  -- The state that the threads share, with the ticker, the number of the workers that wait, and the
  -- messages that the other workers are sending.
  pub record Process : Type 0 where
    pub node : Node
    pub message_queue : List Message
    pub running : Bool
    pub ticker : Ticker
    pub idle : ℕ
    pub busy : List Message

  -- What the process does with messages in a step.
  pub data Event : Type 0 where
    takes : List Message → Event
    pops : Message → Event
    drops : List Message → Event
    other : Event

  -- A call that throws in a thread of the process ends it, and has no step. A handler whose behaviour is
  -- undefined, which the invariant of the node excludes, leaves the node as it is.
  pub data Step ⦃texts : Texts⦄ (id : NodeId) : Process → Event → Process → Type 0 where
    wakes :
        {s : Process}
        → s.ticker ≡ asleep
        → s.running ≡ true
        → Step id s other (record s { ticker = awake })
    ticks :
        {s : Process} (elapsed : ℤ) (n : Node)
        → s.ticker ≡ awake
        → tick elapsed s.node ≡ returns tt n
        → Step id s other (record s { node = n; ticker = has_ticked })
    takes_messages :
        {s : Process} (messages : List Message) (n : Node)
        → s.ticker ≡ has_ticked
        → take_messages s.node ≡ returns messages n
        → Step id s (takes messages) (record s { node = n; ticker = holding messages })
    enqueues :
        {s : Process} (messages : List Message)
        → s.ticker ≡ holding messages
        → Step id s other
            (record s { message_queue = s.message_queue ++ messages; ticker = asleep })
    ticker_exits :
        {s : Process}
        → s.ticker ≡ asleep
        → s.running ≡ false
        → Step id s other (record s { ticker = exited })
    pops_message :
        {s : Process} (k : ℕ) (message : Message) (rest : List Message)
        → s.idle ≡ suc k
        → s.message_queue ≡ message ∷ rest
        → Step id s
            (pops message)
            (record s { message_queue = rest; idle = k; busy = message ∷ s.busy })
    sends :
        {s : Process} (before after : List Message) (message : Message)
        (peer_clients : NodeId → Option PeerClient) (n : Node)
        → s.busy ≡ before ++ (message ∷ after)
        → send_message id peer_clients message s.node ≡ returns tt n
        → Step id s other (record s { node = n; idle = s.idle + 1; busy = before ++ after })
    worker_exits :
        {s : Process} (k : ℕ)
        → s.idle ≡ suc k
        → s.running ≡ false
        → s.message_queue ≡ []
        → Step id s other (record s { idle = k })
    answers_vote :
        {s : Process} (early late : Bool) (request : Wire.RequestVoteRequest)
        → Step id s other
            (record s { node = left_by s.node (serve_vote early late request s.node) })
    answers_append :
        {s : Process} (early late : Bool) (request : Wire.AppendEntriesRequest)
        → Step id s other
            (record s { node = left_by s.node (serve_append early late request s.node) })
    stops : {s : Process} → Step id s other (record s { running = false })
    clears :
        {s : Process}
        → s.running ≡ false
        → Step id s (drops s.message_queue) (record s { message_queue = [] })

  pub data Run ⦃texts : Texts⦄ (id : NodeId) : Process → List Event → Process → Type 0 where
    stays : {s : Process} → Run id s [] s
    goes :
        {s t u : Process} {e : Event} {es : List Event}
        → Step id s e t
        → Run id t es u
        → Run id s (e ∷ es) u
