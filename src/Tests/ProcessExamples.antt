-- ===== src/Tests/ProcessExamples.antt =====
-- The theorems on the process at a run of its threads.
use Prim.Native.String.{String}
use fault_tolerant_kv_store.Prelude.{
  ℕ, ◌+◌, ◌≡◌, refl, none, some, List, [], ◌∷◌, ◌++◌, true, false, map, arith,
}
use fault_tolerant_kv_store.Prelude.Int.{pos}
use fault_tolerant_kv_store.Exec.{left_by, returns, throws, logic_error, runtime_error}
use fault_tolerant_kv_store.Result.{ok}
use fault_tolerant_kv_store.Bytes.{Bytes}
use fault_tolerant_kv_store.Raft.Types.{Message, vote_request, NodeId, initial_state}
use fault_tolerant_kv_store.Raft.Node.{Node}
use fault_tolerant_kv_store.Raft.Construction.{construct, fresh_node}
use fault_tolerant_kv_store.Raft.Calls.{tick, take_messages}
use fault_tolerant_kv_store.Raft.Memory.{save_memory}
use fault_tolerant_kv_store.Status.{Status, unavailable}
use fault_tolerant_kv_store.Storage.KvStore.{Persistence, KvStore}
use fault_tolerant_kv_store.Storage.Entries.{find}
use fault_tolerant_kv_store.Storage.File.{load}
use fault_tolerant_kv_store.Storage.Durable.{FileState, no_faults, file_persistence}
use fault_tolerant_kv_store.Rpc.Wire
use fault_tolerant_kv_store.Rpc.Retry.{Network}
use fault_tolerant_kv_store.Rpc.Client.{Channel}
use fault_tolerant_kv_store.Rpc.Server.{Transport}
use fault_tolerant_kv_store.Rpc.ErrorText.{Texts}
use fault_tolerant_kv_store.Runtime.Configuration.{raft_config, peer_ids}
use fault_tolerant_kv_store.Runtime.RaftStorage.{load_state}
use fault_tolerant_kv_store.Runtime.Threads.{
  asleep, Process, Event, other, takes, pops, Run, stays, goes, wakes, ticks, takes_messages,
  enqueues, pops_message,
}
use fault_tolerant_kv_store.Runtime.Interleaving.{waiting, taken, gone, Run-order}
use fault_tolerant_kv_store.Runtime.Refinement.{Run-Inv}
use fault_tolerant_kv_store.Raft.Safety.Defs.{Inv, Later}
use fault_tolerant_kv_store.Runtime.Lifecycle.{
  Randomness, durable_platform, Machine, NodeRuntime, store_at, construct_runtime, start_runtime,
  stop, Failure, ended,
}
use fault_tolerant_kv_store.Runtime.LifecycleLaws.{IsDown, IsStart, lifecycle}
use fault_tolerant_kv_store.Runtime.Startup.{construct_runtime-from_environment}
use fault_tolerant_kv_store.Tests.Cluster.{platform, node, node-Inv, least}
use fault_tolerant_kv_store.Tests.ConfigExamples.{environment, config, config_read}

instance abbrev texts : Texts
texts = record { out_of_range_text = "out of range"; to_string = λ attempts. "1" }

abbrev vote_for : NodeId → Message
vote_for peer = record {
  from = 1;
  to = peer;
  rpc = vote_request (record { term = 1; candidate_id = 1; last_log_index = 0; last_log_term = 0 });
}

abbrev candidate_node : Node
candidate_node = left_by node (tick (pos 150) node)

abbrev drained_node : Node
drained_node = left_by candidate_node (take_messages candidate_node)

elected : tick (pos 150) node ≡ returns tt candidate_node
unfolding tick fresh_node save_memory
elected = refl

drained : take_messages candidate_node ≡ returns (vote_for 2 ∷ vote_for 3 ∷ []) drained_node
unfolding tick take_messages fresh_node save_memory
drained = refl

abbrev first_state : Process
first_state = record {
  node = node;
  message_queue = [];
  running = true;
  ticker = asleep;
  idle = 2;
  busy = [];
}

abbrev last_state : Process
last_state = record {
  node = drained_node;
  message_queue = vote_for 3 ∷ [];
  running = true;
  ticker = asleep;
  idle = 1;
  busy = vote_for 2 ∷ [];
}

abbrev events : List Event
events = other ∷ other ∷ takes (vote_for 2 ∷ vote_for 3 ∷ []) ∷ other ∷ pops (vote_for 2) ∷ []

-- The timer runs out, and a worker takes the first request for a vote.
election : Run 1 first_state events last_state
election = goes (wakes refl refl) (
    goes (ticks (pos 150) candidate_node refl elected) (
      goes (takes_messages (vote_for 2 ∷ vote_for 3 ∷ []) drained_node refl drained) (
        goes (enqueues (vote_for 2 ∷ vote_for 3 ∷ []) refl)
          (goes (pops_message 1 (vote_for 2) (vote_for 3 ∷ []) refl refl) stays))))

Run-order_example : waiting first_state ++ taken events ≡ gone events ++ waiting last_state
Run-order_example = Run-order election

Run-Inv_example : Inv drained_node × Later node drained_node
unfolding election fresh_node
Run-Inv_example = Run-Inv election (tt, (omega arith, (tt, (tt, (tt, tt))))) node-Inv

instance abbrev persistence : Persistence
persistence = file_persistence

instance abbrev randomness : Randomness
randomness = record { Random = ℕ; seed = λ s. s; uniform = least }

instance abbrev net : Network
net = record { World = Unit {0}; sleep = λ time world. world }

-- A transport that always chooses the port 50051.
instance abbrev transport : Transport
transport = record {
  Handle = Unit {0};
  World = ℕ;
  build_and_start = λ address servers. ((some tt, 50051), servers + 1);
  stop = λ handle servers. servers;
}

abbrev gone_status : Status
gone_status = record { code = unavailable; message = "" }

abbrev channel : Channel
channel = record {
  call_get = λ q time world. ((gone_status, Wire.cleared_get), world);
  call_put = λ q time world. ((gone_status, Wire.put_done), world);
  call_delete = λ q time world. ((gone_status, Wire.cleared_delete), world);
  call_vote = λ q time world. ((gone_status, Wire.cleared_vote), world);
  call_append = λ q time world. ((gone_status, Wire.cleared_append), world);
  call_status = λ q time world. ((gone_status, Wire.cleared_status), world);
}

abbrev empty_disk : Bytes → FileState
empty_disk path = record {
  disk = record { file = none; temporary = none };
  faults = λ _. no_faults;
}

abbrev machine : Machine
machine = record {
  join_path = λ directory name. directory ++ (b'/' ∷ []);
  file = empty_disk;
  create_channel = λ target. some channel;
  transport_world = 0;
}

abbrev empty_store : KvStore
empty_store = record { durable = empty_disk []; entries = [] }

abbrev new_node : Node ⦃p = durable_platform⦄
new_node = fresh_node ⦃p = durable_platform⦄ (raft_config config) empty_store initial_state

store_opened : (name : String) → store_at machine config.data_directory name ≡ ok empty_store
unfolding store_at load
store_opened name = refl

node_made : construct ⦃p = durable_platform⦄ (raft_config config) (some empty_store) ≡ ok new_node
unfolding construct load_state raft_config find
node_made = refl

abbrev new_runtime : NodeRuntime
new_runtime = record {
  config = config;
  raft_node = new_node;
  key_value_store = empty_store;
  server = record { listen_address = b'h' ∷ []; server = none; bound_port = 0; world = 0 };
  peer_clients = [];
  running = false;
  message_queue = [];
  ticker = false;
  workers = 0;
}

construct_runtime-from_environment_example :
    (r : NodeRuntime) × (construct_runtime machine config ≡ ok r)
    × (r.raft_node ≡ new_node)
    × (r.key_value_store ≡ empty_store)
    × (map (λ p. p.0) r.peer_clients ≡ 2 ∷ [])
    × IsDown r
unfolding peer_ids
construct_runtime-from_environment_example =
    construct_runtime-from_environment environment machine config empty_store empty_store new_node
      config_read (store_opened "raft.snapshot") node_made (store_opened "kv.snapshot")
      (λ target. (channel, refl))

abbrev up_runtime : NodeRuntime
up_runtime = record new_runtime {
  server = record { listen_address = b'h' ∷ []; server = some tt; bound_port = 50051; world = 1 };
  running = true;
  ticker = true;
  workers = 1;
}

-- Making a thread fails, and one worker misses the notification.
abbrev thread_failure : Failure
thread_failure = record { thrown = runtime_error "Resource unavailable"; asleep = 1 }

lifecycle_example :
    (start_runtime (some thread_failure) [] up_runtime
      ≡ ended (throws (logic_error "node runtime is already running") up_runtime))
    × IsDown (stop [] up_runtime)
    × IsStart (some thread_failure) new_runtime (start_runtime (some thread_failure) [] new_runtime)
    × (stop [] new_runtime ≡ new_runtime)
lifecycle_example =
    lifecycle up_runtime new_runtime (some thread_failure) [] (refl, refl, refl, refl)
      (refl, refl, refl, refl)
