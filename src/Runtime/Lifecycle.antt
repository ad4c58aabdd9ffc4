-- ===== src/Runtime/Lifecycle.antt =====
-- `NodeRuntime` of src/node/node_runtime.cpp and src/node/node_runtime.h: its constructor, `start` and
-- `stop`, and the constructors of `FilePersistence` in src/storage/kv_store.cpp and of
-- `DurableRaftStorage`. File system paths, channels and threads are parameters.
use Prim.Native.String.{String}
use fault_tolerant_kv_store.Prelude.{
  ℕ, zero, suc, Option, none, some, Bool, true, false, List, [], ◌∷◌, length, if◌then◌else◌,
}
use fault_tolerant_kv_store.Prelude.Int.{ℤ, pos}
use fault_tolerant_kv_store.Exec.{
  Exception, Outcome, returns, throws, undefined, invalid_argument, logic_error,
}
use fault_tolerant_kv_store.Result.{Result, ok, err, ◌>>=◌}
use fault_tolerant_kv_store.Bytes.{Bytes}
use fault_tolerant_kv_store.Raft.Types.{NodeId, Message}
use fault_tolerant_kv_store.Raft.Platform.{Platform}
use fault_tolerant_kv_store.Raft.Node.{Node}
use fault_tolerant_kv_store.Raft.Construction.{construct}
use fault_tolerant_kv_store.Storage.KvStore.{Persistence, KvStore, open_store}
use fault_tolerant_kv_store.Storage.Interface.{durable_store}
use fault_tolerant_kv_store.Rpc.Retry.{GrpcClientOptions, Network}
use fault_tolerant_kv_store.Rpc.Client.{Channel, GrpcClient, client_for}
use fault_tolerant_kv_store.Rpc.Server.{Transport, GrpcServer, open_server, start, shutdown}
use fault_tolerant_kv_store.Runtime.RaftStorage.{load_state, save_state}
use fault_tolerant_kv_store.Runtime.Configuration.{Peers, NodeRuntimeConfig, raft_config}

-- The random engine and the distribution of the C++ library.
pub record Randomness : Type 1 where
  pub Random : Type 0
  pub seed : ℕ → Random
  pub uniform : ℤ → ℤ → Random → ℤ × Random

-- A node's surroundings with `DurableRaftStorage` for its storage.
abbrev pub durable_platform : ⦃persistence : Persistence⦄ ⦃randomness : Randomness⦄ → Platform
durable_platform ⦃randomness = r⦄ = record {
  Store = KvStore;
  load = load_state;
  save = save_state;
  Random = r.Random;
  seed = r.seed;
  uniform = r.uniform;
}

abbrev pub client_options : GrpcClientOptions
client_options = record {
  timeout = pos 150;
  max_attempts = 2;
  initial_backoff = pos 10;
  maximum_backoff = pos 25;
}

module _ ⦃persistence : Persistence⦄ ⦃randomness : Randomness⦄ ⦃net : Network⦄
    ⦃transport : Transport⦄ where
  -- What the constructor finds: the paths that `operator/` makes, the durable data behind a path, the
  -- channels that `grpc::CreateChannel` makes, and gRPC before the server is started.
  pub record Machine : Type 0 where
    pub join_path : Bytes → String → Bytes
    pub file : Bytes → persistence.Durable
    pub create_channel : Bytes → Option Channel
    pub transport_world : transport.World

  pub record NodeRuntime : Type 0 where
    pub config : NodeRuntimeConfig
    pub raft_node : Node ⦃p = durable_platform⦄
    pub key_value_store : KvStore
    pub server : GrpcServer
    pub peer_clients : List (NodeId × GrpcClient)
    pub running : Bool
    pub message_queue : List Message
    pub ticker : Bool
    pub workers : ℕ

  -- The constructor of `FilePersistence`.
  abbrev pub file_at : (Bytes → persistence.Durable) → Bytes → Result persistence.Durable
  file_at file [] = err (invalid_argument "storage file path must not be empty")
  file_at file (c ∷ cs) = ok (file (c ∷ cs))

  -- A `KvStore` over a file; it is also what the constructor of `DurableRaftStorage` makes.
  unfoldable pub store_at : Machine → Bytes → String → Result KvStore
  unfolding open_store
  store_at machine directory name =
      file_at machine.file (machine.join_path directory name) >>= λ durable.
      open_store (some durable)

  unfoldable pub make_clients :
      (Bytes → Option Channel) → Peers → Result (List (NodeId × GrpcClient))
  unfolding client_for
  make_clients create [] = ok []
  make_clients create ((id, endpoint) ∷ peers) = do
    client ← client_for create endpoint client_options
    clients ← make_clients create peers
    ok ((id, client) ∷ clients)

  unfoldable pub construct_runtime : Machine → NodeRuntimeConfig → Result NodeRuntime
  unfolding store_at raft_config construct open_server make_clients
  construct_runtime machine config = do
    raft_storage ← store_at machine config.data_directory "raft.snapshot"
    raft_node ← construct ⦃p = durable_platform⦄ (raft_config config) (some raft_storage)
    store ← store_at machine config.data_directory "kv.snapshot"
    server ←
        open_server ⦃p = durable_platform⦄ config.listen_address (some durable_store)
          (some raft_node) machine.transport_world
    clients ← make_clients machine.create_channel config.peers
    ok (record {
      config = config;
      raft_node = raft_node;
      key_value_store = store;
      server = server;
      peer_clients = clients;
      running = false;
      message_queue = [];
      ticker = false;
      workers = 0;
    })

  -- What making the threads throws, and how many workers miss the notification of the handler: it does
  -- not hold the mutex, and a worker that has tested `running_` but does not wait yet is not woken.
  pub record Failure : Type 0 where
    pub thrown : Exception
    pub asleep : ℕ

  -- A start that returns or throws, or one that waits forever for a worker, with the state at the wait.
  pub data Started : Type 0 where
    ended : Outcome NodeRuntime (Unit {0}) → Started
    waits : NodeRuntime → Started

  -- The handler of an exception in `start`: the ticker and the workers are joined, as far as they end,
  -- and then the server is shut down. `left` is what is in the queue when no thread runs.
  abbrev pub give_up : Exception → ℕ → List Message → GrpcServer → NodeRuntime → Started
  give_up e zero left server r = ended (
      throws e (record r {
        running = false;
        message_queue = left;
        ticker = false;
        workers = 0;
        server = shutdown server;
      }))
  give_up e (suc asleep) left server r = waits (record r {
    running = false;
    message_queue = left;
    ticker = false;
    workers = suc asleep;
    server = server;
  })

  -- The threads, once the server is started; where it is not, there is no thread to wait for.
  abbrev pub with_server :
      Option Failure → List Message → Outcome GrpcServer (Unit {0}) → NodeRuntime → Started
  with_server failure left undefined r = ended undefined
  with_server failure left (throws e server) r = give_up e 0 r.message_queue server r
  with_server (some f) left (returns _ server) r = give_up f.thrown f.asleep left server r
  with_server none left (returns _ server) r = ended (
      returns tt (record r {
        running = true;
        server = server;
        ticker = true;
        workers = length r.config.peers;
      }))

  unfoldable pub start_runtime : Option Failure → List Message → NodeRuntime → Started
  unfolding start shutdown
  start_runtime failure left r =
      if r.running
      then ended (throws (logic_error "node runtime is already running") r)
      else with_server failure left (start r.server) r

  -- Also the destructor. The queue is cleared, but what the ticker puts there after the last worker
  -- has gone is `left`.
  unfoldable pub stop : List Message → NodeRuntime → NodeRuntime
  unfolding shutdown
  stop left r =
      if r.running
      then record r {
        running = false;
        message_queue = left;
        ticker = false;
        workers = 0;
        server = shutdown r.server;
      }
      else r
