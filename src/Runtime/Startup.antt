-- ===== src/Runtime/Startup.antt =====
-- The constructor of `NodeRuntime` in src/node/node_runtime.cpp on a configuration from the environment.
use fault_tolerant_kv_store.Prelude.{◌≡◌, refl, ap, Option, none, some, false, List, [], ◌∷◌, map}
use fault_tolerant_kv_store.Result.{ok}
use fault_tolerant_kv_store.Bytes.{Bytes}
use fault_tolerant_kv_store.Raft.Types.{NodeId}
use fault_tolerant_kv_store.Raft.Node.{Node}
use fault_tolerant_kv_store.Raft.Construction.{construct}
use fault_tolerant_kv_store.Storage.KvStore.{Persistence, KvStore}
use fault_tolerant_kv_store.Storage.Interface.{durable_store}
use fault_tolerant_kv_store.Rpc.Retry.{Network, options_are_invalid, validate_options}
use fault_tolerant_kv_store.Rpc.Client.{Channel, GrpcClient, client_on, client_for}
use fault_tolerant_kv_store.Rpc.Server.{Transport, GrpcServer, open_server}
use fault_tolerant_kv_store.Runtime.Configuration.{
  Peers, Environment, NodeRuntimeConfig, is_empty, from_environment, peer_ids, raft_config,
}
use fault_tolerant_kv_store.Runtime.PeerOrder.{AreRemote}
use fault_tolerant_kv_store.Runtime.PeersUnique.{from_environment-IsReady}
use fault_tolerant_kv_store.Runtime.Lifecycle.{
  Randomness, durable_platform, client_options, Machine, NodeRuntime, store_at, make_clients,
  construct_runtime,
}
use fault_tolerant_kv_store.Runtime.LifecycleLaws.{IsDown}

module _ ⦃persistence : Persistence⦄ ⦃randomness : Randomness⦄ ⦃net : Network⦄
    ⦃transport : Transport⦄ where
  -- Every target has a channel.
  abbrev pub IsTotal : (Bytes → Option Channel) → Type 0
  IsTotal create = (target : Bytes) → (channel : Channel) × (create target ≡ some channel)

  made_client :
      (create : Bytes → Option Channel) (endpoint : Bytes)
      → IsTotal create
      → is_empty endpoint ≡ false
      → (client : GrpcClient) × (client_for create endpoint client_options ≡ ok client)
  unfolding client_for client_on validate_options options_are_invalid
  made_client create [] total h = cc
  made_client create (c ∷ cs) total h =
      let (channel, e) = total (c ∷ cs) in
      (record { options = client_options; channel = channel }, rw e refl)

  made_clients :
      (create : Bytes → Option Channel) (local : NodeId) (peers : Peers)
      → IsTotal create
      → AreRemote local peers
      → (clients : List (NodeId × GrpcClient)) × (make_clients create peers ≡ ok clients)
        × (map (λ c. c.0) clients ≡ peer_ids peers)
  unfolding make_clients AreRemote peer_ids
  made_clients create local [] total h = ([], refl, refl)
  made_clients create local ((id, endpoint) ∷ peers) total ((other, bound, there), hs) =
      let (client, made) = made_client create endpoint total there in
      let (clients, rest, ids) = made_clients create local peers total hs in
      ((id, client) ∷ clients, rw (made, rest) refl, ap (◌∷◌ id) ids)

  opened :
      (n : Node ⦃p = durable_platform⦄) (address : Bytes) (world : transport.World)
      → is_empty address ≡ false
      → (server : GrpcServer) × (open_server ⦃p = durable_platform⦄ address
            (some durable_store)
            (some n)
            world
          ≡ ok server)
        × (server.server ≡ none)
  unfolding open_server
  opened n [] world h = cc
  opened n (c ∷ cs) world h =
      (record { listen_address = c ∷ cs; server = none; bound_port = 0; world = world }, refl, refl)

  -- On a configuration from the environment, where the two stores open and the node is constructed from
  -- the first, and channels can be made, the runtime is constructed: with that node and that store, a
  -- client for each peer, and nothing running. No address, endpoint or option is refused.
  pub construct_runtime-from_environment :
      (environment : Environment) (machine : Machine) (c : NodeRuntimeConfig)
      (raft_storage store : KvStore) (n : Node ⦃p = durable_platform⦄)
      → from_environment environment ≡ ok c
      → store_at machine c.data_directory "raft.snapshot" ≡ ok raft_storage
      → construct ⦃p = durable_platform⦄ (raft_config c) (some raft_storage) ≡ ok n
      → store_at machine c.data_directory "kv.snapshot" ≡ ok store
      → IsTotal machine.create_channel
      → (r : NodeRuntime) × (construct_runtime machine c ≡ ok r)
        × (r.raft_node ≡ n)
        × (r.key_value_store ≡ store)
        × (map (λ p. p.0) r.peer_clients ≡ peer_ids c.peers)
        × IsDown r
  unfolding construct_runtime
  construct_runtime-from_environment environment machine c raft_storage store n read first made
        second total =
      let ready = from_environment-IsReady environment c read in
      let (server, listens, resting) =
        opened n c.listen_address machine.transport_world ready.listens in
      let (clients, connected, ids) =
        made_clients machine.create_channel c.node_id c.peers total ready.remote in
      (
        record {
          config = c;
          raft_node = n;
          key_value_store = store;
          server = server;
          peer_clients = clients;
          running = false;
          message_queue = [];
          ticker = false;
          workers = 0;
        },
        rw (first, made, second, listens, connected) refl,
        refl,
        refl,
        ids,
        (refl, rw resting refl, refl, refl),
      )
