-- ===== src/Rpc/Server.antt =====
-- `GrpcServer` of src/grpc/grpc_server.cpp and src/grpc/grpc_server.h: its construction and its life.
-- What it uses of gRPC is a parameter. The mutex makes `start` and the two getters atomic, and the
-- part of `shutdown` that takes the server.
use fault_tolerant_kv_store.Prelude.{
  ℕ, ◌≡◌, ◌≢◌, refl, ap, ◌∙◌, Option, none, some, Bool, true, false, [], ◌∷◌, ◌++◌, ◌==◌,
  if◌then◌else◌, arith,
}
use fault_tolerant_kv_store.Exec.{
  Exec, Post, Post-weaken, returned, thrown, ◌>>=◌, ◌>>◌, throw, gets, modify, throws,
  invalid_argument, logic_error, runtime_error,
}
use fault_tolerant_kv_store.Result.{Result, ok, err}
use fault_tolerant_kv_store.Bytes.{Bytes}
use fault_tolerant_kv_store.Decimal.{
  to_decimal, split_last, Lacks, split_last-append, to_decimal-Lacks,
}
use fault_tolerant_kv_store.Raft.Platform.{Platform}
use fault_tolerant_kv_store.Raft.Node.{Node}
use fault_tolerant_kv_store.Storage.Interface.{KeyValueStore}
use fault_tolerant_kv_store.Rpc.KvService.{kv_service}
use fault_tolerant_kv_store.Rpc.RaftService.{raft_service}

-- `ServerBuilder::BuildAndStart` with one listening port gives a server, or a null pointer, and the
-- port that it has chosen; `stop` is `Server::Shutdown` with `Server::Wait`.
pub record Transport : Type 1 where
  pub Handle : Type 0
  pub World : Type 0
  pub build_and_start : Bytes → World → (Option Handle × ℕ) × World
  pub stop : Handle → World → World

abbrev pub is_running : {A : Type 0} → Option A → Bool
is_running none = false
is_running (some a) = true

abbrev pub or_whole : Bytes → Bytes → Option (Bytes × Bytes) → Bytes
or_whole address port none = address
or_whole address port (some (host, old)) = host ++ (58 ∷ port)

abbrev pub behind : {A B : Type 0} → Result A → Result B → Result B
behind (err e) result = err e
behind (ok a) result = result

module _ ⦃net : Transport⦄ where
  -- The two services keep no state of their own.
  pub record GrpcServer : Type 0 where
    pub listen_address : Bytes
    pub server : Option net.Handle
    pub bound_port : ℕ
    pub world : net.World

  abbrev pub listening : Bytes → net.World → Result GrpcServer
  listening [] world = err (invalid_argument "gRPC listen address must not be empty")
  listening (c ∷ cs) world =
      ok (record { listen_address = c ∷ cs; server = none; bound_port = 0; world = world })

  -- The constructor; the services are made before the address is looked at.
  unfoldable pub open_server :
      ⦃p : Platform⦄ {S : Type 0}
      → Bytes
      → Option (KeyValueStore S)
      → Option Node
      → net.World
      → Result GrpcServer
  open_server address store node world =
      behind (kv_service store) (behind (raft_service node) (listening address world))

  abbrev pub launched : (Option net.Handle × ℕ) × net.World → Exec GrpcServer (Unit {0})
  launched ((some handle, port), world) =
      modify (λ s. record s { server = some handle; bound_port = port; world = world })
  launched ((none, port), world) = do
    modify (λ s. record s { server = none; bound_port = 0; world = world })
    throw (runtime_error "failed to start gRPC server on ")

  unfoldable pub start : Exec GrpcServer (Unit {0})
  start = do
    running ← gets (λ s. is_running s.server)
    built ← gets (λ s. net.build_and_start s.listen_address s.world)
    if running then throw (logic_error "gRPC server is already running") else launched built

  abbrev pub taken_server : Option net.Handle → GrpcServer → GrpcServer
  taken_server none s = record s { server = none }
  taken_server (some handle) s = record s { server = none; world = net.stop handle s.world }

  -- Also the destructor.
  unfoldable pub shutdown : GrpcServer → GrpcServer
  shutdown s = taken_server s.server s

  unfoldable pub bound_port : GrpcServer → ℕ
  bound_port s = s.bound_port

  -- 58 is ':'.
  unfoldable pub endpoint : GrpcServer → Result Bytes
  endpoint s =
      if s.bound_port == 0
      then err (logic_error "gRPC server has not been started")
      else ok (or_whole s.listen_address (to_decimal s.bound_port) (split_last 58 s.listen_address))

  -- What a start comes to, for a server that is not running.
  launched-Post :
      (s : GrpcServer) (built : (Option net.Handle × ℕ) × net.World)
      → Post
          (λ _ t.
            (t.listen_address ≡ s.listen_address)
            × (is_running t.server ≡ true)
            × (t.bound_port ≡ built.0.1))
          (λ e t.
            (e ≡ runtime_error "failed to start gRPC server on ")
            × (t.listen_address ≡ s.listen_address)
            × (is_running t.server ≡ false)
            × (t.bound_port ≡ 0))
          (launched built s)
  launched-Post s ((some handle, port), world) = returned (refl, refl, refl)
  launched-Post s ((none, port), world) = thrown (refl, refl, refl, refl)

  -- A server that runs does not start again, and is left as it is. Another one is running after a start
  -- that returns, and has the port that was chosen; after a start that throws it is not, and its
  -- `endpoint` throws.
  pub start-Post :
      (r s : GrpcServer)
      → is_running r.server ≡ true
      → is_running s.server ≡ false
      → (start r ≡ throws (logic_error "gRPC server is already running") r)
        × Post
            (λ _ t.
              (t.listen_address ≡ s.listen_address)
              × (is_running t.server ≡ true)
              × (t.bound_port ≡ (net.build_and_start s.listen_address s.world).0.1))
            (λ e t.
              (e ≡ runtime_error "failed to start gRPC server on ")
              × (is_running t.server ≡ false)
              × (endpoint t ≡ err (logic_error "gRPC server has not been started")))
            (start s)
  unfolding start endpoint
  start-Post r s running resting = (
    rw running refl,
    rw resting (
        Post-weaken (launched-Post s (net.build_and_start s.listen_address s.world)) (λ _ t h. h)
          (λ e t (failed, same, stopped, port). (failed, stopped, rw port refl))),
  )

  pub start_resting :
      (s : GrpcServer)
      → is_running s.server ≡ false
      → Post (λ _ t. is_running t.server ≡ true) (λ _ t. Unit {0}) (start s)
  unfolding start
  start_resting s resting = rw resting (
      Post-weaken (launched-Post s (net.build_and_start s.listen_address s.world)) (λ _ t h. h.1)
        (λ e t h. tt))

  -- A server that listens on a host and a port with no colon behind the last one, and that has got a
  -- port, has that host and its own port as its endpoint, and the endpoint splits into the two again.
  pub endpoint-or_whole :
      (s : GrpcServer) (host port : Bytes)
      → s.listen_address ≡ host ++ (58 ∷ port)
      → Lacks 58 port
      → s.bound_port ≢ 0
      → (endpoint s ≡ ok (host ++ (58 ∷ to_decimal s.bound_port)))
        × (split_last 58 (host ++ (58 ∷ to_decimal s.bound_port))
            ≡ some (host, to_decimal s.bound_port))
  unfolding endpoint
  endpoint-or_whole s host port listens free bound = (
    rw (differs s.bound_port 0 bound) (
        ap (λ r. ok (or_whole s.listen_address (to_decimal s.bound_port) r))
          (ap (split_last 58) listens ∙ split_last-append 58 host port free)),
    split_last-append 58 host (to_decimal s.bound_port) (to_decimal-Lacks 58 s.bound_port refl),
  )
    where
      differs : (a b : ℕ) → a ≢ b → (a == b) ≡ false
      differs a b h = ground arith

  -- After `shutdown` a server is not running, a second `shutdown` changes nothing, and a start does
  -- not throw that it is running.
  pub shutdown-start :
      (s : GrpcServer)
      → (is_running (shutdown s).server ≡ false)
        × (shutdown (shutdown s) ≡ shutdown s)
        × (start (shutdown s)
            ≡ launched
                (net.build_and_start (shutdown s).listen_address (shutdown s).world)
                (shutdown s))
  unfolding shutdown start
  shutdown-start s = go s.server
    where
      go :
          (o : Option net.Handle)
          → (is_running (taken_server o s).server ≡ false)
            × (taken_server (taken_server o s).server (taken_server o s) ≡ taken_server o s)
            × (start (taken_server o s)
                ≡ launched
                    (net.build_and_start (taken_server o s).listen_address (taken_server o s).world)
                    (taken_server o s))
      go none = (refl, refl, refl)
      go (some handle) = (refl, refl, refl)
