-- ===== src/Runtime/LifecycleLaws.antt =====
-- The life of a `NodeRuntime` of src/node/node_runtime.cpp.
use fault_tolerant_kv_store.Prelude.{
  ℕ, zero, suc, ◌<◌, arith, ◌≡◌, refl, Option, none, some, Bool, true, false, List, length,
  if◌then◌else◌,
}
use fault_tolerant_kv_store.Exec.{
  Exception, Outcome, Post, returned, thrown, returns, throws, undefined, logic_error,
}
use fault_tolerant_kv_store.Raft.Types.{Message}
use fault_tolerant_kv_store.Storage.KvStore.{Persistence}
use fault_tolerant_kv_store.Rpc.Retry.{Network}
use fault_tolerant_kv_store.Rpc.Server.{
  Transport, GrpcServer, is_running, start, shutdown, start_resting, shutdown-start,
}
use fault_tolerant_kv_store.Runtime.Lifecycle.{
  Randomness, NodeRuntime, Failure, Started, ended, waits, give_up, with_server, start_runtime,
  stop,
}

module _ ⦃persistence : Persistence⦄ ⦃randomness : Randomness⦄ ⦃net : Network⦄
    ⦃transport : Transport⦄ where
  -- All of it runs.
  abbrev pub IsUp : NodeRuntime → Type 0
  IsUp r =
      (r.running ≡ true)
      × (is_running r.server.server ≡ true)
      × (r.ticker ≡ true)
      × (r.workers ≡ length r.config.peers)

  -- Nothing of it runs.
  abbrev pub IsDown : NodeRuntime → Type 0
  IsDown r =
      (r.running ≡ false)
      × (is_running r.server.server ≡ false)
      × (r.ticker ≡ false)
      × (r.workers ≡ 0)

  down : (s : GrpcServer) → is_running (shutdown s).server ≡ false
  down s = (shutdown-start s).0

  -- Workers that miss the notification.
  abbrev pub missed : Option Failure → ℕ
  missed none = 0
  missed (some f) = f.asleep

  -- How a start of `r` ends. It waits only where workers have missed the notification: for them, with
  -- the server running.
  abbrev pub IsStart : Option Failure → NodeRuntime → Started → Type 0
  IsStart failure r (ended o) =
      Post (λ _ t. IsUp t × (t.config ≡ r.config)) (λ _ t. IsDown t × (t.config ≡ r.config)) o
  IsStart failure r (waits t) =
      (0 < missed failure)
      × (t.workers ≡ missed failure)
      × (t.running ≡ false)
      × (is_running t.server.server ≡ true)
      × (t.config ≡ r.config)

  given_up-IsStart :
      (r : NodeRuntime) (e : Exception) (asleep : ℕ) (left : List Message) (server : GrpcServer)
      → is_running server.server ≡ true
      → IsStart (some (record { thrown = e; asleep = asleep })) r (give_up e asleep left server r)
  given_up-IsStart r e zero left server h = thrown ((refl, down server, refl, refl), refl)
  given_up-IsStart r e (suc asleep) left server h = (omega arith, refl, refl, h, refl)

  with_server-IsStart :
      (r : NodeRuntime) (failure : Option Failure) (left : List Message)
      (o : Outcome GrpcServer (Unit {0}))
      → Post (λ _ t. is_running t.server ≡ true) (λ _ t. Unit {0}) o
      → IsStart failure r (with_server failure left o r)
  with_server-IsStart r none left (returns _ server) (returned h) =
      returned ((refl, h, refl, refl), refl)
  with_server-IsStart r (some f) left (returns _ server) (returned h) =
      given_up-IsStart r f.thrown f.asleep left server h
  with_server-IsStart r failure left (throws e server) h =
      thrown ((refl, down server, refl, refl), refl)
  with_server-IsStart r failure left undefined h = elim h [ ]

  IsStart-else :
      (r : NodeRuntime) (failure : Option Failure) (b : Bool) (x y : Started)
      → b ≡ false
      → IsStart failure r y
      → IsStart failure r (if b then x else y)
  IsStart-else r failure b x y e h = rw e h

  -- A runtime that is up does not start again, and is left as it is; after `stop` nothing of it runs. Of
  -- one that is down, all runs after a start that returns and nothing after a start that throws, whether
  -- the server or a thread has failed, and its configuration stays; a start neither returns nor throws
  -- only if workers miss the notification of a failure, and then it waits for them with the server
  -- running. `stop` does nothing to a runtime that is down.
  pub lifecycle :
      (r s : NodeRuntime) (failure : Option Failure) (left : List Message)
      → IsUp r
      → IsDown s
      → (start_runtime failure left r
          ≡ ended (throws (logic_error "node runtime is already running") r))
        × IsDown (stop left r)
        × IsStart failure s (start_runtime failure left s)
        × (stop left s ≡ s)
  unfolding start_runtime stop
  lifecycle r s failure left up resting = (
    rw up.0 refl,
    rw up.0 (refl, down r.server, refl, refl),
    IsStart-else s failure s.running (ended (throws _ s))
        (with_server failure left (start s.server) s) resting.0
        (with_server-IsStart s failure left (start s.server) (start_resting s.server resting.1)),
    rw resting.0 refl,
  )
