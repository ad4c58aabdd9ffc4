-- ===== src/Rpc/Loopback/LostReply.antt =====
-- `GrpcClient::erase` of src/grpc/grpc_client.cpp where the server deletes the key and its answer is
-- lost on the way back.
use Prim.Native.String.{String}
use fault_tolerant_kv_store.Prelude.{
  none, Bool, true, false, ◌≡◌, ◌≤◌, refl, subst, inl, ◌∙◌, ap, if◌then◌else◌,
}
use fault_tolerant_kv_store.Prelude.Int.{ℤ}
use fault_tolerant_kv_store.Status.{Status, is_ok, ok_status, unavailable}
use fault_tolerant_kv_store.Exec.{Exec, returns, continue, pure, Post, returned}
use fault_tolerant_kv_store.Result.{ok}
use fault_tolerant_kv_store.Bytes.{Bytes, bytes_eq, bytes_eq_refl}
use fault_tolerant_kv_store.Storage.Entries.{not_none}
use fault_tolerant_kv_store.Storage.Interface.{KeyValueStore, IsKeyValueStore}
use fault_tolerant_kv_store.Rpc.Wire
use fault_tolerant_kv_store.Rpc.Retry.{GrpcClientOptions, validate_options, Network, Call}
use fault_tolerant_kv_store.Rpc.Retry.First.{moment}
use fault_tolerant_kv_store.Rpc.Retry.Early.{invoke_with_retry_twice}
use fault_tolerant_kv_store.Rpc.Client.{Channel, GrpcClient, check_status, invoke, erase}
use fault_tolerant_kv_store.Rpc.ErrorText.{Texts}
use fault_tolerant_kv_store.Rpc.Handler.{conclude, run_handler}
use fault_tolerant_kv_store.Rpc.KvService.{serve_get, serve_put, serve_delete}
use fault_tolerant_kv_store.Rpc.Loopback.{delivered}

-- The world says whether the next answer is lost.
abbrev pub lossy : Type 0 → Network
lossy S = record { World = Bool × S; sleep = λ time world. world }

abbrev pub gone : Status
gone = record { code = unavailable; message = "" }

abbrev pub interrupted :
    {S R : Type 0} → R → Exec S (Status × R) → ℤ → Bool × S → (Status × R) × (Bool × S)
interrupted blank handler time world =
    let reply = delivered gone blank handler time world.1 in
    (if world.0 then (gone, blank) else reply.0, (false, reply.1))

-- A call whose first answer is lost and whose second arrives.
invoke_twice :
    ⦃net : Network⦄ {R : Type 0} (name : String) (options : GrpcClientOptions) (call : Call R)
    (world between after : net.World) (nothing response : R)
    → validate_options options ≡ ok tt
    → 2 ≤ options.max_attempts
    → call options.timeout world ≡ ((gone, nothing), between)
    → call options.timeout (net.sleep options.initial_backoff between)
      ≡ ((ok_status, response), after)
    → invoke name options call world ≡ returns response after
unfolding invoke check_status moment
invoke_twice ⦃net = net⦄ name options call world between after nothing response valid two first
      next =
    let second : call options.timeout
          (net.sleep options.initial_backoff (call options.timeout world).1)
        ≡ ((ok_status, response), after) =
      ap (λ r. call options.timeout (net.sleep options.initial_backoff r.1)) first ∙ next in
    ap (continue (check_status name)) (
      invoke_with_retry_twice options call world valid two (rw first (refl, refl))
        (inl (ap (λ r. is_ok r.0.0) second)))
    ∙ ap (λ r. check_status name (record { status = r.0.0; response = r.0.1; attempts = 2 }) r.1)
        second

module _ ⦃texts : Texts⦄ {S : Type 0} (store : KeyValueStore S) where
  abbrev pub lossy_channel : Channel ⦃net = lossy S⦄
  lossy_channel = record {
    call_get = λ q. interrupted Wire.cleared_get (serve_get store false false q);
    call_put = λ q. interrupted Wire.put_done (serve_put store false false q);
    call_delete = λ q. interrupted Wire.cleared_delete (serve_delete store false false q);
    call_vote = λ q time world. ((gone, Wire.cleared_vote), world);
    call_append = λ q time world. ((gone, Wire.cleared_append), world);
    call_status = λ q time world. ((gone, Wire.cleared_status), world);
  }

  module _ (options : GrpcClientOptions) where
    abbrev pub lossy_client : GrpcClient ⦃net = lossy S⦄
    lossy_client = record { options = options; channel = lossy_channel }

    gone_after :
        (Valid : S → Type 0) (key : Bytes) (s t : S) (b : Bool)
        → IsKeyValueStore store Valid
        → Valid s
        → store.erase key s ≡ returns b t
        → Valid t × (store.get key t ≡ none) × (b ≡ not_none (store.get key s))
    gone_after Valid key s t b law v e = elim (subst (Post _ _) e (law.erase_kept s key v)) [
      | returned (there, w, holds) ↦ (w, holds key ∙ erased, there)
    ]
      where
        erased : (if bytes_eq key key then none else store.get key s) ≡ none
        erased = rw (bytes_eq_refl key) refl

    first_call :
        (key : Bytes) (s t : S) (b : Bool)
        → store.erase key s ≡ returns b t
        → interrupted Wire.cleared_delete
            (serve_delete store false false (record { key = key }))
            options.timeout
            (true, s)
          ≡ ((gone, Wire.cleared_delete), (false, t))
    unfolding serve_delete run_handler conclude
    first_call key s t b e = rw e refl

    next_call :
        (key : Bytes) (s t : S) (b : Bool)
        → store.erase key s ≡ returns b t
        → interrupted Wire.cleared_delete
            (serve_delete store false false (record { key = key }))
            options.timeout
            (false, s)
          ≡ ((ok_status, record { deleted = b }), (false, t))
    unfolding serve_delete run_handler conclude
    next_call key s t b e = rw e refl

    -- With options that allow two attempts, a store that keeps its promises, and a first answer that is
    -- lost: where the server carries out both deletions of a key, the client says that there was
    -- nothing to delete, though the first deletion says whether the key was there, and the key is gone.
    pub erase_retried :
        (Valid : S → Type 0) (key : Bytes) (s t u : S) (b c : Bool)
        → IsKeyValueStore store Valid
        → Valid s
        → validate_options options ≡ ok tt
        → 2 ≤ options.max_attempts
        → store.erase key s ≡ returns b t
        → store.erase key t ≡ returns c u
        → (erase ⦃net = lossy S⦄ lossy_client key (true, s) ≡ returns false (false, u))
          × (store.get key u ≡ none)
          × (b ≡ not_none (store.get key s))
    unfolding erase
    erase_retried Valid key s t u b c law v valid two first next =
        let (w, missing, there) = gone_after Valid key s t b law v first in
        let (w', missing', again) = gone_after Valid key t u c law w next in
        (
          ap (continue (λ r. pure r.deleted)) (
                invoke_twice ⦃net = lossy S⦄ "Delete" options
                  (lossy_channel.call_delete (record { key = key })) (true, s) (false, t) (false, u)
                  Wire.cleared_delete (record { deleted = c }) valid two
                  (first_call key s t b first) (next_call key t u c next))
              ∙ ap (λ d. returns d (false, u)) (again ∙ ap not_none missing),
          missing',
          there,
        )
