-- ===== src/Rpc/Loopback/Store.antt =====
-- `GrpcClient` of src/grpc/grpc_client.cpp over `KeyValueService` of src/grpc/grpc_server.cpp.
use fault_tolerant_kv_store.Prelude.{
  Option, none, some, false, not, ◌≡◌, refl, sym, subst, if◌then◌else◌,
}
use fault_tolerant_kv_store.Status.{Status}
use fault_tolerant_kv_store.Exec.{returns, gets, Post, returned}
use fault_tolerant_kv_store.Result.{ok}
use fault_tolerant_kv_store.Bytes.{Bytes}
use fault_tolerant_kv_store.Storage.Interface.{KeyValueStore, IsKeyValueStore}
use fault_tolerant_kv_store.Rpc.Wire
use fault_tolerant_kv_store.Rpc.Retry.{GrpcClientOptions, validate_options}
use fault_tolerant_kv_store.Rpc.Client.{Channel, GrpcClient, get, put, erase}
use fault_tolerant_kv_store.Rpc.ErrorText.{Texts}
use fault_tolerant_kv_store.Rpc.KvService.{found_response, serve_get, serve_put, serve_delete}
use fault_tolerant_kv_store.Rpc.Loopback.{
  loopback, delivered, IsDefined, reported, invoke-written, Post-IsDefined, reported-Post,
}

module _ ⦃texts : Texts⦄ {S : Type 0} (store : KeyValueStore S) (lost : Status) where
  -- The stubs of the key-value service reach its handlers, those of the Raft service nothing.
  abbrev pub store_channel : Channel ⦃net = loopback S⦄
  store_channel = record {
    call_get = λ q. delivered lost Wire.cleared_get (serve_get store false false q);
    call_put = λ q. delivered lost Wire.put_done (serve_put store false false q);
    call_delete = λ q. delivered lost Wire.cleared_delete (serve_delete store false false q);
    call_vote = λ q time s. ((lost, Wire.cleared_vote), s);
    call_append = λ q time s. ((lost, Wire.cleared_append), s);
    call_status = λ q time s. ((lost, Wire.cleared_status), s);
  }

  module _ (options : GrpcClientOptions) where
    abbrev pub store_client : GrpcClient ⦃net = loopback S⦄
    store_client = record { options = options; channel = store_channel }

    -- The remote store, as a store.
    abbrev pub remote_store : KeyValueStore S
    remote_store = record {
      put = put ⦃net = loopback S⦄ store_client;
      get = store.get;
      erase = erase ⦃net = loopback S⦄ store_client;
    }

    found_again :
        (o : Option Bytes)
        → (if not (found_response o).found then none else some (found_response o).value) ≡ o
    found_again none = refl
    found_again (some v) = refl

    -- The client's `get` is the server's.
    pub get-serve_get :
        (key : Bytes) (s : S)
        → validate_options options ≡ ok tt
        → get ⦃net = loopback S⦄ store_client key s ≡ returns (store.get key s) s
    unfolding get serve_get
    get-serve_get key s valid =
        invoke-written found_response
          (λ (r : Wire.GetResponse). if not r.found then none else some r.value) found_again lost
          Wire.cleared_get "Get" options (gets (store.get key)) s valid (returned tt)

    pub put-serve_put :
        (key value : Bytes) (s : S)
        → validate_options options ≡ ok tt
        → IsDefined (store.put key value s)
        → put ⦃net = loopback S⦄ store_client key value s ≡ reported "Put" (store.put key value s)
    unfolding put serve_put
    put-serve_put key value s valid defined =
        invoke-written (λ _. Wire.put_done) (λ (r : Wire.PutResponse). tt) (λ _. refl) lost
          Wire.put_done "Put" options (store.put key value) s valid defined

    pub erase-serve_delete :
        (key : Bytes) (s : S)
        → validate_options options ≡ ok tt
        → IsDefined (store.erase key s)
        → erase ⦃net = loopback S⦄ store_client key s ≡ reported "Delete" (store.erase key s)
    unfolding erase serve_delete
    erase-serve_delete key s valid defined =
        invoke-written (λ b. record { deleted = b }) (λ (r : Wire.DeleteResponse). r.deleted)
          (λ _. refl) lost Wire.cleared_delete "Delete" options (store.erase key) s valid defined

    -- With options that the constructor accepts and a network that delivers every call, the client of a
    -- store that keeps its promises keeps them too: what returns has been done, and what throws has
    -- changed nothing. What it gets is what the store holds.
    pub remote_store-IsKeyValueStore :
        (Valid : S → Type 0)
        → validate_options options ≡ ok tt
        → IsKeyValueStore store Valid
        → IsKeyValueStore remote_store Valid
          × ((key : Bytes) (s : S)
              → get ⦃net = loopback S⦄ store_client key s ≡ returns (store.get key s) s)
    remote_store-IsKeyValueStore Valid valid law = (kept, λ key s. get-serve_get key s valid)
      where
        kept : IsKeyValueStore remote_store Valid
        kept = record {
          put_kept = λ s key value v.
              let done = law.put_kept s key value v in
              subst (Post _ _) (sym (put-serve_put key value s valid (Post-IsDefined done)))
                (reported-Post "Put" done);
          erase_kept = λ s key v.
              let done = law.erase_kept s key v in
              subst (Post _ _) (sym (erase-serve_delete key s valid (Post-IsDefined done)))
                (reported-Post "Delete" done);
        }
