-- ===== src/Rpc/KvService.antt =====
-- `KeyValueService` of src/grpc/grpc_server.cpp, over any `KeyValueStore`.
use fault_tolerant_kv_store.Prelude.{Bool, true, false, Option, none, some, []}
use fault_tolerant_kv_store.Status.{Status}
use fault_tolerant_kv_store.Exec.{Exec, ◌>>=◌, ◌>>◌, pure, gets, invalid_argument}
use fault_tolerant_kv_store.Result.{Result, ok, err}
use fault_tolerant_kv_store.Bytes.{Bytes}
use fault_tolerant_kv_store.Storage.Interface.{KeyValueStore}
use fault_tolerant_kv_store.Rpc.Wire
use fault_tolerant_kv_store.Rpc.ErrorText.{Texts}
use fault_tolerant_kv_store.Rpc.Handler.{run_handler}

-- The constructor; `none` is a null pointer.
abbrev pub kv_service : {S : Type 0} → Option (KeyValueStore S) → Result (KeyValueStore S)
kv_service none = err (invalid_argument "key-value store must not be null")
kv_service (some store) = ok store

abbrev pub found_response : Option Bytes → Wire.GetResponse
found_response none = record { found = false; value = [] }
found_response (some value) = record { found = true; value = value }

module _ ⦃texts : Texts⦄ {S : Type 0} (store : KeyValueStore S) (early late : Bool) where
  unfoldable pub serve_get : Wire.GetRequest → Exec S (Status × Wire.GetResponse)
  unfolding run_handler
  serve_get request =
      run_handler early late Wire.cleared_get
        do value ← gets (store.get request.key); pure (found_response value)

  unfoldable pub serve_put : Wire.PutRequest → Exec S (Status × Wire.PutResponse)
  unfolding run_handler
  serve_put request =
      run_handler early late Wire.put_done
        do store.put request.key request.value; pure Wire.put_done

  unfoldable pub serve_delete : Wire.DeleteRequest → Exec S (Status × Wire.DeleteResponse)
  unfolding run_handler
  serve_delete request =
      run_handler early late Wire.cleared_delete
        do deleted ← store.erase request.key; pure (record { deleted = deleted })
