-- ===== src/Rpc/Client.antt =====
-- src/grpc/grpc_client.cpp: the construction of a client, and its calls of the key-value service. A
-- stub is a parameter: it takes a request and makes a call.
use Prim.Native.String.{String}
use fault_tolerant_kv_store.Prelude.{Option, none, some, Bool, not, [], ◌∷◌, if◌then◌else◌}
use fault_tolerant_kv_store.Status.{is_ok}
use fault_tolerant_kv_store.Exec.{Exec, ◌>>=◌, pure, throw, invalid_argument, grpc_error}
use fault_tolerant_kv_store.Result.{Result, ok, err}
use fault_tolerant_kv_store.Bytes.{Bytes}
use fault_tolerant_kv_store.Rpc.Wire
use fault_tolerant_kv_store.Rpc.Retry.{
  GrpcClientOptions, validate_options, InvocationResult, Network, Call, invoke_with_retry,
}

module _ ⦃net : Network⦄ where
  -- The stubs of the two services over one channel.
  pub record Channel : Type 0 where
    pub call_get : Wire.GetRequest → Call Wire.GetResponse
    pub call_put : Wire.PutRequest → Call Wire.PutResponse
    pub call_delete : Wire.DeleteRequest → Call Wire.DeleteResponse
    pub call_vote : Wire.RequestVoteRequest → Call Wire.RequestVoteResponse
    pub call_append : Wire.AppendEntriesRequest → Call Wire.AppendEntriesResponse
    pub call_status : Wire.NodeStatusRequest → Call Wire.NodeStatusResponse

  pub record GrpcClient : Type 0 where
    pub options : GrpcClientOptions
    pub channel : Channel

  abbrev pub checked_channel : Option Channel → GrpcClientOptions → Result GrpcClient
  checked_channel none options = err (invalid_argument "gRPC channel must not be null")
  checked_channel (some channel) options = ok (record { options = options; channel = channel })

  abbrev pub checked_client :
      Result (Unit {0}) → Option Channel → GrpcClientOptions → Result GrpcClient
  checked_client (err e) channel options = err e
  checked_client (ok _) channel options = checked_channel channel options

  -- The constructor from a channel; `none` is a null pointer.
  unfoldable pub client_on : Option Channel → GrpcClientOptions → Result GrpcClient
  unfolding validate_options
  client_on channel options = checked_client (validate_options options) channel options

  -- The constructor from a target; `create` is `grpc::CreateChannel`.
  unfoldable pub client_for :
      (Bytes → Option Channel) → Bytes → GrpcClientOptions → Result GrpcClient
  unfolding client_on
  client_for create [] options = err (invalid_argument "gRPC target must not be empty")
  client_for create (c ∷ cs) options = client_on (create (c ∷ cs)) options

  -- The status of the last attempt is checked: the response, or a `GrpcError`.
  unfoldable pub check_status : {R : Type 0} → String → InvocationResult R → Exec net.World R
  check_status operation result =
      if not (is_ok result.status)
      then throw (grpc_error operation result.status result.attempts)
      else pure result.response

  unfoldable pub invoke : {R : Type 0} → String → GrpcClientOptions → Call R → Exec net.World R
  unfolding invoke_with_retry check_status
  invoke operation options call = do
    result ← invoke_with_retry options call
    check_status operation result

  unfoldable pub get : GrpcClient → Bytes → Exec net.World (Option Bytes)
  unfolding invoke
  get client key = do
    response ← invoke "Get" client.options (client.channel.call_get (record { key = key }))
    pure (if not response.found then none else some response.value)

  unfoldable pub put : GrpcClient → Bytes → Bytes → Exec net.World (Unit {0})
  unfolding invoke
  put client key value = do
    response ←
        invoke "Put" client.options (client.channel.call_put (record { key = key; value = value }))
    pure tt

  unfoldable pub erase : GrpcClient → Bytes → Exec net.World Bool
  unfolding invoke
  erase client key = do
    response ← invoke "Delete" client.options (client.channel.call_delete (record { key = key }))
    pure response.deleted
