-- ===== src/Rpc/Retry.antt =====
-- src/grpc/grpc_client.cpp: the options and the retry loop. The network is a parameter: a call is made
-- in a state of the world, with its timeout, and gives a status, a response and the world after it.
pub mod Bounds
pub mod First
pub mod Early
use fault_tolerant_kv_store.Prelude.{
  ℕ, zero, suc, ◌+◌, ◌-◌, ◌%◌, ◌^◌, ltb, Bool, true, false, ◌||◌, not, ◌==◌, if◌then◌else◌,
}
use fault_tolerant_kv_store.Prelude.Int.{ℤ, pos, negsuc, ltb_ℤ, leb_ℤ, ◌*ℤ◌}
use fault_tolerant_kv_store.Status.{
  StatusCode, Status, is_ok, unavailable, deadline_exceeded, resource_exhausted, aborted,
}
use fault_tolerant_kv_store.Exec.{Exec, returns, throw, invalid_argument, logic_error}
use fault_tolerant_kv_store.Result.{Result, ok, err}

pub record GrpcClientOptions : Type 0 where
  pub timeout : ℤ
  pub max_attempts : ℕ
  pub initial_backoff : ℤ
  pub maximum_backoff : ℤ

abbrev pub default_options : GrpcClientOptions
default_options = record {
  timeout = pos 500;
  max_attempts = 3;
  initial_backoff = pos 10;
  maximum_backoff = pos 100;
}

unfoldable pub options_are_invalid : GrpcClientOptions → Bool
options_are_invalid o =
    leb_ℤ o.timeout (pos 0)
    || (o.max_attempts == 0
        || (ltb_ℤ o.initial_backoff (pos 0)
            || (ltb_ℤ o.maximum_backoff (pos 0) || ltb_ℤ o.maximum_backoff o.initial_backoff)))

unfoldable pub validate_options : GrpcClientOptions → Result (Unit {0})
unfolding options_are_invalid
validate_options o =
    if options_are_invalid o then err (invalid_argument "invalid gRPC client options") else ok tt

abbrev pub is_retryable : StatusCode → Bool
is_retryable unavailable = true
is_retryable deadline_exceeded = true
is_retryable resource_exhausted = true
is_retryable aborted = true
is_retryable _ = false

-- A count of milliseconds is an `int64_t`. Where a product of two exceeds it, C++ leaves the result
-- open; here, as on the machines the program is built for, it wraps around.
unfoldable pub wrap_int64 : ℤ → ℤ
wrap_int64 (pos n) = let k = n % 2 ^ 64 in if ltb k (2 ^ 63) then pos k else negsuc (2 ^ 64 - k - 1)
wrap_int64 (negsuc n) =
    let k = n % 2 ^ 64 in if ltb k (2 ^ 63) then negsuc k else pos (2 ^ 64 - k - 1)

-- `std::min(maximum_backoff, backoff * 2)`
unfoldable pub next_backoff : ℤ → ℤ → ℤ
unfolding ◌*ℤ◌ wrap_int64
next_backoff maximum backoff =
    let doubled = wrap_int64 (backoff *ℤ pos 2) in
    if ltb_ℤ doubled maximum then doubled else maximum

pub record InvocationResult (R : Type 0) : Type 0 where
  pub status : Status
  pub response : R
  pub attempts : ℕ

-- What the client uses of gRPC and of the thread library.
pub record Network : Type 1 where
  pub World : Type 0
  pub sleep : ℤ → World → World

module _ ⦃net : Network⦄ where
  -- A call of a stub: the timeout, and the world in which it is made.
  abbrev pub Call : Type 0 → Type 0
  Call R = ℤ → net.World → (Status × R) × net.World

  -- The loop, over the attempts that are left; `attempt` counts from 1.
  unfoldable pub retry :
      {R : Type 0} → GrpcClientOptions → Call R → ℕ → ℕ → ℤ → Exec net.World (InvocationResult R)
  unfolding next_backoff
  retry options operation zero attempt backoff =
      throw (logic_error "gRPC retry loop terminated unexpectedly")
  retry options operation (suc left) attempt backoff = λ world.
      let called = operation options.timeout world in
      let status = called.0.0 in
      let rest =
        retry options operation left (attempt + 1) (next_backoff options.maximum_backoff backoff)
          (net.sleep backoff called.1) in
      if is_ok status || (not (is_retryable status.code) || attempt == options.max_attempts)
      then returns (record { status = status; response = called.0.1; attempts = attempt }) called.1
      else rest

  unfoldable pub invoke_with_retry :
      {R : Type 0} → GrpcClientOptions → Call R → Exec net.World (InvocationResult R)
  unfolding retry
  invoke_with_retry options operation =
      retry options operation options.max_attempts 1 options.initial_backoff
