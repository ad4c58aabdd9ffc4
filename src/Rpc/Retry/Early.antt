-- ===== src/Rpc/Retry/Early.antt =====
-- The loop of src/grpc/grpc_client.cpp where its first or its second answer is final.
use fault_tolerant_kv_store.Prelude.{
  ℕ, zero, suc, ◌+◌, ◌≤◌, ◌<◌, ◌≡◌, ◌⊎◌, inl, inr, refl, subst, true, arith,
}
use fault_tolerant_kv_store.Prelude.Int.{ℤ}
use fault_tolerant_kv_store.Status.{Status}
use fault_tolerant_kv_store.Exec.{returns}
use fault_tolerant_kv_store.Result.{ok}
use fault_tolerant_kv_store.Rpc.Retry.{
  GrpcClientOptions, validate_options, Network, Call, retry, invoke_with_retry,
}
use fault_tolerant_kv_store.Rpc.Retry.First.{
  IsTransient, IsFinal, answer, stops, some_attempts, invoke_with_retry-Ends,
}

module _ ⦃net : Network⦄ {R : Type 0} (options : GrpcClientOptions) (operation : Call R) where
  retry_once :
      (left attempt : ℕ) (backoff : ℤ) (world : net.World)
      → stops options operation (operation options.timeout world).0.0 attempt ≡ true
      → retry options operation (suc left) attempt backoff world
        ≡ returns
            (record {
              status = (operation options.timeout world).0.0;
              response = (operation options.timeout world).0.1;
              attempts = attempt;
            })
            (operation options.timeout world).1
  unfolding retry
  retry_once left attempt backoff world h = rw h refl

  final_stops : (s : Status) (k : ℕ) → IsFinal s → stops options operation s k ≡ true
  final_stops s k h = ground arith

  -- A first answer that is final is the result.
  pub invoke_with_retry_once :
      (world : net.World)
      → validate_options options ≡ ok tt
      → IsFinal (operation options.timeout world).0.0
      → invoke_with_retry options operation world
        ≡ returns
            (record {
              status = (operation options.timeout world).0.0;
              response = (operation options.timeout world).0.1;
              attempts = 1;
            })
            (operation options.timeout world).1
  unfolding invoke_with_retry
  invoke_with_retry_once world valid final =
      counted options.max_attempts (some_attempts options operation valid)
    where
      counted :
          (k : ℕ)
          → 0 < k
          → retry options operation k 1 options.initial_backoff world
            ≡ returns
                (record {
                  status = (operation options.timeout world).0.0;
                  response = (operation options.timeout world).0.1;
                  attempts = 1;
                })
                (operation options.timeout world).1
      counted zero h = absurd (omega arith)
      counted (suc k) h =
          retry_once k 1 options.initial_backoff world
            (final_stops (operation options.timeout world).0.0 1 final)

  IsTransient-IsFinal : (s : Status) → IsTransient s → IsFinal s → ⊥
  IsTransient-IsFinal s h f = ground arith

  second :
      (k : ℕ) (world : net.World)
      → (1 < k → IsTransient (answer options operation 1 options.initial_backoff world).0.0)
      → IsFinal (answer options operation k options.initial_backoff world).0.0
        ⊎ (1 + k ≡ options.max_attempts)
      → IsTransient (answer options operation 0 options.initial_backoff world).0.0
      → IsFinal (answer options operation 1 options.initial_backoff world).0.0
      → 2 ≤ options.max_attempts
      → k ≡ 1
  second zero world early end first next two = elim end [
    | inl final ↦ absurd (
        IsTransient-IsFinal (answer options operation 0 options.initial_backoff world).0.0 first
          final)
    | inr e ↦ omega arith
  ]
  second (suc zero) world early end first next two = refl
  second (suc (suc k)) world early end first next two = absurd (
      IsTransient-IsFinal (answer options operation 1 options.initial_backoff world).0.0
        (early (omega arith)) next)

  -- A first answer to try again after, and a second that is final.
  pub invoke_with_retry_twice :
      (world : net.World)
      → validate_options options ≡ ok tt
      → 2 ≤ options.max_attempts
      → IsTransient (answer options operation 0 options.initial_backoff world).0.0
      → IsFinal (answer options operation 1 options.initial_backoff world).0.0
      → invoke_with_retry options operation world
        ≡ returns
            (record {
              status = (answer options operation 1 options.initial_backoff world).0.0;
              response = (answer options operation 1 options.initial_backoff world).0.1;
              attempts = 2;
            })
            (answer options operation 1 options.initial_backoff world).1
  invoke_with_retry_twice world valid two first next =
      let e = invoke_with_retry-Ends options operation world valid in
      subst
        (λ k.
          invoke_with_retry options operation world
          ≡ returns
              (record {
                status = (answer options operation k options.initial_backoff world).0.0;
                response = (answer options operation k options.initial_backoff world).0.1;
                attempts = 1 + k;
              })
              (answer options operation k options.initial_backoff world).1)
        (second e.last world (λ below. e.earlier 1 below) e.ended first next two) e.result
