-- ===== src/Rpc/Retry/First.antt =====
-- The loop against its description: the first attempt whose status is final.
use fault_tolerant_kv_store.Prelude.{
  ℕ, zero, suc, ◌+◌, ◌≤◌, ◌<◌, ◌≡◌, ◌≢◌, ◌⊎◌, inl, inr, refl, Bool, true, false, ◌||◌, not, ◌==◌,
  arith, Bool-cases,
}
use fault_tolerant_kv_store.Prelude.Int.{ℤ}
use fault_tolerant_kv_store.Status.{Status, is_ok}
use fault_tolerant_kv_store.Exec.{Outcome, returns}
use fault_tolerant_kv_store.Result.{ok}
use fault_tolerant_kv_store.Rpc.Retry.{
  GrpcClientOptions, options_are_invalid, validate_options, is_retryable, next_backoff,
  InvocationResult, Network, Call, retry, invoke_with_retry,
}

-- A status after which the loop tries again, if it may.
abbrev pub IsTransient : Status → Type 0
IsTransient s = (is_ok s ≡ false) × (is_retryable s.code ≡ true)

abbrev pub IsFinal : Status → Type 0
IsFinal s = (is_ok s ≡ true) ⊎ (is_retryable s.code ≡ false)

module _ ⦃net : Network⦄ {R : Type 0} (options : GrpcClientOptions) (operation : Call R) where
  -- The backoff that follows the attempt `k + 1`, and the world in which that attempt is made.
  unfoldable pub moment : ℕ → ℤ → net.World → ℤ × net.World
  moment zero backoff world = (backoff, world)
  moment (suc k) backoff world =
      moment k (next_backoff options.maximum_backoff backoff)
        (net.sleep backoff (operation options.timeout world).1)

  abbrev pub answer : ℕ → ℤ → net.World → (Status × R) × net.World
  answer k backoff world = operation options.timeout (moment k backoff world).1

  abbrev pub stops : Status → ℕ → Bool
  stops s attempt = is_ok s || (not (is_retryable s.code) || attempt == options.max_attempts)

  -- The attempt `attempt + k` is the one that ends the loop.
  pub record Ends (attempt : ℕ) (backoff : ℤ) (world : net.World)
      (r : Outcome net.World (InvocationResult R)) : Type 0 where
    pub last : ℕ
    pub in_time : attempt + last ≤ options.max_attempts
    pub earlier : (j : ℕ) → j < last → IsTransient (answer j backoff world).0.0
    pub ended : IsFinal (answer last backoff world).0.0 ⊎ (attempt + last ≡ options.max_attempts)
    pub result :
        r
        ≡ returns
            (record {
              status = (answer last backoff world).0.0;
              response = (answer last backoff world).0.1;
              attempts = attempt + last;
            })
            (answer last backoff world).1

  stops-IsFinal : (s : Status) (k : ℕ) → stops s k ≡ true → IsFinal s ⊎ (k ≡ options.max_attempts)
  stops-IsFinal s k h = ground arith

  goes_on : (s : Status) (k : ℕ) → stops s k ≡ false → IsTransient s × (k ≢ options.max_attempts)
  goes_on s k h = ground arith

  stopped-Ends :
      (left attempt : ℕ) (backoff : ℤ) (world : net.World)
      → attempt ≤ options.max_attempts
      → stops (operation options.timeout world).0.0 attempt ≡ true
      → Ends attempt backoff world (retry options operation (suc left) attempt backoff world)
  unfolding retry moment
  stopped-Ends left attempt backoff world le h =
      let at : attempt + 0 ≡ attempt = omega arith in
      record {
        last = 0;
        in_time = omega arith;
        earlier = λ j below. absurd (omega arith);
        ended = rw at (stops-IsFinal (operation options.timeout world).0.0 attempt h);
        result = rw (h, at) refl;
      }

  going-Ends :
      (left attempt : ℕ) (backoff : ℤ) (world : net.World)
      → stops (operation options.timeout world).0.0 attempt ≡ false
      → Ends
          (attempt + 1)
          (next_backoff options.maximum_backoff backoff)
          (net.sleep backoff (operation options.timeout world).1)
          (retry options operation left
            (attempt + 1)
            (next_backoff options.maximum_backoff backoff)
            (net.sleep backoff (operation options.timeout world).1))
      → Ends attempt backoff world (retry options operation (suc left) attempt backoff world)
  unfolding retry moment
  going-Ends left attempt backoff world h later =
      let shift : attempt + suc later.last ≡ attempt + 1 + later.last = omega arith in
      record {
        last = suc later.last;
        in_time = omega (arith, later.in_time);
        earlier = before;
        ended = rw shift later.ended;
        result = rw (h, shift) later.result;
      }
    where
      before : (j : ℕ) → j < suc later.last → IsTransient (answer j backoff world).0.0
      before zero below = (goes_on (operation options.timeout world).0.0 attempt h).0
      before (suc j) below = later.earlier j (omega arith)

  at_last : (s : Status) (k : ℕ) → k ≡ options.max_attempts → stops s k ≡ true
  at_last s k h = ground arith

  retry-Ends :
      (left attempt : ℕ) (backoff : ℤ) (world : net.World)
      → attempt + left ≡ options.max_attempts
      → Ends attempt backoff world (retry options operation (suc left) attempt backoff world)
  retry-Ends zero attempt backoff world e =
      stopped-Ends zero attempt backoff world (omega arith)
        (at_last (operation options.timeout world).0.0 attempt (omega arith))
  retry-Ends (suc left) attempt backoff world e =
      elim (Bool-cases (stops (operation options.timeout world).0.0 attempt)) [
        | inl stopped ↦ stopped-Ends (suc left) attempt backoff world (omega arith) stopped
        | inr going ↦ going-Ends (suc left) attempt backoff world going (
            retry-Ends left (attempt + 1) (next_backoff options.maximum_backoff backoff)
              (net.sleep backoff (operation options.timeout world).1) (omega arith))
      ]

  pub some_attempts : validate_options options ≡ ok tt → 0 < options.max_attempts
  unfolding validate_options options_are_invalid
  some_attempts h = ground arith

  -- With options that the constructor accepts, the loop ends by itself, at an attempt from the first
  -- to `max_attempts`: all statuses before it are ones to try again after, and its own is not, or it
  -- is the last attempt. The result is its status, its response and its number.
  pub invoke_with_retry-Ends :
      (world : net.World)
      → validate_options options ≡ ok tt
      → Ends 1 options.initial_backoff world (invoke_with_retry options operation world)
  unfolding invoke_with_retry
  invoke_with_retry-Ends world valid = counted options.max_attempts refl (some_attempts valid)
    where
      counted :
          (k : ℕ)
          → options.max_attempts ≡ k
          → 0 < k
          → Ends 1 options.initial_backoff world
              (retry options operation k 1 options.initial_backoff world)
      counted zero e h = absurd (omega arith)
      counted (suc k) e h = retry-Ends k 1 options.initial_backoff world (omega arith)
