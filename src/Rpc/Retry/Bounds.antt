-- ===== src/Rpc/Retry/Bounds.antt =====
-- The pauses between the attempts of src/grpc/grpc_client.cpp.
use fault_tolerant_kv_store.Prelude.{
  ℕ, zero, suc, ◌+◌, ◌*◌, ◌^◌, ◌≤◌, ◌<◌, ◌≡◌, ◌∙◌, refl, ap, min, arith,
}
use fault_tolerant_kv_store.Prelude.Int.{ℤ, pos, ◌*ℤ◌}
use fault_tolerant_kv_store.Exec.{returns}
use fault_tolerant_kv_store.Result.{ok}
use fault_tolerant_kv_store.Rpc.Retry.{
  GrpcClientOptions, options_are_invalid, validate_options, wrap_int64, next_backoff, Network, Call,
  invoke_with_retry,
}
use fault_tolerant_kv_store.Rpc.Retry.First.{moment, invoke_with_retry-Ends}
use native.Mathlib.Nat.{one-le-pow, pow-succ', mul_assoc}

-- A doubling that stays below the limit of 64 bits does not wrap around.
next_backoff-pos :
    (m b : ℕ) → b ≤ m → m < 2 ^ 62 → next_backoff (pos m) (pos b) ≡ pos (min m (b * 2))
unfolding next_backoff ◌*ℤ◌ wrap_int64
next_backoff-pos m b le small = ground arith

min-double : (m c p : ℕ) → 0 < p → min m (min m c * p) ≡ min m (c * p)
min-double m c p h = grind arith

pow-suc : (b k : ℕ) → b * 2 * 2 ^ k ≡ b * 2 ^ suc k
pow-suc b k = rw (pow-succ' 2 k) (mul_assoc b 2 (2 ^ k))

module _ ⦃net : Network⦄ {R : Type 0} (options : GrpcClientOptions) (operation : Call R) where
  -- The world in which the attempt `k + 1` is made, if between the attempts `j + 1` and `j + 2` there is
  -- a pause of `b` doubled `j` times, or of `m` where that is more.
  unfoldable pub paced : ℕ → ℕ → ℕ → net.World → net.World
  paced b m zero world = world
  paced b m (suc k) world =
      net.sleep (pos (min m (b * 2 ^ k))) (operation options.timeout (paced b m k world)).1

  moment-pos :
      (m : ℕ)
      → options.maximum_backoff ≡ pos m
      → m < 2 ^ 62
      → (k b : ℕ) (world : net.World) → b ≤ m
      → (moment options operation k (pos b) world).0 ≡ pos (min m (b * 2 ^ k))
  unfolding moment
  moment-pos m limit small zero b world h = ap pos (omega arith)
  moment-pos m limit small (suc k) b world h =
      let later = net.sleep (pos b) (operation options.timeout world).1 in
      ap (λ (i : ℤ). (moment options operation k i later).0)
        (ap (λ (l : ℤ). next_backoff l (pos b)) limit ∙ next_backoff-pos m b h small)
      ∙ moment-pos m limit small k (min m (b * 2)) later (omega arith)
      ∙ ap pos
          (min-double m (b * 2) (2 ^ k) (one-le-pow k 2 (omega arith)) ∙ ap (min m) (pow-suc b k))

  moment-suc :
      (k : ℕ) (backoff : ℤ) (world : net.World)
      → (moment options operation (suc k) backoff world).1
        ≡ net.sleep
            (moment options operation k backoff world).0
            (operation options.timeout (moment options operation k backoff world).1).1
  unfolding moment
  moment-suc zero backoff world = refl
  moment-suc (suc k) backoff world =
      moment-suc k (next_backoff options.maximum_backoff backoff)
        (net.sleep backoff (operation options.timeout world).1)

  moment-paced :
      (b m : ℕ) (world : net.World)
      → options.maximum_backoff ≡ pos m
      → m < 2 ^ 62
      → b ≤ m
      → (k : ℕ) → (moment options operation k (pos b) world).1 ≡ paced b m k world
  unfolding moment paced
  moment-paced b m world limit small h zero = refl
  moment-paced b m world limit small h (suc k) =
      moment-suc k (pos b) world
      ∙ ap
          (λ (i : ℤ).
            net.sleep i (operation options.timeout (moment options operation k (pos b) world).1).1)
          (moment-pos m limit small k b world h)
      ∙ ap (λ w. net.sleep (pos (min m (b * 2 ^ k))) (operation options.timeout w).1)
          (moment-paced b m world limit small h k)

  initial_is_least :
      (b m : ℕ)
      → validate_options options ≡ ok tt
      → options.initial_backoff ≡ pos b
      → options.maximum_backoff ≡ pos m
      → b ≤ m
  unfolding validate_options options_are_invalid
  initial_is_least b m valid start limit = ground arith

  -- With valid options, the initial backoff `b` and the maximum `m` below 2 ^ 62, the loop answers with
  -- some attempt `last + 1`, at most the last one that the options allow, and by then it has paused
  -- `last` times: after the attempt `j + 1` for `b` doubled `j` times, or for `m` where that is more.
  pub invoke_with_retry-paced :
      (b m : ℕ) (world : net.World)
      → validate_options options ≡ ok tt
      → options.initial_backoff ≡ pos b
      → options.maximum_backoff ≡ pos m
      → m < 2 ^ 62
      → (last : ℕ) × (1 + last ≤ options.max_attempts)
        × (invoke_with_retry options operation world
            ≡ returns
                (record {
                  status = (operation options.timeout (paced b m last world)).0.0;
                  response = (operation options.timeout (paced b m last world)).0.1;
                  attempts = 1 + last;
                })
                (operation options.timeout (paced b m last world)).1)
  invoke_with_retry-paced b m world valid start limit small =
      let e = invoke_with_retry-Ends options operation world valid in
      let same =
        ap (λ i. (moment options operation e.last i world).1) start
        ∙ moment-paced b m world limit small (initial_is_least b m valid start limit) e.last in
      (
        e.last,
        e.in_time,
        e.result
            ∙ ap
                (λ w.
                  returns
                    (record {
                      status = (operation options.timeout w).0.0;
                      response = (operation options.timeout w).0.1;
                      attempts = 1 + e.last;
                    })
                    (operation options.timeout w).1)
                same,
      )
