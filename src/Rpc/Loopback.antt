-- ===== src/Rpc/Loopback.antt =====
-- src/grpc/grpc_client.cpp with src/grpc/grpc_server.cpp: a client whose calls reach the handlers.
pub mod Store
pub mod Raft
pub mod LostReply
use Prim.Native.String.{String}
use fault_tolerant_kv_store.Prelude.{
  ℕ, zero, suc, ◌+◌, Bool, true, false, ◌||◌, not, ◌==◌, ◌≡◌, ◌≢◌, refl, inl, inr, ◌∙◌, ap, arith,
  if◌then◌else◌,
}
use fault_tolerant_kv_store.Prelude.Int.{ℤ}
use fault_tolerant_kv_store.Status.{Status, is_ok}
use fault_tolerant_kv_store.Exec.{
  Exec, Exception, Outcome, returns, throws, undefined, continue, ◌>>=◌, pure, Post, returned,
  thrown, grpc_error, invalid_argument, raft_error, storage_error, out_of_range, logic_error,
  runtime_error,
}
use fault_tolerant_kv_store.Result.{ok}
use fault_tolerant_kv_store.Rpc.Retry.{
  GrpcClientOptions, validate_options, InvocationResult, Network, Call, retry, invoke_with_retry,
  is_retryable,
}
use fault_tolerant_kv_store.Rpc.Retry.First.{IsFinal}
use fault_tolerant_kv_store.Rpc.Retry.Early.{invoke_with_retry_once}
use fault_tolerant_kv_store.Rpc.Client.{check_status, invoke}
use fault_tolerant_kv_store.Rpc.ErrorText.{Texts}
use fault_tolerant_kv_store.Rpc.Handler.{status_of, conclude, run_handler}

-- The world is the state of the server.
abbrev pub loopback : Type 0 → Network
loopback S = record { World = S; sleep = λ time s. s }

abbrev pub answered : {S R : Type 0} → Status → R → S → Outcome S (Status × R) → (Status × R) × S
answered lost blank s (returns reply t) = (reply, t)
answered lost blank s (throws e t) = ((lost, blank), t)
answered lost blank s undefined = ((lost, blank), s)

-- A call whose request and whose answer both arrive. A handler never throws, so that `lost` is only
-- the answer where the server's behaviour is undefined.
abbrev pub delivered : {S R : Type 0} → Status → R → Exec S (Status × R) → ℤ → S → (Status × R) × S
delivered lost blank handler time s = answered lost blank s (handler s)

abbrev pub IsDefined : {S A : Type 0} → Outcome S A → Type 0
IsDefined r = Post (λ _ _. Unit {0}) (λ _ _. Unit {0}) r

module _ ⦃texts : Texts⦄ where
  -- What a client reports of an operation of the server.
  abbrev pub reported : {S A : Type 0} → String → Outcome S A → Outcome S A
  reported name (returns a s) = returns a s
  reported name (throws e s) = throws (grpc_error name (status_of e) 1) s
  reported name undefined = undefined

  status_of-IsFinal : (e : Exception) → IsFinal (status_of e)
  unfolding status_of
  status_of-IsFinal (invalid_argument text) = inr refl
  status_of-IsFinal (raft_error text) = inr refl
  status_of-IsFinal (storage_error text) = inr refl
  status_of-IsFinal out_of_range = inr refl
  status_of-IsFinal (logic_error text) = inr refl
  status_of-IsFinal (runtime_error text) = inr refl
  status_of-IsFinal (grpc_error operation status attempts) = inr refl

  error_is_error : (e : Exception) → is_ok (status_of e) ≡ false
  unfolding status_of
  error_is_error (invalid_argument text) = refl
  error_is_error (raft_error text) = refl
  error_is_error (storage_error text) = refl
  error_is_error out_of_range = refl
  error_is_error (logic_error text) = refl
  error_is_error (runtime_error text) = refl
  error_is_error (grpc_error operation status attempts) = refl

  module _ {S R : Type 0} (lost : Status) (blank : R) where
    answered-IsFinal :
        (r : Outcome S R) (s : S)
        → IsDefined r
        → IsFinal (answered lost blank s (conclude false blank r)).0.0
    unfolding conclude
    answered-IsFinal (returns a t) s d = inl refl
    answered-IsFinal (throws e t) s d = status_of-IsFinal e
    answered-IsFinal undefined s d = elim d [ ]

    checked_reply :
        (name : String) (r : Outcome S R) (s : S)
        → IsDefined r
        → check_status ⦃net = loopback S⦄ name
            (record {
              status = (answered lost blank s (conclude false blank r)).0.0;
              response = (answered lost blank s (conclude false blank r)).0.1;
              attempts = 1;
            })
            (answered lost blank s (conclude false blank r)).1
          ≡ reported name r
    unfolding conclude check_status
    checked_reply name (returns a t) s d = refl
    checked_reply name (throws e t) s d = rw (error_is_error e) refl
    checked_reply name undefined s d = elim d [ ]

    -- A client whose calls arrive gets what the operation gives on the server.
    pub invoke-run_handler :
        (name : String) (options : GrpcClientOptions) (operation : Exec S R) (s : S)
        → validate_options options ≡ ok tt
        → IsDefined (operation s)
        → invoke ⦃net = loopback S⦄ name options
            (delivered lost blank (run_handler false false blank operation))
            s
          ≡ reported name (operation s)
    unfolding invoke run_handler
    invoke-run_handler name options operation s valid defined =
        ap (continue (check_status ⦃net = loopback S⦄ name)) (
          invoke_with_retry_once ⦃net = loopback S⦄ options
            (delivered lost blank (run_handler false false blank operation)) s valid
            (answered-IsFinal (operation s) s defined))
        ∙ checked_reply name (operation s) s defined

  module _ {S A R : Type 0} (write : A → R) (read : R → A)
      (same : (a : A) → read (write a) ≡ a) where
    there_and_back :
        (name : String) (r : Outcome S A)
        → continue (λ b. pure (read b)) (reported name (continue (λ a. pure (write a)) r))
          ≡ reported name r
    there_and_back name (returns a s) = rw (same a) refl
    there_and_back name (throws e s) = refl
    there_and_back name undefined = refl

    written-IsDefined :
        (r : Outcome S A) → IsDefined r → IsDefined (continue (λ a. pure (write a)) r)
    written-IsDefined (returns a s) d = returned tt
    written-IsDefined (throws e s) d = thrown tt
    written-IsDefined undefined d = elim d [ ]

    -- The same with a result that is written into the response and read from it.
    pub invoke-written :
        (lost : Status) (blank : R) (name : String) (options : GrpcClientOptions)
        (operation : Exec S A) (s : S)
        → validate_options options ≡ ok tt
        → IsDefined (operation s)
        → continue
            (λ b. pure (read b))
            (invoke ⦃net = loopback S⦄ name options
              (delivered lost blank
                (run_handler false false blank (operation >>= λ a. pure (write a))))
              s)
          ≡ reported name (operation s)
    invoke-written lost blank name options operation s valid defined =
        ap (continue (λ b. pure (read b))) (
          invoke-run_handler lost blank name options (operation >>= λ a. pure (write a)) s valid
            (written-IsDefined (operation s) defined))
        ∙ there_and_back name (operation s)

pub Post-IsDefined :
    {S A : Type 0} {Q : A → S → Type 0} {E : Exception → S → Type 0} {r : Outcome S A}
    → Post Q E r
    → IsDefined r
Post-IsDefined (returned h) = returned tt
Post-IsDefined (thrown h) = thrown tt

pub reported-Post :
    ⦃texts : Texts⦄ {S A : Type 0} {Q : A → S → Type 0} {E : S → Type 0} (name : String)
    {r : Outcome S A}
    → Post Q (λ _ t. E t) r
    → Post Q (λ _ t. E t) (reported name r)
reported-Post name (returned h) = returned h
reported-Post name (thrown h) = thrown h
