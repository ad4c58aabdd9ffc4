-- ===== src/Rpc/Handler.antt =====
-- src/grpc/grpc_server.cpp: what becomes of the outcome of a handler. The two answers of `IsCancelled`
-- are parameters.
use fault_tolerant_kv_store.Prelude.{Bool, if◌then◌else◌}
use fault_tolerant_kv_store.Status.{
  Status, ok_status, cancelled, invalid_argument_code, failed_precondition, internal,
}
use fault_tolerant_kv_store.Rpc.ErrorText.{Texts, error_text}
use fault_tolerant_kv_store.Exec.{
  Exec, Exception, Outcome, returns, throws, undefined, invalid_argument, raft_error, storage_error,
  out_of_range, logic_error, runtime_error, grpc_error,
}

abbrev pub cancelled_before : Status
cancelled_before = record { code = cancelled; message = "request was cancelled" }

abbrev pub cancelled_after : Status
cancelled_after = record { code = cancelled; message = "request deadline elapsed" }

module _ ⦃texts : Texts⦄ where
  -- The handlers of the exceptions.
  unfoldable pub status_of : Exception → Status
  status_of (invalid_argument text) = record { code = invalid_argument_code; message = text }
  status_of (raft_error text) = record { code = failed_precondition; message = text }
  status_of (storage_error text) = record { code = internal; message = text }
  status_of out_of_range = record { code = internal; message = texts.out_of_range_text }
  status_of (logic_error text) = record { code = internal; message = text }
  status_of (runtime_error text) = record { code = internal; message = text }
  status_of (grpc_error operation status attempts) = record {
    code = internal;
    message = error_text operation status attempts;
  }

  -- The `try` block, and the handlers behind it. `blank` is the response that was not written to.
  unfoldable pub conclude : {S R : Type 0} → Bool → R → Outcome S R → Outcome S (Status × R)
  unfolding status_of
  conclude late blank (returns response s) =
      returns (if late then cancelled_after else ok_status, response) s
  conclude late blank (throws e s) = returns (status_of e, blank) s
  conclude late blank undefined = undefined

  unfoldable pub run_handler : {S R : Type 0} → Bool → Bool → R → Exec S R → Exec S (Status × R)
  unfolding conclude
  run_handler early late blank operation =
      λ s. if early then returns (cancelled_before, blank) s else conclude late blank (operation s)
