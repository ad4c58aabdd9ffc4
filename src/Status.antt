-- ===== src/Status.antt =====
-- The statuses of gRPC calls: the codes that the source names, and those that it does not.
use Prim.Native.Nat.{ℕ}
use Prim.Native.String.{String}
use mathlib.Core.Bool.{Bool, true, false}

pub data StatusCode : Type 0 where
  ok_code cancelled unavailable deadline_exceeded resource_exhausted aborted : StatusCode
  invalid_argument_code failed_precondition internal data_loss : StatusCode
  other_code : ℕ → StatusCode

pub record Status : Type 0 where
  pub code : StatusCode
  pub message : String

-- `Status::ok()`
abbrev pub is_ok_code : StatusCode → Bool
is_ok_code ok_code = true
is_ok_code _ = false

abbrev pub is_ok : Status → Bool
is_ok s = is_ok_code s.code

-- `grpc::Status::OK`
abbrev pub ok_status : Status
ok_status = record { code = ok_code; message = "" }
