-- ===== src/Program.antt =====
-- src/main.cpp: the choice of what the program does, and the probe of a node; and `state_name` of
-- src/node/node_runtime.cpp. What is printed is a value.
pub mod Probe
use Prim.Native.String.{String}
use fault_tolerant_kv_store.Prelude.{
  ℕ, Option, none, some, Bool, true, false, ◌||◌, List, [], ◌∷◌, ◌≡◌, refl, ap, ◌∙◌, if◌then◌else◌,
  Bool-cases, inl, inr,
}
use fault_tolerant_kv_store.Prelude.Int.{pos}
use fault_tolerant_kv_store.Status.{Status}
use fault_tolerant_kv_store.Exec.{Exec, Exception, Outcome, returns, throws, undefined, ◌>>=◌, pure}
use fault_tolerant_kv_store.Result.{Result, ok, err}
use fault_tolerant_kv_store.Bytes.{Bytes, bytes_eq}
use fault_tolerant_kv_store.Raft.Types.{NodeState, follower, candidate, leader, NodeSnapshot}
use fault_tolerant_kv_store.Rpc.Retry.{GrpcClientOptions, Network}
use fault_tolerant_kv_store.Rpc.Client.{Channel, GrpcClient, client_for}
use fault_tolerant_kv_store.Rpc.RaftClient.{status}

abbrev pub state_name : NodeState → String
state_name follower = "follower"
state_name candidate = "candidate"
state_name leader = "leader"

abbrev pub or_zero : Option ℕ → ℕ
or_zero none = 0
or_zero (some id) = id

-- The fields of the line that `print_status` writes.
pub record StatusLine : Type 0 where
  pub node_id : ℕ
  pub state : String
  pub term : ℕ
  pub leader_id : ℕ
  pub commit_index : ℕ
  pub last_applied : ℕ
  pub last_log_index : ℕ

unfoldable pub status_line : NodeSnapshot → StatusLine
status_line s = record {
  node_id = s.node_id;
  state = state_name s.state;
  term = s.current_term;
  leader_id = or_zero s.leader_id;
  commit_index = s.commit_index;
  last_applied = s.last_applied;
  last_log_index = s.last_log_index;
}

abbrev pub version_flag : Bytes
version_flag = b'-' ∷ b'-' ∷ b'v' ∷ b'e' ∷ b'r' ∷ b's' ∷ b'i' ∷ b'o' ∷ b'n' ∷ []

abbrev pub healthcheck_flag : Bytes
healthcheck_flag =
    b'-' ∷ b'-' ∷ b'h' ∷ b'e' ∷ b'a' ∷ b'l' ∷ b't' ∷ b'h' ∷ b'c' ∷ b'h' ∷ b'e' ∷ b'c' ∷ b'k' ∷ []

abbrev pub status_flag : Bytes
status_flag = b'-' ∷ b'-' ∷ b's' ∷ b't' ∷ b'a' ∷ b't' ∷ b'u' ∷ b's' ∷ []

abbrev pub probe_options : GrpcClientOptions
probe_options = record {
  timeout = pos 500;
  max_attempts = 2;
  initial_backoff = pos 25;
  maximum_backoff = pos 50;
}

-- What a run of the program prints on its standard output, besides the lines of the node.
pub data Output : Type 0 where
  nothing version usage : Output
  status_of_node : StatusLine → Output
  error_line : Exception → Output

abbrev pub success : ℕ
success = 0

abbrev pub failure : ℕ
failure = 1

module _ ⦃net : Network⦄ where
  abbrev pub printed : Bytes → NodeSnapshot → Output × ℕ
  printed mode answer =
      (if bytes_eq mode status_flag then status_of_node (status_line answer) else nothing, success)

  abbrev pub probe_with : Result GrpcClient → Bytes → Exec net.World (Output × ℕ)
  probe_with (err e) mode world = throws e world
  probe_with (ok client) mode world = (status client >>= λ answer. pure (printed mode answer)) world

  -- `create` is `grpc::CreateChannel`.
  unfoldable pub run_probe : (Bytes → Option Channel) → Bytes → Bytes → Exec net.World (Output × ℕ)
  unfolding status client_for status_line
  run_probe create mode target = probe_with (client_for create target probe_options) mode

  -- `node` stands for `run_node`: what becomes of the runtime that it makes, starts and waits in.
  abbrev pub node_ended : Exec net.World (Unit {0}) → Exec net.World (Output × ℕ)
  node_ended node = do _ ← node; pure (nothing, success)

  -- The body of the `try` block, on the arguments behind the program's name.
  unfoldable pub chosen :
      Exec net.World (Unit {0})
      → (Bytes → Option Channel)
      → List Bytes
      → Exec net.World (Output × ℕ)
  unfolding run_probe
  chosen node create [] = node_ended node
  chosen node create (flag ∷ []) =
      if bytes_eq flag version_flag then pure (version, success) else pure (usage, failure)
  chosen node create (flag ∷ target ∷ []) =
      if bytes_eq flag healthcheck_flag || bytes_eq flag status_flag
      then run_probe create flag target
      else pure (usage, failure)
  chosen node create _ = pure (usage, failure)

  abbrev pub caught : Outcome net.World (Output × ℕ) → Outcome net.World (Output × ℕ)
  caught (throws e world) = returns (error_line e, failure) world
  caught r = r

  unfoldable pub main :
      Exec net.World (Unit {0})
      → (Bytes → Option Channel)
      → List Bytes
      → Exec net.World (Output × ℕ)
  unfolding chosen
  main node create arguments world = caught (chosen node create arguments world)
