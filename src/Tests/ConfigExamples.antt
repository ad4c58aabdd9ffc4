-- ===== src/Tests/ConfigExamples.antt =====
-- The theorems on the configuration at a concrete environment.
use fault_tolerant_kv_store.Prelude.{◌≡◌, refl, none, some, [], ◌∷◌, false, arith, if◌then◌else◌}
use fault_tolerant_kv_store.Prelude.Int.{pos}
use fault_tolerant_kv_store.Exec.{invalid_argument}
use fault_tolerant_kv_store.Result.{ok, err}
use fault_tolerant_kv_store.Bytes.{Bytes}
use fault_tolerant_kv_store.Decimal.{Lacks}
use fault_tolerant_kv_store.Raft.Construction.{validate_config, timing_is_invalid}
use fault_tolerant_kv_store.Runtime.Configuration.{
  node_id_variable, listen_address_variable, data_dir_variable, peers_variable, Peers, Environment,
  NodeRuntimeConfig, is_empty, from_environment, parse_peers, raft_config,
}
use fault_tolerant_kv_store.Runtime.PeerLaws.{parse_peers-AreGood}
use fault_tolerant_kv_store.Runtime.PeerOrder.{IsSorted, AreRemote}
use fault_tolerant_kv_store.Runtime.PeerRoundTrip.{
  print_peers, AreCommaFree, parse_peers-print_peers,
}
use fault_tolerant_kv_store.Runtime.PeersUnique.{validate_config-from_environment}
use fault_tolerant_kv_store.Tests.Cluster.{platform}

-- "2=a"
abbrev peers_text : Bytes
peers_text = b'2' ∷ b'=' ∷ b'a' ∷ []

abbrev pub one_peer : Peers
one_peer = (2, b'a' ∷ []) ∷ []

peers_read : parse_peers peers_text 1 ≡ ok one_peer
unfolding parse_peers
peers_read = refl

parse_peers-AreGood_example : IsSorted one_peer × AreRemote 1 one_peer × (is_empty one_peer ≡ false)
parse_peers-AreGood_example = parse_peers-AreGood peers_text 1 one_peer peers_read

abbrev two_peers : Peers
two_peers = (2, b'a' ∷ []) ∷ (13, b'b' ∷ b':' ∷ []) ∷ []

two_peers-IsSorted : IsSorted two_peers
unfolding IsSorted
two_peers-IsSorted = ((omega arith, tt), (tt, tt))

two_peers-AreRemote : AreRemote 1 two_peers
unfolding AreRemote
two_peers-AreRemote = ((omega arith, omega arith, refl), ((omega arith, omega arith, refl), tt))

two_peers-AreCommaFree : AreCommaFree two_peers
unfolding AreCommaFree Lacks
two_peers-AreCommaFree = ((refl, tt), ((refl, (refl, tt)), tt))

parse_peers-print_peers_example : parse_peers (print_peers two_peers) 1 ≡ ok two_peers
parse_peers-print_peers_example =
    parse_peers-print_peers 1 two_peers two_peers-IsSorted two_peers-AreRemote
      two_peers-AreCommaFree refl

abbrev pub environment : Environment
environment node_id_variable = some (b'1' ∷ [])
environment listen_address_variable = some (b'h' ∷ [])
environment data_dir_variable = some (b'd' ∷ [])
environment peers_variable = some peers_text
environment _ = none

abbrev pub config : NodeRuntimeConfig
config = record {
  node_id = 1;
  listen_address = b'h' ∷ [];
  data_directory = b'd' ∷ [];
  peers = one_peer;
  election_timeout_min = pos 300;
  election_timeout_max = pos 500;
  heartbeat_interval = pos 100;
}

pub config_read : from_environment environment ≡ ok config
unfolding from_environment
config_read = refl

validate_config-from_environment_example : validate_config (raft_config config) ≡ (
    if timing_is_invalid (raft_config config)
    then err (invalid_argument "invalid Raft timing configuration")
    else ok tt)
validate_config-from_environment_example =
    validate_config-from_environment environment config config_read
