-- ===== src/Runtime/Configuration.antt =====
-- src/node/node_runtime.cpp and src/node/node_runtime.h: the configuration of a node from its
-- environment. `std::getenv` is a parameter; the characters ',' and '=' are 44 and 61.
use Prim.Native.Nat.{bit_xor}
use Prim.Native.String.{String, ◌++◌}
use fault_tolerant_kv_store.Prelude.{
  ℕ, ◌^◌, Option, none, some, Bool, true, false, ◌||◌, List, [], ◌∷◌, ltb, ◌==◌, if◌then◌else◌,
}
use fault_tolerant_kv_store.Prelude.Int.{ℤ, pos}
use fault_tolerant_kv_store.Exec.{invalid_argument}
use fault_tolerant_kv_store.Result.{Result, ok, err, ◌>>=◌}
use fault_tolerant_kv_store.Bytes.{Bytes}
use fault_tolerant_kv_store.Decimal.{from_chars, from_chars_int64, split_first}
use fault_tolerant_kv_store.Raft.Types.{NodeId, RaftConfig}

-- `std::map<raft::NodeId, std::string>`, in the order of its keys.
abbrev pub Peers : Type 0
Peers = List (NodeId × Bytes)

pub record NodeRuntimeConfig : Type 0 where
  pub node_id : NodeId
  pub listen_address : Bytes
  pub data_directory : Bytes
  pub peers : Peers
  pub election_timeout_min : ℤ
  pub election_timeout_max : ℤ
  pub heartbeat_interval : ℤ

-- The variables of the environment that are read.
pub data Variable : Type 0 where
  node_id_variable listen_address_variable data_dir_variable peers_variable : Variable
  election_timeout_min_variable election_timeout_max_variable heartbeat_interval_variable : Variable

abbrev pub name_of : Variable → String
name_of node_id_variable = "FTKV_NODE_ID"
name_of listen_address_variable = "FTKV_LISTEN_ADDRESS"
name_of data_dir_variable = "FTKV_DATA_DIR"
name_of peers_variable = "FTKV_PEERS"
name_of election_timeout_min_variable = "FTKV_ELECTION_TIMEOUT_MIN_MS"
name_of election_timeout_max_variable = "FTKV_ELECTION_TIMEOUT_MAX_MS"
name_of heartbeat_interval_variable = "FTKV_HEARTBEAT_INTERVAL_MS"

abbrev pub Environment : Type 0
Environment = Variable → Option Bytes

abbrev pub is_empty : {A : Type 0} → List A → Bool
is_empty [] = true
is_empty (x ∷ xs) = false

abbrev pub present : Variable → Bytes → Result Bytes
present variable value =
    if is_empty value
    then err (invalid_argument ("missing environment variable: " ++ name_of variable))
    else ok value

unfoldable pub require_environment : Environment → Variable → Result Bytes
require_environment environment variable = elim (environment variable) [
  | none ↦ err (invalid_argument ("missing environment variable: " ++ name_of variable))
  | some value ↦ present variable value
]

-- An error, or characters behind the integer, are refused.
unfoldable pub parsed : {A : Type 0} → String → Option (A × Bytes) → Result A
parsed name none = err (invalid_argument ("invalid integer for " ++ name))
parsed name (some (value, rest)) =
    if is_empty rest then ok value else err (invalid_argument ("invalid integer for " ++ name))

unfoldable pub parse_uint64 : Bytes → String → Result ℕ
unfolding parsed from_chars
parse_uint64 value name = parsed name (from_chars (2 ^ 64) value)

unfoldable pub parse_int64 : Bytes → String → Result ℤ
unfolding parsed from_chars_int64
parse_int64 value name = parsed name (from_chars_int64 value)

unfoldable pub environment_duration : Environment → Variable → ℤ → Result ℤ
unfolding parse_int64
environment_duration environment variable fallback = elim (environment variable) [
  | none ↦ ok fallback
  | some value ↦ parse_int64 value (name_of variable)
]

-- `std::map::emplace`; `none` if the key is there.
unfoldable pub emplace : NodeId → Bytes → Peers → Option Peers
emplace id endpoint [] = some ((id, endpoint) ∷ [])
emplace id endpoint ((j, e) ∷ peers) =
    let rest = emplace id endpoint peers in
    if id == j
    then none
    else if ltb id j
    then some ((id, endpoint) ∷ (j, e) ∷ peers)
    else elim rest [ none ↦ none | some more ↦ some ((j, e) ∷ more) ]

abbrev pub added : Option Peers → Result Peers
added none = err (invalid_argument "FTKV_PEERS contains a duplicate or local node ID")
added (some peers) = ok peers

unfoldable pub add_peer : NodeId → NodeId → Bytes → Peers → Result Peers
unfolding emplace
add_peer local id endpoint peers =
    if id == local
    then err (invalid_argument "FTKV_PEERS contains a duplicate or local node ID")
    else added (emplace id endpoint peers)

unfoldable pub read_pair : NodeId → Bytes → Bytes → Peers → Result Peers
unfolding parse_uint64 add_peer
read_pair local before after peers =
    if is_empty before || is_empty after
    then err (invalid_argument "FTKV_PEERS must use id=host:port entries")
    else parse_uint64 before "FTKV_PEERS" >>= λ id. add_peer local id after peers

unfoldable pub read_split : NodeId → Peers → Option (Bytes × Bytes) → Result Peers
unfolding read_pair
read_split local peers none = err (invalid_argument "FTKV_PEERS must use id=host:port entries")
read_split local peers (some (before, after)) = read_pair local before after peers

unfoldable pub read_peer : NodeId → Bytes → Peers → Result Peers
unfolding split_first read_split
read_peer local item peers = read_split local peers (split_first 61 item)

abbrev pub in_front : ℕ → List Bytes → List Bytes
in_front c [] = (c ∷ []) ∷ []
in_front c (item ∷ items) = (c ∷ item) ∷ items

-- The items that the loop takes: what stands between the delimiters, up to the end of the value. A
-- delimiter at the very end has no item behind it.
unfoldable pub items_of : Bytes → List Bytes
items_of [] = []
items_of (c ∷ cs) = if c == 44 then [] ∷ items_of cs else in_front c (items_of cs)

unfoldable pub read_peers : NodeId → List Bytes → Peers → Result Peers
unfolding read_peer
read_peers local [] peers = ok peers
read_peers local (item ∷ items) peers =
    read_peer local item peers >>= λ more. read_peers local items more

abbrev pub some_peers : Peers → Result Peers
some_peers [] = err (invalid_argument "FTKV_PEERS must contain at least one peer")
some_peers (peer ∷ peers) = ok (peer ∷ peers)

unfoldable pub parse_peers : Bytes → NodeId → Result Peers
unfolding read_peers items_of
parse_peers value local = read_peers local (items_of value) [] >>= some_peers

unfoldable pub from_environment : Environment → Result NodeRuntimeConfig
unfolding require_environment parse_uint64 parse_peers environment_duration
from_environment environment = do
  id_text ← require_environment environment node_id_variable
  node_id ← parse_uint64 id_text "FTKV_NODE_ID"
  listen_address ← require_environment environment listen_address_variable
  data_directory ← require_environment environment data_dir_variable
  peers_text ← require_environment environment peers_variable
  peers ← parse_peers peers_text node_id
  election_min ← environment_duration environment election_timeout_min_variable (pos 300)
  election_max ← environment_duration environment election_timeout_max_variable (pos 500)
  heartbeat ← environment_duration environment heartbeat_interval_variable (pos 100)
  ok (record {
    node_id = node_id;
    listen_address = listen_address;
    data_directory = data_directory;
    peers = peers;
    election_timeout_min = election_min;
    election_timeout_max = election_max;
    heartbeat_interval = heartbeat;
  })

unfoldable pub peer_ids : Peers → List NodeId
peer_ids [] = []
peer_ids ((id, endpoint) ∷ peers) = id ∷ peer_ids peers

-- `0x72616674` is the seed of a default `RaftConfig`.
unfoldable pub raft_config : NodeRuntimeConfig → RaftConfig
unfolding peer_ids
raft_config c = record {
  node_id = c.node_id;
  peers = peer_ids c.peers;
  election_timeout_min = c.election_timeout_min;
  election_timeout_max = c.election_timeout_max;
  heartbeat_interval = c.heartbeat_interval;
  random_seed = bit_xor 0x72616674 c.node_id;
}
