-- ===== src/Runtime/PeersUnique.antt =====
-- `raft_config` of src/node/node_runtime.cpp, on what `from_environment` has read.
use Prim.Native.String.{◌++◌}
use fault_tolerant_kv_store.Prelude.{
  ◌≡◌, refl, ap, subst, ◌∙◌, none, some, false, ◌||◌, List, [], ◌∷◌, if◌then◌else◌, arith, contains,
  insert,
}
use fault_tolerant_kv_store.Prelude.Sets.{contains-insert}
use fault_tolerant_kv_store.Prelude.Int.{pos}
use fault_tolerant_kv_store.Exec.{invalid_argument}
use fault_tolerant_kv_store.Result.{Result, ok, err, ◌>>=◌}
use fault_tolerant_kv_store.Bytes.{Bytes}
use fault_tolerant_kv_store.Raft.Types.{NodeId}
use fault_tolerant_kv_store.Raft.Construction.{has_duplicate, timing_is_invalid, validate_config}
use fault_tolerant_kv_store.Runtime.Configuration.{
  Variable, name_of, node_id_variable, listen_address_variable, data_dir_variable, peers_variable,
  election_timeout_min_variable, election_timeout_max_variable, heartbeat_interval_variable,
  present, Peers, NodeRuntimeConfig, is_empty, parse_uint64, parse_peers, peer_ids, raft_config,
  Environment, require_environment, environment_duration, from_environment,
}
use fault_tolerant_kv_store.Runtime.PeerLaws.{parse_peers-AreGood}
use fault_tolerant_kv_store.Runtime.PeerOrder.{AreAbove, IsSorted, AreRemote, OnOk, OnOk->>=}

-- No peer is in the set.
unfoldable AreFresh : List NodeId → Peers → Type 0
AreFresh members [] = Unit {0}
AreFresh members ((id, endpoint) ∷ peers) = (contains members id ≡ false) × AreFresh members peers

insert-AreFresh :
    (members : List NodeId) (id : NodeId) (peers : Peers)
    → AreAbove id peers
    → AreFresh members peers
    → AreFresh (insert members id) peers
unfolding AreFresh AreAbove
insert-AreFresh members id [] above fresh = tt
insert-AreFresh members id ((j, e) ∷ peers) (h, hs) (k, ks) =
    (ground (arith, contains-insert members id j), insert-AreFresh members id peers hs ks)

has_duplicate-AreFresh :
    (members : List NodeId) (peers : Peers)
    → IsSorted peers
    → AreFresh members peers
    → has_duplicate members (peer_ids peers) ≡ false
unfolding has_duplicate peer_ids IsSorted AreFresh
has_duplicate-AreFresh members [] sorted fresh = refl
has_duplicate-AreFresh members ((id, e) ∷ peers) (above, sorted) (new, fresh) =
    ap (λ b. b || has_duplicate (insert members id) (peer_ids peers)) new
    ∙ has_duplicate-AreFresh (insert members id) peers sorted
        (insert-AreFresh members id peers above fresh)

AreRemote-AreFresh :
    (local : NodeId) (peers : Peers) → AreRemote local peers → AreFresh (local ∷ []) peers
unfolding AreRemote AreFresh contains
AreRemote-AreFresh local [] h = tt
AreRemote-AreFresh local ((id, e) ∷ peers) ((other, bound, there), hs) =
    (ground arith, AreRemote-AreFresh local peers hs)

-- The peers are those of a Raft configuration that is accepted, and have endpoints.
abbrev pub ArePeers : NodeId → Peers → Type 0
ArePeers local peers = (has_duplicate (local ∷ []) (peer_ids peers) ≡ false) × AreRemote local peers

parse_peers-OnOk :
    (value : Bytes) (local : NodeId) → OnOk (ArePeers local) (parse_peers value local)
parse_peers-OnOk value local = go (parse_peers value local) refl
  where
    go : (r : Result Peers) → parse_peers value local ≡ r → OnOk (ArePeers local) r
    go (err x) e = tt
    go (ok peers) e =
        let good = parse_peers-AreGood value local peers e in
        (
          has_duplicate-AreFresh (local ∷ []) peers good.0 (AreRemote-AreFresh local peers good.1),
          good.1,
        )

require_environment-OnOk :
    (environment : Environment) (variable : Variable)
    → OnOk (λ value. is_empty value ≡ false) (require_environment environment variable)
unfolding require_environment
require_environment-OnOk environment variable =
    elim (environment variable)
      as (λ o.
        OnOk (λ value. is_empty value ≡ false)
          (elim o [
            | none ↦ err (invalid_argument ("missing environment variable: " ++ name_of variable))
            | some value ↦ present variable value
          ])) [ none ↦ tt | some [] ↦ tt | some (c ∷ cs) ↦ refl ]

pub OnOk-then :
    {A B : Type 0} (Q : B → Type 0) (f : A → Result B) (r : Result A)
    → ((a : A) → OnOk Q (f a))
    → OnOk Q (r >>= f)
OnOk-then Q f (err e) k = tt
OnOk-then Q f (ok a) k = k a

-- What holds of a configuration from the environment.
pub record IsReady (c : NodeRuntimeConfig) : Type 0 where
  pub listens : is_empty c.listen_address ≡ false
  pub stores : is_empty c.data_directory ≡ false
  pub unique : has_duplicate (c.node_id ∷ []) (peer_ids c.peers) ≡ false
  pub remote : AreRemote c.node_id c.peers

from_environment-OnOk : (environment : Environment) → OnOk IsReady (from_environment environment)
unfolding from_environment
from_environment-OnOk environment =
    let read = require_environment-OnOk environment in
    OnOk-then IsReady _ (require_environment environment node_id_variable) λ id_text.
      OnOk-then IsReady _ (parse_uint64 id_text "FTKV_NODE_ID") λ node_id.
        OnOk->>= _ IsReady _ (require_environment environment listen_address_variable)
          (read listen_address_variable)
          λ address listens.
            OnOk->>= _ IsReady _ (require_environment environment data_dir_variable)
              (read data_dir_variable)
              λ directory stores.
                OnOk-then IsReady _ (require_environment environment peers_variable) λ peers_text.
                  OnOk->>= _ IsReady _ (parse_peers peers_text node_id)
                    (parse_peers-OnOk peers_text node_id)
                    λ peers good.
                      OnOk-then IsReady _
                        (environment_duration environment election_timeout_min_variable (pos 300))
                        λ a.
                          OnOk-then IsReady _
                            (environment_duration environment election_timeout_max_variable
                              (pos 500))
                            λ b.
                              OnOk-then IsReady _
                                (environment_duration environment heartbeat_interval_variable
                                  (pos 100))
                                λ c. record {
                                  listens = listens;
                                  stores = stores;
                                  unique = good.0;
                                  remote = good.1;
                                }

pub from_environment-IsReady :
    (environment : Environment) (c : NodeRuntimeConfig)
    → from_environment environment ≡ ok c
    → IsReady c
from_environment-IsReady environment c e =
    subst (OnOk IsReady) e (from_environment-OnOk environment)

-- A configuration that was read from the environment passes the node's check, or fails it for its
-- timing.
pub validate_config-from_environment :
    (environment : Environment) (c : NodeRuntimeConfig)
    → from_environment environment ≡ ok c
    → validate_config (raft_config c) ≡ (
        if timing_is_invalid (raft_config c)
        then err (invalid_argument "invalid Raft timing configuration")
        else ok tt)
unfolding validate_config raft_config
validate_config-from_environment environment c e =
    rw (from_environment-IsReady environment c e).unique refl
