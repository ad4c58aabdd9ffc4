-- ===== src/Runtime/PeerLaws.antt =====
-- `parse_peers` and `raft_config` of src/node/node_runtime.cpp.
use Prim.Native.String.{String}
use fault_tolerant_kv_store.Prelude.{
  ℕ, ◌^◌, ◌<◌, ◌≡◌, refl, subst, inl, inr, Option, none, some, false, ◌||◌, List, [], ◌∷◌, leb,
  ◌==◌, arith, Bool-cases, if_either, or_false_right,
}
use fault_tolerant_kv_store.Result.{ok, err}
use fault_tolerant_kv_store.Bytes.{Bytes}
use fault_tolerant_kv_store.Decimal.{scan, from_chars, split_first, starts_with_digit, in_range}
use fault_tolerant_kv_store.Raft.Types.{NodeId}
use fault_tolerant_kv_store.Runtime.Configuration.{
  Peers, is_empty, parsed, parse_uint64, emplace, added, add_peer, read_pair, read_split, read_peer,
  items_of, read_peers, some_peers, parse_peers,
}
use fault_tolerant_kv_store.Runtime.PeerOrder.{
  IsSorted, AreRemote, OnSome, OnOk, OnOk->>=, OnSome-both, emplace-IsSorted, emplace-AreRemote,
}

-- What the loop keeps.
abbrev AreGood : NodeId → Peers → Type 0
AreGood local peers = IsSorted peers × AreRemote local peers

added-OnOk : (P : Peers → Type 0) (o : Option Peers) → OnSome P o → OnOk P (added o)
added-OnOk P none h = tt
added-OnOk P (some peers) h = h

add_peer-AreGood :
    (local id : NodeId) (endpoint : Bytes) (peers : Peers)
    → (id < 2 ^ 64) × (is_empty endpoint ≡ false)
    → AreGood local peers
    → OnOk (AreGood local) (add_peer local id endpoint peers)
unfolding add_peer
add_peer-AreGood local id endpoint peers (bound, there) (sorted, remote) =
    elim (Bool-cases (id == local)) [
      | inl same ↦ rw same tt
      | inr other ↦ rw other (
          added-OnOk (AreGood local) (emplace id endpoint peers) (
            OnSome-both IsSorted (AreRemote local) (emplace id endpoint peers)
              (emplace-IsSorted id endpoint peers sorted)
              (emplace-AreRemote id endpoint local peers (ground arith, bound, there) remote)))
    ]

in_range-bound : (r : ℕ × Bytes) → OnSome (λ x. x.0 < 2 ^ 64) (in_range (2 ^ 64) r)
in_range-bound r = elim (Bool-cases (leb (2 ^ 64) r.0)) [
  | inl large ↦ rw large tt
  | inr small ↦ rw small (ground arith)
]

from_chars-bound : (text : Bytes) → OnSome (λ x. x.0 < 2 ^ 64) (from_chars (2 ^ 64) text)
unfolding from_chars
from_chars-bound text =
    if_either (OnSome (λ x. x.0 < 2 ^ 64)) (starts_with_digit text)
      (in_range (2 ^ 64) (scan 0 text)) none (in_range-bound (scan 0 text)) tt

parsed-OnOk :
    {A : Type 0} (P : A → Type 0) (name : String) (o : Option (A × Bytes))
    → OnSome (λ x. P x.0) o
    → OnOk P (parsed name o)
unfolding parsed
parsed-OnOk P name none h = tt
parsed-OnOk P name (some (a, rest)) h = if_either (OnOk P) (is_empty rest) (ok a) (err _) h tt

read_pair-AreGood :
    (local : NodeId) (before after : Bytes) (peers : Peers)
    → AreGood local peers
    → OnOk (AreGood local) (read_pair local before after peers)
unfolding read_pair parse_uint64
read_pair-AreGood local before after peers good =
    elim (Bool-cases (is_empty before || is_empty after)) [
      | inl missing ↦ rw missing tt
      | inr there ↦ rw there (
          OnOk->>= (λ id. id < 2 ^ 64) (AreGood local) (λ id. add_peer local id after peers)
            (parsed "FTKV_PEERS" (from_chars (2 ^ 64) before))
            (parsed-OnOk (λ id. id < 2 ^ 64) "FTKV_PEERS" (from_chars (2 ^ 64) before)
              (from_chars-bound before))
            (λ id bound.
              add_peer-AreGood local id after peers
                (bound, or_false_right (is_empty before) (is_empty after) there) good))
    ]

read_split-AreGood :
    (local : NodeId) (peers : Peers) (o : Option (Bytes × Bytes))
    → AreGood local peers
    → OnOk (AreGood local) (read_split local peers o)
unfolding read_split
read_split-AreGood local peers none good = tt
read_split-AreGood local peers (some (before, after)) good =
    read_pair-AreGood local before after peers good

read_peer-AreGood :
    (local : NodeId) (item : Bytes) (peers : Peers)
    → AreGood local peers
    → OnOk (AreGood local) (read_peer local item peers)
unfolding read_peer
read_peer-AreGood local item peers good = read_split-AreGood local peers (split_first 61 item) good

read_peers-AreGood :
    (local : NodeId) (items : List Bytes) (peers : Peers)
    → AreGood local peers
    → OnOk (AreGood local) (read_peers local items peers)
unfolding read_peers
read_peers-AreGood local [] peers good = good
read_peers-AreGood local (item ∷ items) peers good =
    OnOk->>= (AreGood local) (AreGood local) (λ more. read_peers local items more)
      (read_peer local item peers) (read_peer-AreGood local item peers good)
      (λ more h. read_peers-AreGood local items more h)

some_peers-OnOk :
    (P : Peers → Type 0) (peers : Peers)
    → P peers
    → OnOk (λ qs. P qs × (is_empty qs ≡ false)) (some_peers peers)
some_peers-OnOk P [] h = tt
some_peers-OnOk P (peer ∷ peers) h = (h, refl)

-- A list of peers that is accepted is in the order of its ids, each once, and not empty; each peer is
-- another node than the local one, with a 64-bit id and an endpoint.
pub parse_peers-AreGood :
    (value : Bytes) (local : NodeId) (peers : Peers)
    → parse_peers value local ≡ ok peers
    → IsSorted peers × AreRemote local peers × (is_empty peers ≡ false)
unfolding parse_peers IsSorted AreRemote
parse_peers-AreGood value local peers e =
    let (good, there) = subst (OnOk (λ qs. AreGood local qs × (is_empty qs ≡ false))) e (
      OnOk->>= (AreGood local) (λ qs. AreGood local qs × (is_empty qs ≡ false)) some_peers
        (read_peers local (items_of value) [])
        (read_peers-AreGood local (items_of value) [] (tt, tt))
        (λ qs h. some_peers-OnOk (AreGood local) qs h)) in
    (good.0, good.1, there)
