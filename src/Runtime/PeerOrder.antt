-- ===== src/Runtime/PeerOrder.antt =====
-- The map of the peers of src/node/node_runtime.cpp, in the order of its keys.
use fault_tolerant_kv_store.Prelude.{
  ◌^◌, ◌<◌, ◌≡◌, ◌≢◌, inl, inr, Option, none, some, false, [], ◌∷◌, ltb, ◌==◌, arith, Bool-cases,
  ltb→lt, if_either,
}
use fault_tolerant_kv_store.Result.{Result, ok, err, ◌>>=◌}
use fault_tolerant_kv_store.Bytes.{Bytes}
use fault_tolerant_kv_store.Raft.Types.{NodeId}
use fault_tolerant_kv_store.Runtime.Configuration.{Peers, is_empty, emplace}

-- Every key is above the bound.
unfoldable pub AreAbove : NodeId → Peers → Type 0
AreAbove low [] = Unit {0}
AreAbove low ((id, endpoint) ∷ peers) = (low < id) × AreAbove low peers

unfoldable pub IsSorted : Peers → Type 0
unfolding AreAbove
IsSorted [] = Unit {0}
IsSorted ((id, endpoint) ∷ peers) = AreAbove id peers × IsSorted peers

-- A peer is another node, with a 64-bit id and an endpoint.
unfoldable pub AreRemote : NodeId → Peers → Type 0
AreRemote local [] = Unit {0}
AreRemote local ((id, endpoint) ∷ peers) =
    ((id ≢ local) × (id < 2 ^ 64) × (is_empty endpoint ≡ false)) × AreRemote local peers

abbrev pub OnSome : {A : Type 0} → (A → Type 0) → Option A → Type 0
OnSome P none = Unit {0}
OnSome P (some a) = P a

abbrev pub OnOk : {A : Type 0} → (A → Type 0) → Result A → Type 0
OnOk P (err e) = Unit {0}
OnOk P (ok a) = P a

OnSome-elim :
    {A B : Type 0} (P : A → Type 0) (Q : B → Type 0) (f : A → B) (o : Option A)
    → OnSome P o
    → ((a : A) → P a → Q (f a))
    → OnSome Q (elim o [ none ↦ none | some a ↦ some (f a) ])
OnSome-elim P Q f none h k = tt
OnSome-elim P Q f (some a) h k = k a h

pub OnOk->>= :
    {A B : Type 0} (P : A → Type 0) (Q : B → Type 0) (f : A → Result B) (r : Result A)
    → OnOk P r
    → ((a : A) → P a → OnOk Q (f a))
    → OnOk Q (r >>= f)
OnOk->>= P Q f (err e) h k = tt
OnOk->>= P Q f (ok a) h k = k a h

pub OnSome-both :
    {A : Type 0} (P Q : A → Type 0) (o : Option A)
    → OnSome P o
    → OnSome Q o
    → OnSome (λ a. P a × Q a) o
OnSome-both P Q none h k = tt
OnSome-both P Q (some a) h k = (h, k)

AreAbove-trans :
    (low id : NodeId) (peers : Peers) → low < id → AreAbove id peers → AreAbove low peers
unfolding AreAbove
AreAbove-trans low id [] h hs = tt
AreAbove-trans low id ((j, e) ∷ peers) h (k, ks) = (omega arith, AreAbove-trans low id peers h ks)

module _ (id : NodeId) (endpoint : Bytes) where
  emplace-AreAbove :
      (low : NodeId) (peers : Peers)
      → low < id
      → AreAbove low peers
      → OnSome (AreAbove low) (emplace id endpoint peers)
  unfolding emplace AreAbove
  emplace-AreAbove low [] h hs = (h, tt)
  emplace-AreAbove low ((j, e) ∷ peers) h (k, ks) =
      if_either (OnSome (AreAbove low)) (id == j) none _ tt (
        if_either (OnSome (AreAbove low)) (ltb id j) (some ((id, endpoint) ∷ (j, e) ∷ peers)) _
          (h, (k, ks))
          (OnSome-elim (AreAbove low) (AreAbove low) (◌∷◌ (j, e)) (emplace id endpoint peers)
            (emplace-AreAbove low peers h ks) (λ qs above. (k, above))))

  pub emplace-AreRemote :
      (local : NodeId) (peers : Peers)
      → (id ≢ local) × (id < 2 ^ 64) × (is_empty endpoint ≡ false)
      → AreRemote local peers
      → OnSome (AreRemote local) (emplace id endpoint peers)
  unfolding emplace AreRemote
  emplace-AreRemote local [] h hs = (h, tt)
  emplace-AreRemote local ((j, e) ∷ peers) h (k, ks) =
      if_either (OnSome (AreRemote local)) (id == j) none _ tt (
        if_either (OnSome (AreRemote local)) (ltb id j) (some ((id, endpoint) ∷ (j, e) ∷ peers)) _
          (h, (k, ks))
          (OnSome-elim (AreRemote local) (AreRemote local) (◌∷◌ (j, e)) (emplace id endpoint peers)
            (emplace-AreRemote local peers h ks) (λ qs remote. (k, remote))))

  beyond : (j : NodeId) → (id == j) ≡ false → ltb id j ≡ false → j < id
  beyond j h k = ground arith

  pub emplace-IsSorted :
      (peers : Peers) → IsSorted peers → OnSome IsSorted (emplace id endpoint peers)
  unfolding emplace IsSorted AreAbove
  emplace-IsSorted [] h = (tt, tt)
  emplace-IsSorted ((j, e) ∷ peers) (h, hs) = elim (Bool-cases (id == j)) [
    | inl same ↦ rw same tt
    | inr other ↦ elim (Bool-cases (ltb id j)) [
      | inl below ↦
          rw (other, below)
            ((ltb→lt id j below, AreAbove-trans id j peers (ltb→lt id j below) h), (h, hs))
      | inr above ↦
          rw (other, above)
            (OnSome-elim (λ qs. AreAbove j qs × IsSorted qs) IsSorted (◌∷◌ (j, e))
              (emplace id endpoint peers)
              (OnSome-both (AreAbove j) IsSorted (emplace id endpoint peers)
                (emplace-AreAbove j peers (beyond j other above) h) (emplace-IsSorted peers hs))
              (λ qs both. both))
    ]
  ]
