-- ===== src/Runtime/PeerRoundTrip.antt =====
-- A list of peers that is printed, and `parse_peers` of src/node/node_runtime.cpp.
use fault_tolerant_kv_store.Prelude.{
  ℕ, ◌^◌, ◌<◌, ◌≡◌, ◌≢◌, refl, ap, sym, subst, ◌∙◌, some, true, false, List, [], ◌∷◌, ◌++◌, map,
  append-nil, append_assoc, ltb, ◌==◌, arith,
}
use fault_tolerant_kv_store.Result.{ok, ◌>>=◌}
use fault_tolerant_kv_store.Bytes.{Bytes}
use fault_tolerant_kv_store.Decimal.{
  to_decimal, starts_with_digit, Lacks, to_decimal-Lacks, starts-to_decimal, from_chars-to_decimal,
  split_first-append,
}
use fault_tolerant_kv_store.Raft.Types.{NodeId}
use fault_tolerant_kv_store.Runtime.Configuration.{
  Peers, is_empty, parsed, parse_uint64, emplace, add_peer, read_pair, read_split, read_peer,
  items_of, in_front, read_peers, some_peers, parse_peers,
}
use fault_tolerant_kv_store.Runtime.PeerOrder.{AreAbove, IsSorted, AreRemote}

abbrev pub print_peer : NodeId × Bytes → Bytes
print_peer peer = to_decimal peer.0 ++ (61 ∷ peer.1)

unfoldable pub join : List Bytes → Bytes
join [] = []
join (item ∷ []) = item
join (item ∷ next ∷ items) = item ++ (44 ∷ join (next ∷ items))

abbrev pub print_peers : Peers → Bytes
print_peers peers = join (map print_peer peers)

-- No endpoint holds a comma.
unfoldable pub AreCommaFree : Peers → Type 0
AreCommaFree [] = Unit {0}
AreCommaFree ((id, endpoint) ∷ peers) = Lacks 44 endpoint × AreCommaFree peers

Lacks-append : (b : ℕ) (xs ys : Bytes) → Lacks b xs → Lacks b ys → Lacks b (xs ++ ys)
unfolding Lacks
Lacks-append b [] ys h k = k
Lacks-append b (x ∷ xs) ys (h, hs) k = (h, Lacks-append b xs ys hs k)

items_of-append :
    (item rest : Bytes) → Lacks 44 item → items_of (item ++ (44 ∷ rest)) ≡ item ∷ items_of rest
unfolding items_of Lacks
items_of-append [] rest h = refl
items_of-append (c ∷ cs) rest (h, hs) = rw (h, items_of-append cs rest hs) refl

items_of_one : (c : ℕ) (item : Bytes) → Lacks 44 (c ∷ item) → items_of (c ∷ item) ≡ (c ∷ item) ∷ []
unfolding items_of Lacks
items_of_one c [] (h, hs) = rw h refl
items_of_one c (d ∷ cs) (h, hs) = rw h (ap (in_front c) (items_of_one d cs hs))

items_of_whole : (item : Bytes) → is_empty item ≡ false → Lacks 44 item → items_of item ≡ item ∷ []
items_of_whole [] e h = cc
items_of_whole (c ∷ cs) e h = items_of_one c cs h

not_empty : (text after : Bytes) → starts_with_digit text ≡ true → is_empty (text ++ after) ≡ false
not_empty [] after h = cc
not_empty (c ∷ cs) after h = refl

printed-Lacks :
    (id : NodeId) (endpoint : Bytes) → Lacks 44 endpoint → Lacks 44 (print_peer (id, endpoint))
unfolding Lacks
printed-Lacks id endpoint h =
    Lacks-append 44 (to_decimal id) (61 ∷ endpoint) (to_decimal-Lacks 44 id refl) (refl, h)

items_of-join :
    (peers : Peers) → AreCommaFree peers → items_of (print_peers peers) ≡ map print_peer peers
unfolding join AreCommaFree items_of
items_of-join [] h = refl
items_of-join ((id, e) ∷ []) (h, hs) =
    items_of_whole (print_peer (id, e)) (not_empty (to_decimal id) (61 ∷ e) (starts-to_decimal id))
      (printed-Lacks id e h)
items_of-join ((id, e) ∷ peer ∷ peers) (h, hs) =
    items_of-append (print_peer (id, e)) (print_peers (peer ∷ peers)) (printed-Lacks id e h)
    ∙ ap (◌∷◌ (print_peer (id, e))) (items_of-join (peer ∷ peers) hs)

AreAbove-append :
    (low id : NodeId) (e : Bytes) (ps qs : Peers) → AreAbove low (ps ++ ((id, e) ∷ qs)) → low < id
unfolding AreAbove
AreAbove-append low id e [] qs (h, hs) = h
AreAbove-append low id e (p ∷ ps) qs (h, hs) = AreAbove-append low id e ps qs hs

differs_above : (j id : ℕ) → j < id → ((id == j) ≡ false) × (ltb id j ≡ false)
differs_above j id h = (ground arith, ground arith)

-- The next id in order goes to the end.
emplace_last :
    (id : NodeId) (e : Bytes) (ps qs : Peers)
    → IsSorted (ps ++ ((id, e) ∷ qs))
    → emplace id e ps ≡ some (ps ++ ((id, e) ∷ []))
unfolding emplace IsSorted
emplace_last id e [] qs h = refl
emplace_last id e ((j, f) ∷ ps) qs (h, hs) =
    let (other, above) = differs_above j id (AreAbove-append j id e ps qs h) in
    rw (other, above, emplace_last id e ps qs hs) refl

read_pair_lem :
    (local id : NodeId) (e : Bytes) (peers : Peers)
    → id < 2 ^ 64
    → is_empty e ≡ false
    → read_pair local (to_decimal id) e peers ≡ add_peer local id e peers
unfolding read_pair parse_uint64 parsed
read_pair_lem local id e peers bound there =
    let nonempty : is_empty (to_decimal id) ≡ false =
      ap is_empty (sym (append-nil (to_decimal id)))
      ∙ not_empty (to_decimal id) [] (starts-to_decimal id) in
    rw (nonempty, there, from_chars-to_decimal id bound) refl

read_peer-print_peer :
    (local id : NodeId) (e : Bytes) (peers : Peers)
    → id < 2 ^ 64
    → is_empty e ≡ false
    → read_peer local (print_peer (id, e)) peers ≡ add_peer local id e peers
unfolding read_peer read_split
read_peer-print_peer local id e peers bound there =
    ap (read_split local peers)
      (split_first-append 61 (to_decimal id) e (to_decimal-Lacks 61 id refl))
    ∙ read_pair_lem local id e peers bound there

differs : (a b : ℕ) → a ≢ b → (a == b) ≡ false
differs a b h = ground arith

add_peer_last :
    (local id : NodeId) (e : Bytes) (ps qs : Peers)
    → id ≢ local
    → IsSorted (ps ++ ((id, e) ∷ qs))
    → add_peer local id e ps ≡ ok (ps ++ ((id, e) ∷ []))
unfolding add_peer
add_peer_last local id e ps qs other h = rw (differs id local other, emplace_last id e ps qs h) refl

read_peers-print :
    (local : NodeId) (qs ps : Peers)
    → IsSorted (ps ++ qs)
    → AreRemote local qs
    → read_peers local (map print_peer qs) ps ≡ ok (ps ++ qs)
unfolding read_peers AreRemote
read_peers-print local [] ps h r = ap ok (sym (append-nil ps))
read_peers-print local ((id, e) ∷ qs) ps h ((other, bound, there), rs) =
    let whole : (ps ++ ((id, e) ∷ [])) ++ qs ≡ ps ++ ((id, e) ∷ qs) =
      append_assoc ps ((id, e) ∷ []) qs in
    ap (λ r. r >>= λ more. read_peers local (map print_peer qs) more)
      (read_peer-print_peer local id e ps bound there ∙ add_peer_last local id e ps qs other h)
    ∙ read_peers-print local qs (ps ++ ((id, e) ∷ [])) (subst IsSorted (sym whole) h) rs
    ∙ ap ok whole

some_peers_lem : (peers : Peers) → is_empty peers ≡ false → some_peers peers ≡ ok peers
some_peers_lem [] h = cc
some_peers_lem (peer ∷ peers) h = refl

-- A list of peers in the order of their ids, each once, that are other nodes with 64-bit ids and with
-- endpoints that hold no comma, is read back from its printed form, if there is a peer.
pub parse_peers-print_peers :
    (local : NodeId) (peers : Peers)
    → IsSorted peers
    → AreRemote local peers
    → AreCommaFree peers
    → is_empty peers ≡ false
    → parse_peers (print_peers peers) local ≡ ok peers
unfolding parse_peers
parse_peers-print_peers local peers sorted remote free there =
    ap (λ items. read_peers local items [] >>= some_peers) (items_of-join peers free)
    ∙ ap (λ r. r >>= some_peers) (read_peers-print local peers [] sorted remote)
    ∙ some_peers_lem peers there
