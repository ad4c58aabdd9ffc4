-- ===== src/Raft/History.antt =====
-- A node over any sequence of calls of its public operations.
use fault_tolerant_kv_store.Prelude.{◌+◌, ◌^◌, ◌<◌, ◌≡◌, Option, List, [], ◌∷◌}
use fault_tolerant_kv_store.Prelude.Int.{ℤ}
use fault_tolerant_kv_store.Exec.{
  Exec, Outcome, returned, continue, pure, ◌>>=◌, left_by, Post-left_by,
}
use fault_tolerant_kv_store.Result.{ok}
use fault_tolerant_kv_store.Raft.Types.{Bytes, Message, RaftConfig}
use fault_tolerant_kv_store.Raft.Platform.{Platform}
use fault_tolerant_kv_store.Raft.Node.{Node}
use fault_tolerant_kv_store.Raft.Construction.{construct}
use fault_tolerant_kv_store.Raft.Calls.{
  tick, step, handle_request, propose, take_messages, take_committed_entries,
}
use fault_tolerant_kv_store.Raft.Safety.Defs.{Inv, Later, Steps}
use fault_tolerant_kv_store.Raft.Safety.Shared.{
  Later-refl, Later-trans, Steps-continue, Steps-returns,
}
use fault_tolerant_kv_store.Raft.Safety.Whole.{IsRising, step-Steps, handle_request-Steps}
use fault_tolerant_kv_store.Raft.Safety.Ticks.{tick-Steps, propose-Steps}
use fault_tolerant_kv_store.Raft.Restart.{construct-Inv}

pub data Call : Type 0 where
  ticks : ℤ → Call
  steps : Message → Call
  requests : Message → Call
  proposes : Bytes → Call
  drains_messages : Call
  drains_committed : Call

module _ ⦃p : Platform⦄ where
  -- A call, its result left aside.
  unfoldable pub perform : Call → Exec Node (Unit {0})
  unfolding tick step handle_request propose take_messages take_committed_entries
  perform (ticks t) = tick t
  perform (steps m) = do _ ← step m; pure tt
  perform (requests m) = do _ ← handle_request m; pure tt
  perform (proposes command) = do _ ← propose command; pure tt
  perform drains_messages = do _ ← take_messages; pure tt
  perform drains_committed = do _ ← take_committed_entries; pure tt

  -- The state after a call that returns or throws.
  unfoldable pub after : Node → Call → Node
  unfolding perform
  after n c = left_by n (perform c n)

  unfoldable pub run : Node → List Call → Node
  unfolding after
  run n [] = n
  run n (c ∷ cs) = run (after n c) cs

  -- Requests carry rising entries, and no timer runs in the last term that 64 bits hold.
  abbrev pub IsPermitted : Node → Call → Type 0
  IsPermitted n (ticks t) = n.current_term + 1 < 2 ^ 64
  IsPermitted n (steps m) = IsRising m.rpc
  IsPermitted n (requests m) = IsRising m.rpc
  IsPermitted n _ = Unit

  abbrev pub ArePermitted : Node → List Call → Type 0
  ArePermitted n [] = Unit
  ArePermitted n (c ∷ cs) = IsPermitted n c × ArePermitted (after n c) cs

  quiet-Steps :
      {A : Type 0} (n : Node) (r : Outcome Node A) → Steps n r → Steps n (continue (λ _. pure tt) r)
  quiet-Steps n r h = Steps-continue n (λ _. pure tt) r h λ _ k u _. Steps-returns tt k u

  pub perform-Steps : (n : Node) (c : Call) → Inv n → IsPermitted n c → Steps n (perform c n)
  unfolding perform take_messages take_committed_entries
  perform-Steps n (ticks t) v h = tick-Steps n t v h
  perform-Steps n (steps m) v h = quiet-Steps n _ (step-Steps n m v h)
  perform-Steps n (requests m) v h = quiet-Steps n _ (handle_request-Steps n m v h)
  perform-Steps n (proposes command) v h = quiet-Steps n _ (propose-Steps n command v)
  perform-Steps n drains_messages v h = returned (v, Later-refl n)
  perform-Steps n drains_committed v h = returned (v, Later-refl n)

  after-Inv :
      (n : Node) (c : Call) → Inv n → IsPermitted n c → Inv (after n c) × Later n (after n c)
  unfolding after
  after-Inv n c v h = Post-left_by n _ (perform-Steps n c v h)

  pub run-Inv :
      (n : Node) (cs : List Call) → Inv n → ArePermitted n cs → Inv (run n cs) × Later n (run n cs)
  unfolding run
  run-Inv n [] v h = (v, Later-refl n)
  run-Inv n (c ∷ cs) v (h, hs) =
      let (w, l) = after-Inv n c v h in
      let (u, k) = run-Inv (after n c) cs w hs in
      (u, Later-trans n (after n c) (run (after n c) cs) l k)

  -- From its construction on, over any permitted sequence of calls with any results of the storage
  -- and of the random draws, a node keeps the invariant, and is always a later state of the node that
  -- was constructed.
  pub run_from_construct :
      (c : RaftConfig) (store : Option p.Store) (n : Node) (cs : List Call)
      → construct c store ≡ ok n
      → ArePermitted n cs
      → Inv (run n cs) × Later n (run n cs)
  run_from_construct c store n cs made h = run-Inv n cs (construct-Inv c store n made) h
