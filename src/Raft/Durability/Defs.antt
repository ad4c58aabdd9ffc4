-- ===== src/Raft/Durability/Defs.antt =====
-- A node whose term, vote and log are the ones that its storage would load, if they fit into it.
use fault_tolerant_kv_store.Prelude.{◌≡◌, refl, Bool, true, false, Option, none, some}
use fault_tolerant_kv_store.Exec.{
  Exec, Exception, Outcome, returns, throws, undefined, continue, pure,
}
use fault_tolerant_kv_store.Raft.Platform.{Platform, Limits, IsDurable, loaded}
use fault_tolerant_kv_store.Raft.Types.{NodeId, Term}
use fault_tolerant_kv_store.Raft.Node.{
  Node, persistent_state, persist, after_save, become_follower, step_down, adopt,
  reset_election_timeout,
}
use fault_tolerant_kv_store.Prelude.{ltb, if◌then◌else◌}

module _ ⦃p : Platform⦄ ⦃limits : Limits p⦄ where
  abbrev pub IsSaved : Node → Type 0
  IsSaved n =
      limits.IsSound n.storage
      × (limits.Fits (persistent_state n) → p.load n.storage ≡ loaded (persistent_state n))

  -- If the call returns, the node is saved.
  abbrev pub Saves : {A : Type 0} → Outcome Node A → Type 0
  Saves (returns a m) = IsSaved m
  Saves (throws e m) = Unit
  Saves undefined = Unit

  pub Saves-if :
      {A : Type 0} (b : Bool) (m k : Exec Node A) (n : Node)
      → Saves (m n)
      → Saves (k n)
      → Saves ((if b then m else k) n)
  Saves-if true m k n h g = h
  Saves-if false m k n h g = g

  pub Saves-continue :
      {A B : Type 0} (f : B → Exec Node A) (r : Outcome Node B)
      → Saves r
      → ((b : B) (m : Node) → IsSaved m → Saves (f b m))
      → Saves (continue f r)
  Saves-continue f (returns b m) h k = k b m h
  Saves-continue f (throws e m) h k = tt
  Saves-continue f undefined h k = tt

  -- A save that returns has saved the node, whatever was saved before.
  pub persist-Saves : (n : Node) → IsDurable p → limits.IsSound n.storage → Saves (persist n)
  unfolding persist after_save
  persist-Saves n law h = go (p.save n.storage (persistent_state n)).0 refl
    where
      after : Node
      after = record n { storage = (p.save n.storage (persistent_state n)).1 }

      go :
          (failure : Option Exception)
          → (p.save n.storage (persistent_state n)).0 ≡ failure
          → Saves (after_save failure after)
      go none e = (
        law.sound n.storage (persistent_state n) h e,
        λ fits. law.saved n.storage (persistent_state n) h fits e,
      )
      go (some x) e = tt

  pub become_follower-Saves :
      (term : Term) (leader : Option NodeId) (n : Node)
      → IsDurable p
      → IsSaved n
      → Saves (become_follower term leader n)
  unfolding become_follower adopt step_down reset_election_timeout
  become_follower-Saves term leader n law h = go (ltb n.current_term term)
    where
      go :
          (changed : Bool)
          → Saves ((if changed then persist else pure tt) (step_down leader (adopt changed term n)))
      go true = persist-Saves (step_down leader (adopt true term n)) law h.0
      go false = h
