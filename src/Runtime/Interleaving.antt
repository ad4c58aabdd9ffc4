-- ===== src/Runtime/Interleaving.antt =====
-- Any interleaving of the threads of `NodeRuntime` in src/node/node_runtime.cpp.
use fault_tolerant_kv_store.Prelude.{
  ◌≡◌, refl, sym, ap, ◌∙◌, List, [], ◌∷◌, ◌++◌, append-nil, append_assoc,
}
use fault_tolerant_kv_store.Raft.Types.{NodeId, Message}
use fault_tolerant_kv_store.Raft.Platform.{Platform}
use fault_tolerant_kv_store.Rpc.ErrorText.{Texts}
use fault_tolerant_kv_store.Runtime.Threads.{
  Ticker, holding, Process, Event, takes, pops, drops, other, Step, Run, stays, goes, wakes, ticks,
  takes_messages, enqueues, ticker_exits, pops_message, sends, worker_exits, answers_vote,
  answers_append, stops, clears,
}

abbrev pub held : Ticker → List Message
held (holding messages) = messages
held _ = []

module _ ⦃p : Platform⦄ where
  -- The messages that wait to be sent, the oldest first.
  abbrev pub waiting : Process → List Message
  waiting s = s.message_queue ++ held s.ticker

  unfoldable pub taken : List Event → List Message
  taken [] = []
  taken (takes messages ∷ es) = messages ++ taken es
  taken (pops message ∷ es) = taken es
  taken (drops messages ∷ es) = taken es
  taken (other ∷ es) = taken es

  -- The messages that a worker has got, or that `stop` has dropped.
  unfoldable pub gone : List Event → List Message
  gone [] = []
  gone (takes messages ∷ es) = gone es
  gone (pops message ∷ es) = message ∷ gone es
  gone (drops messages ∷ es) = messages ++ gone es
  gone (other ∷ es) = gone es

  taken_cons : (e : Event) (es : List Event) → taken (e ∷ es) ≡ taken (e ∷ []) ++ taken es
  unfolding taken
  taken_cons (takes messages) es = ap (λ xs. xs ++ taken es) (sym (append-nil messages))
  taken_cons (pops message) es = refl
  taken_cons (drops messages) es = refl
  taken_cons other es = refl

  gone_cons : (e : Event) (es : List Event) → gone (e ∷ es) ≡ gone (e ∷ []) ++ gone es
  unfolding gone
  gone_cons (takes messages) es = refl
  gone_cons (pops message) es = refl
  gone_cons (drops messages) es = ap (λ xs. xs ++ gone es) (sym (append-nil messages))
  gone_cons other es = refl

  module _ ⦃texts : Texts⦄ {id : NodeId} where
    Step-order :
        {s t : Process} {e : Event}
        → Step id s e t
        → waiting s ++ taken (e ∷ []) ≡ gone (e ∷ []) ++ waiting t
    unfolding taken gone
    Step-order {s} (wakes a r) = rw a (append-nil _)
    Step-order {s} (ticks elapsed n a h) = rw a (append-nil _)
    Step-order {s} (takes_messages messages n a h) = rw a (
        ap (λ xs. xs ++ (messages ++ [])) (append-nil s.message_queue)
        ∙ ap (◌++◌ s.message_queue) (append-nil messages))
    Step-order {s} (enqueues messages a) = rw a (refl)
    Step-order {s} (ticker_exits a r) = rw a (append-nil _)
    Step-order {s} (pops_message k message rest i q) = rw q (append-nil _)
    Step-order {s} (sends before after message clients n b h) = append-nil _
    Step-order {s} (worker_exits k i r q) = append-nil _
    Step-order {s} (answers_vote early late request) = append-nil _
    Step-order {s} (answers_append early late request) = append-nil _
    Step-order {s} stops = append-nil _
    Step-order {s} (clears r) =
        append-nil (waiting s) ∙ ap (λ xs. xs ++ held s.ticker) (sym (append-nil s.message_queue))

    -- However the threads interleave: the messages that the ticker took from the node, behind those
    -- that waited, are those that workers have got or `stop` has dropped, in the same order, and then
    -- those that wait. None is lost, doubled or overtaken in the queue.
    pub Run-order :
        {s t : Process} {es : List Event}
        → Run id s es t
        → waiting s ++ taken es ≡ gone es ++ waiting t
    unfolding taken gone
    Run-order {s} stays = append-nil (waiting s)
    Run-order {s} {t = u} (goes {t} {e} {es} h run) =
        ap (◌++◌ (waiting s)) (taken_cons e es)
        ∙ sym (append_assoc (waiting s) (taken (e ∷ [])) (taken es))
        ∙ ap (λ xs. xs ++ taken es) (Step-order h)
        ∙ append_assoc (gone (e ∷ [])) (waiting t) (taken es)
        ∙ ap (◌++◌ (gone (e ∷ []))) (Run-order run)
        ∙ sym (append_assoc (gone (e ∷ [])) (gone es) (waiting u))
        ∙ ap (λ xs. xs ++ waiting u) (sym (gone_cons e es))
