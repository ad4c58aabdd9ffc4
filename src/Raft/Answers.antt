-- ===== src/Raft/Answers.antt =====
-- raft_node.cpp: what `handle_request` gives.
use fault_tolerant_kv_store.Prelude.{
  ◌≡◌, ◌⊎◌, inl, inr, refl, ap, Option, none, some, Bool, true, false, ◌&&◌, List, [], ◌∷◌, ◌++◌,
  ◌==◌, take, drop, length, if◌then◌else◌, Bool-cases, ==_iff, and_left, and_right, if_either,
  arith,
}
use fault_tolerant_kv_store.Exec.{
  Exec, Outcome, returns, throws, undefined, pure, continue, IfReturns,
}
use fault_tolerant_kv_store.Raft.Types.{
  Message, Rpc, RequestVoteRequest, RequestVoteResponse, AppendEntriesRequest,
  AppendEntriesResponse, vote_request, vote_response, append_request, append_response,
}
use fault_tolerant_kv_store.Raft.Platform.{Platform}
use fault_tolerant_kv_store.Raft.Node.{Node}
use fault_tolerant_kv_store.Raft.Calls.{
  step, is_request, answers, extract_response, give, take_response, serve, handle_request,
}

-- Which payloads answer a request: a vote one for a vote, and for entries a response with the number of
-- the request.
pub data IsResponse : Rpc → Rpc → Type 0 where
  to_vote :
      {q : RequestVoteRequest} {r : RequestVoteResponse}
      → IsResponse (vote_request q) (vote_response r)
  to_entries :
      {q : AppendEntriesRequest} {r : AppendEntriesResponse}
      → r.request_id ≡ q.request_id
      → IsResponse (append_request q) (append_response r)

module _ ⦃p : Platform⦄ where
  answers-IsResponse : (q r : Rpc) → answers q r ≡ true → IsResponse q r
  unfolding answers
  answers-IsResponse (vote_request q) (vote_response r) h = to_vote
  answers-IsResponse (append_request q) (append_response r) h = to_entries ((==_iff _ _).0 h)
  answers-IsResponse (vote_request q) (vote_request r) h = cc
  answers-IsResponse (vote_request q) (append_request r) h = cc
  answers-IsResponse (vote_request q) (append_response r) h = cc
  answers-IsResponse (append_request q) (vote_request r) h = cc
  answers-IsResponse (append_request q) (vote_response r) h = cc
  answers-IsResponse (append_request q) (append_request r) h = cc
  answers-IsResponse (vote_response q) r h = cc
  answers-IsResponse (append_response q) r h = cc

  IsResponse-answers : {q r : Rpc} → IsResponse q r → answers q r ≡ true
  unfolding answers
  IsResponse-answers to_vote = refl
  IsResponse-answers (to_entries e) = (==_iff _ _).1 e

module _ ⦃p : Platform⦄ (m : Message) where
  -- A message to the sender of a request, of the kind that answers it.
  abbrev pub IsAnswer : Message → Type 0
  IsAnswer r = (r.to ≡ m.from) × IsResponse m.rpc r.rpc

  abbrev pub NoAnswer : List Message → Type 0
  NoAnswer [] = Unit {0}
  NoAnswer (r ∷ rs) = (¬ IsAnswer r) × NoAnswer rs

  -- The first answer among the messages is `r`, and the others are `others`.
  pub record IsFirst (messages : List Message) (r : Message) (others : List Message) : Type 0 where
    pub before : List Message
    pub after : List Message
    pub all : messages ≡ before ++ (r ∷ after)
    pub rest : others ≡ before ++ after
    pub answer : IsAnswer r
    pub earlier : NoAnswer before

  abbrev IsExtracted : List Message → Option (Message × List Message) → Type 0
  IsExtracted messages none = NoAnswer messages
  IsExtracted messages (some (r, others)) = IsFirst messages r others

  passed_over :
      (candidate : Message) (rest : List Message) (o : Option (Message × List Message))
      → ¬ IsAnswer candidate
      → IsExtracted rest o
      → IsExtracted
          (candidate ∷ rest)
          (elim o [ none ↦ none | some (found, others) ↦ some (found, candidate ∷ others) ])
  passed_over candidate rest none other h = (other, h)
  passed_over candidate rest (some (found, others)) other h = record {
    before = candidate ∷ h.before;
    after = h.after;
    all = ap (λ xs. candidate ∷ xs) h.all;
    rest = ap (λ xs. candidate ∷ xs) h.rest;
    answer = h.answer;
    earlier = (other, h.earlier);
  }

  not_answer : (r : Message) → (r.to == m.from && answers m.rpc r.rpc) ≡ false → ¬ IsAnswer r
  not_answer r h a = ground (arith, a.0, IsResponse-answers a.1)

  extract_response-IsExtracted : (ms : List Message) → IsExtracted ms (extract_response m ms)
  unfolding extract_response
  extract_response-IsExtracted [] = tt
  extract_response-IsExtracted (candidate ∷ rest) =
      elim (Bool-cases (candidate.to == m.from && answers m.rpc candidate.rpc)) [
        | inl found ↦ rw found (record {
          before = [];
          after = rest;
          all = refl;
          rest = refl;
          answer = (
            (==_iff candidate.to m.from).0 (and_left _ _ found),
            answers-IsResponse m.rpc candidate.rpc (and_right _ _ found),
          );
          earlier = tt;
        })
        | inr other ↦ rw other (
            passed_over candidate rest (extract_response m rest) (not_answer candidate other)
              (extract_response-IsExtracted rest))
      ]

  -- What a call that gives `o` and leaves `t` has done to the node: it was a step, and nothing else if
  -- there is no answer to give; an answer is the first one among the messages that the step has put
  -- behind those of before, and it is taken out of them.
  abbrev pub IsAnswered : Node → Option Message → Node → Type 0
  IsAnswered n none t =
      (step m n ≡ returns false t)
      ⊎ ((step m n ≡ returns true t) × NoAnswer (drop (length n.outbox) t.outbox))
  IsAnswered n (some r) t =
      (s : Node) × (others : List Message) × (step m n ≡ returns true s)
      × IsFirst (drop (length n.outbox) s.outbox) r others
      × (t ≡ record s { outbox = take (length n.outbox) s.outbox ++ others })

  given :
      (n s : Node) (found : Option (Message × List Message))
      → step m n ≡ returns true s
      → IsExtracted (drop (length n.outbox) s.outbox) found
      → IfReturns (IsAnswered n) (give (length n.outbox) found s)
  unfolding give
  given n s none e h = inr (e, h)
  given n s (some (r, others)) e h = (s, others, e, h, refl)

  after_step :
      (n : Node) (r : Outcome Node Bool)
      → step m n ≡ r
      → IfReturns (IsAnswered n) (
          continue
            (λ accepted. if accepted then take_response m (length n.outbox) else pure none)
            r)
  unfolding take_response
  after_step n (returns true s) e =
      given n s (extract_response m (drop (length n.outbox) s.outbox)) e
        (extract_response-IsExtracted (drop (length n.outbox) s.outbox))
  after_step n (returns false s) e = inl e
  after_step n (throws x s) e = tt
  after_step n undefined e = tt

  -- A call of `handle_request` that returns has made the step of the request. If it gives no message, the
  -- step did not accept the request, or put no answer to it into the outbox, and nothing else is done.
  -- A message that it gives goes to the sender of the request, is a vote for a request for a vote and
  -- for entries a response with the request's number; it is the first such message that the step
  -- put into the outbox, and the outbox is the step's without it.
  pub handle_request-IsAnswered : (n : Node) → IfReturns (IsAnswered n) (handle_request m n)
  unfolding handle_request serve
  handle_request-IsAnswered n =
      if_either (λ (f : Exec Node (Option Message)). IfReturns (IsAnswered n) (f n))
        (is_request m.rpc) (serve m) _ (after_step n (step m n) refl) tt
