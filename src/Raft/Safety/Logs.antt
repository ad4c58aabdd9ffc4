-- ===== src/Raft/Safety/Logs.antt =====
-- Logs: the terms in a log rise from the sentinel's 0 and stay at or below the current term.
use fault_tolerant_kv_store.Prelude.{
  ℕ, zero, suc, ◌≤◌, ◌<◌, ◌≡◌, subst, sym, some, eq_of_some, or_false_right, false, List, [], ◌∷◌,
  ◌++◌, arith, take, get_elem?, length,
}
use fault_tolerant_kv_store.Raft.Types.{Term, LogEntry}
use fault_tolerant_kv_store.Raft.AppendEntries.{any_invalid}

-- The entries may follow an entry of the term `previous` in the term `current`.
abbrev pub ValidFrom : Term → Term → List LogEntry → Type 0
ValidFrom current previous [] = Unit
ValidFrom current previous (e ∷ es) =
    (0 < e.term) × (e.term ≤ current) × (previous ≤ e.term) × ValidFrom current e.term es

abbrev pub ValidLog : Term → List LogEntry → Type 0
ValidLog current [] = ⊥
ValidLog current (s ∷ es) = (s.term ≡ 0) × ValidFrom current 0 es

pub ValidFrom-mono :
    (t t' u u' : Term) (es : List LogEntry)
    → ValidFrom t u es
    → t ≤ t'
    → u' ≤ u
    → ValidFrom t' u' es
ValidFrom-mono t t' u u' [] h le le' = tt
ValidFrom-mono t t' u u' (e ∷ es) (a, b, c, d) le le' =
    (a, omega arith, omega arith, ValidFrom-mono t t' e.term e.term es d le (omega arith))

pub ValidLog-mono : (t t' : Term) (log : List LogEntry) → ValidLog t log → t ≤ t' → ValidLog t' log
ValidLog-mono t t' [] h le = h
ValidLog-mono t t' (s ∷ es) (z, h) le = (z, ValidFrom-mono t t' 0 0 es h le (omega arith))

pub ValidLog-pos : (t : Term) (log : List LogEntry) → ValidLog t log → 0 < length log
ValidLog-pos t [] h = absurd h
ValidLog-pos t (s ∷ es) h = omega arith

-- Entries put behind the entry at an index, in place of those that were there.
ValidFrom-splice :
    (t : Term) (i : ℕ) (x e : LogEntry) (es rest : List LogEntry)
    → ValidFrom t x.term es
    → get_elem? (x ∷ es) i ≡ some e
    → ValidFrom t e.term rest
    → ValidFrom t x.term (take i es ++ rest)
ValidFrom-splice t zero x e es rest h at r =
    subst (λ (y : LogEntry). ValidFrom t y.term rest) (eq_of_some (sym at)) r
ValidFrom-splice t (suc i) x e [] rest h at r = cc
ValidFrom-splice t (suc i) x e (y ∷ es) rest (a, b, c, d) at r =
    (a, b, c, ValidFrom-splice t i y e es rest d at r)

pub ValidLog-splice :
    (t : Term) (i : ℕ) (e : LogEntry) (log rest : List LogEntry)
    → ValidLog t log
    → get_elem? log i ≡ some e
    → ValidFrom t e.term rest
    → ValidLog t (take (suc i) log ++ rest)
ValidLog-splice t i e [] rest h at r = absurd h
ValidLog-splice t i e (s ∷ es) rest (z, h) at r =
    (z, rw (← z) (ValidFrom-splice t i s e es rest (rw z h) at r))

-- An entry of the current term at the end.
pub ValidLog-push :
    (t : Term) (e : LogEntry) (log : List LogEntry)
    → ValidLog t log
    → 0 < t
    → e.term ≡ t
    → ValidLog t (log ++ (e ∷ []))
ValidLog-push t e [] h pos eq = absurd h
ValidLog-push t e (s ∷ es) (z, h) pos eq = (z, push 0 es h (omega arith))
  where
    push :
        (u : Term) (es : List LogEntry) → ValidFrom t u es → u ≤ t → ValidFrom t u (es ++ (e ∷ []))
    push u [] h le = (omega arith, omega arith, omega arith, tt)
    push u (x ∷ es) (a, b, c, d) le = (a, b, c, push x.term es d b)

pub ValidLog-take :
    (t : Term) (k : ℕ) (log : List LogEntry) → ValidLog t log → 0 < k → ValidLog t (take k log)
ValidLog-take t zero log h pos = absurd (omega arith)
ValidLog-take t (suc k) [] h pos = h
ValidLog-take t (suc k) (s ∷ es) (z, h) pos = (z, cut 0 k es h)
  where
    cut : (u : Term) (k : ℕ) (es : List LogEntry) → ValidFrom t u es → ValidFrom t u (take k es)
    cut u zero es h = tt
    cut u (suc k) [] h = tt
    cut u (suc k) (x ∷ es) (a, b, c, d) = (a, b, c, cut x.term k es d)

-- The terms rise, from one that is at least `previous`.
abbrev pub Ascending : Term → List LogEntry → Type 0
Ascending previous [] = Unit
Ascending previous (e ∷ es) = (previous ≤ e.term) × Ascending e.term es

-- Rising entries that pass the test of a request of a term up to the current one.
pub Ascending-ValidFrom :
    (current term previous : Term) (es : List LogEntry)
    → term ≤ current
    → any_invalid term es ≡ false
    → Ascending previous es
    → ValidFrom current previous es
unfolding any_invalid
Ascending-ValidFrom current term previous [] le ok h = tt
Ascending-ValidFrom current term previous (e ∷ es) le ok (a, b) = (
  ground arith,
  ground arith,
  a,
  Ascending-ValidFrom current term e.term es le (or_false_right _ _ ok) b,
)

pub ValidLog-sentinel :
    (t : Term) (log : List LogEntry) (e : LogEntry)
    → ValidLog t log
    → get_elem? log 0 ≡ some e
    → e.term ≡ 0
ValidLog-sentinel t [] e h at = absurd h
ValidLog-sentinel t (s ∷ es) e (z, h) at = subst (λ (x : LogEntry). x.term ≡ 0) (eq_of_some at) z
