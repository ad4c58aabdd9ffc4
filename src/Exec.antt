-- ===== src/Exec.antt =====
-- Stateful code that can throw: what a call returns or throws, and the state that it leaves behind.
-- An exception keeps the changes made before it, as in C++. `undefined` stands for behaviour that
-- the C++ standard leaves undefined, such as a vector read out of range.
use Prim.Native.Nat.{ℕ}
use Prim.Native.String.{String}
use fault_tolerant_kv_store.Status.{Status}
use fault_tolerant_kv_store.Prelude.{List, [], ◌∷◌, Bool, true, false, ◌≡◌, refl, if◌then◌else◌}

pub data Exception : Type 0 where
  invalid_argument : String → Exception
  raft_error : String → Exception
  storage_error : String → Exception
  out_of_range : Exception
  logic_error : String → Exception
  runtime_error : String → Exception
  grpc_error : String → Status → ℕ → Exception

pub data Outcome {ℓ κ} (S : Type ℓ) (A : Type κ) : Type (ℓ ⊔ κ) where
  returns : A → S → Outcome S A
  throws : Exception → S → Outcome S A
  undefined : Outcome S A

abbrev pub Exec {ℓ κ} : Type ℓ → Type κ → Type (ℓ ⊔ κ)
Exec S A = S → Outcome S A

module _ {ℓ} {S : Type ℓ} where
  abbrev pub continue {κ ι} : {A : Type κ} {B : Type ι} → (A → Exec S B) → Outcome S A → Outcome S B
  continue f (returns a s) = f a s
  continue f (throws e s) = throws e s
  continue f undefined = undefined

  infixl 5 ◌>>=◌ ◌>>◌
  abbrev pub ◌>>=◌ {κ ι} : {A : Type κ} {B : Type ι} → Exec S A → (A → Exec S B) → Exec S B
  (m >>= f) s = continue f (m s)

  abbrev pub ◌>>◌ {κ} : {B : Type κ} → Exec S (Unit {0}) → Exec S B → Exec S B
  (m >> k) s = continue (λ _. k) (m s)

  abbrev pub pure {κ} : {A : Type κ} → A → Exec S A
  pure a s = returns a s

  abbrev pub throw {κ} : {A : Type κ} → Exception → Exec S A
  throw e s = throws e s

  abbrev pub gets {κ} : {A : Type κ} → (S → A) → Exec S A
  gets f s = returns (f s) s

  abbrev pub modify : (S → S) → Exec S (Unit {0})
  modify f s = returns tt (f s)

  -- A range-based `for`.
  unfoldable pub for_each {κ} : {A : Type κ} → List A → (A → Exec S (Unit {0})) → Exec S (Unit {0})
  for_each [] f = pure tt
  for_each (x ∷ xs) f = f x >> for_each xs f

-- What holds of the result and of the state after a call; a call with undefined behaviour has no
-- postcondition.
pub data Post {S A : Type 0} (Q : A → S → Type 0) (E : Exception → S → Type 0)
    : Outcome S A → Type 0 where
  returned : {a : A} {s : S} → Q a s → Post Q E (returns a s)
  thrown : {e : Exception} {s : S} → E e s → Post Q E (throws e s)

module _ {S A : Type 0} {Q : A → S → Type 0} {E : Exception → S → Type 0} where
  pub Post-if :
      (b : Bool) (m k : Exec S A) (s : S)
      → (b ≡ true → Post Q E (m s))
      → (b ≡ false → Post Q E (k s))
      → Post Q E ((if b then m else k) s)
  Post-if true m k s h g = h refl
  Post-if false m k s h g = g refl

  pub Post-continue :
      {B : Type 0} (R : B → S → Type 0) (f : B → Exec S A) (r : Outcome S B)
      → Post R E r
      → ((b : B) (s : S) → R b s → Post Q E (f b s))
      → Post Q E (continue f r)
  Post-continue R f r (returned {a = b} {s} h) k = k b s h
  Post-continue R f r (thrown h) k = thrown h

  -- A postcondition that follows from another.
  pub Post-weaken :
      {R : A → S → Type 0} {F : Exception → S → Type 0} {r : Outcome S A}
      → Post R F r
      → ((a : A) (s : S) → R a s → Q a s)
      → ((e : Exception) (s : S) → F e s → E e s)
      → Post Q E r
  Post-weaken (returned {a} {s} h) q e = returned (q a s h)
  Post-weaken (thrown {e = x} {s} h) q e = thrown (e x s h)

-- The state that a call leaves behind; `s` where the call has undefined behaviour.
abbrev pub left_by {ℓ κ} : {S : Type ℓ} {A : Type κ} → S → Outcome S A → S
left_by s (returns a t) = t
left_by s (throws e t) = t
left_by s undefined = s

pub Post-left_by :
    {S A : Type 0} {P : S → Type 0} (s : S) (r : Outcome S A)
    → Post (λ _ t. P t) (λ _ t. P t) r
    → P (left_by s r)
Post-left_by s r (returned h) = h
Post-left_by s r (thrown h) = h

-- What holds of the result and of the state if a call returns.
abbrev pub IfReturns : {S A : Type 0} → (A → S → Type 0) → Outcome S A → Type 0
IfReturns Q (returns a s) = Q a s
IfReturns Q (throws e s) = Unit {0}
IfReturns Q undefined = Unit {0}

pub IfReturns-continue :
    {S A B : Type 0} (R : A → S → Type 0) (Q : B → S → Type 0) (f : A → Exec S B) (r : Outcome S A)
    → IfReturns R r
    → ((a : A) (s : S) → R a s → IfReturns Q (f a s))
    → IfReturns Q (continue f r)
IfReturns-continue R Q f (returns a s) h k = k a s h
IfReturns-continue R Q f (throws e s) h k = tt
IfReturns-continue R Q f undefined h k = tt
