-- ===== src/Prelude/Sets.antt =====
-- The elements of a set after an insertion, and after several.
use Prim.Native.Nat.{ℕ}
use mathlib.Core.Path.{◌≡◌, refl, ◌∙◌}
use mathlib.Core.Bool.{true, ◌||◌}
use mathlib.Core.List.{List, [], ◌∷◌}
use mathlib.Core.Logic.{inl, inr}
use native.Mathlib.Omega.{arith}
use fault_tolerant_kv_store.Prelude.Tests.{◌==◌, Bool-cases}
use fault_tolerant_kv_store.Prelude.Maps.{contains, insert, insert_all}

contains_congr : (xs : List ℕ) (j k : ℕ) → j ≡ k → contains xs k ≡ true → contains xs j ≡ true
contains_congr xs j k e h = cc

pub contains-insert : (xs : List ℕ) (k j : ℕ) → contains (insert xs k) j ≡ (k == j || contains xs j)
unfolding insert contains
contains-insert xs k j = elim (Bool-cases (contains xs k)) [
  | inl old ↦ rw old (ground (arith, contains_congr xs j k))
  | inr new ↦ rw new refl
]

pub contains-insert_all :
    (xs ks : List ℕ) (j : ℕ) → contains (insert_all xs ks) j ≡ (contains xs j || contains ks j)
unfolding insert_all contains
contains-insert_all xs [] j = ground arith
contains-insert_all xs (k ∷ ks) j =
    contains-insert_all (insert xs k) ks j ∙ ground (arith, contains-insert xs k j)
