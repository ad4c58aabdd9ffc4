-- ===== src/Prelude/Maps.antt =====
-- `std::unordered_map` and `std::unordered_set` over numeric keys: a map is a function, since no
-- code iterates over one; a set is the list of its elements, each once, since its size is asked for.
use Prim.Native.Nat.{ℕ}
use mathlib.Core.Bool.{Bool, false, ◌||◌}
use mathlib.Core.List.{List, [], ◌∷◌}
use mathlib.Core.Option.{Option, none, some}
use fault_tolerant_kv_store.Prelude.Tests.{◌==◌, if◌then◌else◌}

abbrev pub Map {ℓ} : Type ℓ → Type ℓ
Map A = ℕ → Option A

abbrev pub no_keys {ℓ} : {A : Type ℓ} → Map A
no_keys k = none

abbrev pub assign {ℓ} : {A : Type ℓ} → Map A → ℕ → A → Map A
assign m k v j = if k == j then some v else m j

-- A read by `operator[]` of a map of numbers. That it inserts a missing key with the value 0 is not
-- seen: the maps so read are asked for no key's presence.
abbrev pub value_or_zero : Map ℕ → ℕ → ℕ
value_or_zero m k = elim (m k) [ none ↦ 0 | some v ↦ v ]

unfoldable pub contains : List ℕ → ℕ → Bool
contains [] k = false
contains (x ∷ xs) k = x == k || contains xs k

unfoldable pub insert : List ℕ → ℕ → List ℕ
unfolding contains
insert xs k = if contains xs k then xs else k ∷ xs

unfoldable pub insert_all : List ℕ → List ℕ → List ℕ
unfolding insert
insert_all xs [] = xs
insert_all xs (k ∷ ks) = insert_all (insert xs k) ks
