-- ===== src/Bytes.antt =====
-- `std::string` as the list of its bytes, and 64-bit integers in little-endian order.
use fault_tolerant_kv_store.Prelude.{
  ℕ, zero, suc, ◌+◌, ◌*◌, ◌/◌, ◌%◌, ◌^◌, ◌<◌, ◌≡◌, ◌↔◌, refl, Bool, true, false, List, [], ◌∷◌,
  ◌==◌, ◌&&◌, arith, length,
}

abbrev pub Bytes : Type 0
Bytes = List ℕ

unfoldable pub bytes_eq : Bytes → Bytes → Bool
bytes_eq [] [] = true
bytes_eq (x ∷ xs) (y ∷ ys) = x == y && bytes_eq xs ys
bytes_eq _ _ = false

pub bytes_eq_refl : (xs : Bytes) → bytes_eq xs xs ≡ true
unfolding bytes_eq
bytes_eq_refl [] = refl
bytes_eq_refl (x ∷ xs) = ground (arith, bytes_eq_refl xs)

pub eq_of_bytes_eq : (xs ys : Bytes) → bytes_eq xs ys ≡ true → xs ≡ ys
unfolding bytes_eq
eq_of_bytes_eq [] [] h = refl
eq_of_bytes_eq [] (y ∷ ys) h = cc
eq_of_bytes_eq (x ∷ xs) [] h = cc
eq_of_bytes_eq (x ∷ xs) (y ∷ ys) h = ground (arith, eq_of_bytes_eq xs ys)

pub bytes_eq_iff : (xs ys : Bytes) → (bytes_eq xs ys ≡ true) ↔ (xs ≡ ys)
bytes_eq_iff xs ys = (eq_of_bytes_eq xs ys, λ e. cc (bytes_eq_refl xs))

-- The bytes of a value from an index on: `(value >> (index * 8)) & 0xff`.
unfoldable pub bytes_from : ℕ → ℕ → ℕ → Bytes
bytes_from zero index value = []
bytes_from (suc rounds) index value =
    (value / 2 ^ (index * 8) % 256) ∷ bytes_from rounds (index + 1) value

unfoldable pub uint64_bytes : ℕ → Bytes
unfolding bytes_from
uint64_bytes value = bytes_from 8 0 value

-- `value |= byte << (index * 8)` over the bytes: the bits are disjoint, so it is a sum.
unfoldable pub value_from : ℕ → Bytes → ℕ
value_from index [] = 0
value_from index (b ∷ bs) = b * 2 ^ (index * 8) + value_from (index + 1) bs

unfoldable pub uint64_value : Bytes → ℕ
unfolding value_from
uint64_value bs = value_from 0 bs

pub length-uint64_bytes : (v : ℕ) → length (uint64_bytes v) ≡ 8
unfolding uint64_bytes
length-uint64_bytes v = refl

pub uint64_value-bytes : (v : ℕ) → v < 2 ^ 64 → uint64_value (uint64_bytes v) ≡ v
unfolding uint64_value uint64_bytes
uint64_value-bytes v h = omega arith
