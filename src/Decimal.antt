-- ===== src/Decimal.antt =====
-- What the sources use of the C++ library on texts: `std::to_string` and `std::from_chars` of integers,
-- `find` and `rfind` of a character. Characters are their codes: 45 is '-', 48 to 57 are the digits.
use fault_tolerant_kv_store.Prelude.{
  ℕ, zero, suc, ◌+◌, ◌-◌, ◌*◌, ◌/◌, ◌%◌, ◌^◌, ◌<◌, ◌≡◌, refl, ap, ◌∙◌, Option, none, some, Bool,
  true, false, ◌&&◌, [], ◌∷◌, ◌++◌, ltb, leb, ◌==◌, if◌then◌else◌, arith, Bool-cases, inl, inr, ◌⊎◌,
  ltb→lt, if_either,
}
use native.Mathlib.Nat.{pow-succ'}
use fault_tolerant_kv_store.Prelude.Int.{ℤ, pos, negsuc}
use fault_tolerant_kv_store.Bytes.{Bytes}

-- The digits of a number before `after`; `rounds` bounds their number.
unfoldable pub digits : ℕ → ℕ → Bytes → Bytes
digits zero n after = after
digits (suc rounds) n after =
    let more = digits rounds (n / 10) ((48 + n % 10) ∷ after) in
    if ltb n 10 then (48 + n % 10) ∷ after else more

-- A 64-bit integer has at most 20 digits.
unfoldable pub to_decimal : ℕ → Bytes
unfolding digits
to_decimal n = digits 20 n []

abbrev pub is_digit : ℕ → Bool
is_digit c = leb 48 c && leb c 57

-- The value of the digits in front, after the digits of `value`, and what follows them.
unfoldable pub scan : ℕ → Bytes → ℕ × Bytes
scan value [] = (value, [])
scan value (c ∷ cs) =
    let rest = scan (value * 10 + (c - 48)) cs in if is_digit c then rest else (value, c ∷ cs)

abbrev pub starts_with_digit : Bytes → Bool
starts_with_digit [] = false
starts_with_digit (c ∷ cs) = is_digit c

-- `none` is an error: no digit in front, or a value out of range.
abbrev pub in_range : ℕ → ℕ × Bytes → Option (ℕ × Bytes)
in_range limit read = if leb limit read.0 then none else some read

unfoldable pub from_chars : ℕ → Bytes → Option (ℕ × Bytes)
unfolding scan
from_chars limit text = if starts_with_digit text then in_range limit (scan 0 text) else none

abbrev pub minus : ℕ → ℤ
minus zero = pos 0
minus (suc n) = negsuc n

abbrev pub signed : (ℕ → ℤ) → Option (ℕ × Bytes) → Option (ℤ × Bytes)
signed sign none = none
signed sign (some (n, rest)) = some (sign n, rest)

-- Of a signed 64-bit integer.
unfoldable pub from_chars_int64 : Bytes → Option (ℤ × Bytes)
unfolding from_chars
from_chars_int64 [] = none
from_chars_int64 (c ∷ cs) =
    if c == 45
    then signed minus (from_chars (2 ^ 63 + 1) cs)
    else signed pos (from_chars (2 ^ 63) (c ∷ cs))

-- The text before a character and the text behind it.
unfoldable pub split_first : ℕ → Bytes → Option (Bytes × Bytes)
split_first b [] = none
split_first b (c ∷ cs) =
    if c == b
    then some ([], cs)
    else elim (split_first b cs) [ none ↦ none | some (before, after) ↦ some (c ∷ before, after) ]

unfoldable pub split_last : ℕ → Bytes → Option (Bytes × Bytes)
split_last b [] = none
split_last b (c ∷ cs) = elim (split_last b cs) [
  | some (before, after) ↦ some (c ∷ before, after)
  | none ↦ if c == b then some ([], cs) else none
]

-- The text has no such character.
unfoldable pub Lacks : ℕ → Bytes → Type 0
Lacks b [] = Unit {0}
Lacks b (c ∷ cs) = ((c == b) ≡ false) × Lacks b cs

pub split_first-append :
    (b : ℕ) (before after : Bytes)
    → Lacks b before
    → split_first b (before ++ (b ∷ after)) ≡ some (before, after)
unfolding split_first Lacks
split_first-append b [] after h = ground arith
split_first-append b (c ∷ cs) after (h, hs) = rw (h, split_first-append b cs after hs) refl

pub split_last-none : (b : ℕ) (text : Bytes) → Lacks b text → split_last b text ≡ none
unfolding split_last Lacks
split_last-none b [] h = refl
split_last-none b (c ∷ cs) (h, hs) = rw (split_last-none b cs hs, h) refl

pub split_last-append :
    (b : ℕ) (before after : Bytes)
    → Lacks b after
    → split_last b (before ++ (b ∷ after)) ≡ some (before, after)
unfolding split_last
split_last-append b [] after h = rw (split_last-none b after h) (ground arith)
split_last-append b (c ∷ cs) after h = rw (split_last-append b cs after h) refl

is_digit_digit : (d : ℕ) → d < 10 → is_digit (48 + d) ≡ true
is_digit_digit d h = ground arith

scan_step :
    (value d : ℕ) (after : Bytes)
    → d < 10
    → scan value ((48 + d) ∷ after) ≡ scan (value * 10 + d) after
unfolding scan
scan_step value d after h = rw (is_digit_digit d h) (ap (λ k. scan k after) (omega arith))

more_rounds :
    (rounds n : ℕ) → ltb n 10 ≡ false → n < 10 ^ suc rounds → (0 < rounds) × (n / 10 < 10 ^ rounds)
more_rounds zero n b below = absurd (ground arith)
more_rounds (suc rounds) n b below = (omega arith, omega (arith, pow-succ' 10 (suc rounds)))

scan-digits :
    (rounds n : ℕ) (after : Bytes)
    → 0 < rounds
    → n < 10 ^ rounds
    → scan 0 (digits rounds n after) ≡ scan n after
unfolding digits
scan-digits zero n after h below = absurd (omega arith)
scan-digits (suc rounds) n after h below = elim (Bool-cases (ltb n 10)) [
  | inl small ↦
      rw small (scan_step 0 (n % 10) after (omega arith) ∙ ap (λ k. scan k after) (last n small))
  | inr large ↦
      let (some_rounds, smaller) = more_rounds rounds n large below in
      rw large (
        scan-digits rounds (n / 10) ((48 + n % 10) ∷ after) some_rounds smaller
        ∙ scan_step (n / 10) (n % 10) after (omega arith)
        ∙ ap (λ k. scan k after) (omega arith))
]
  where
    last : (m : ℕ) → ltb m 10 ≡ true → 0 * 10 + m % 10 ≡ m
    last m small = omega (arith, ltb→lt m 10 small)

digit_is_not : (b d : ℕ) → is_digit b ≡ false → d < 10 → (48 + d == b) ≡ false
digit_is_not b d h below = ground arith

-- The digits hold no character that is not a digit.
digits-Lacks :
    (b rounds n : ℕ) (after : Bytes)
    → is_digit b ≡ false
    → Lacks b after
    → Lacks b (digits rounds n after)
unfolding digits Lacks
digits-Lacks b zero n after d h = h
digits-Lacks b (suc rounds) n after d h =
    let more : Lacks b ((48 + n % 10) ∷ after) = (digit_is_not b (n % 10) d (omega arith), h) in
    if_either (Lacks b) (ltb n 10) ((48 + n % 10) ∷ after)
      (digits rounds (n / 10) ((48 + n % 10) ∷ after)) more
      (digits-Lacks b rounds (n / 10) ((48 + n % 10) ∷ after) d more)

starts-digits :
    (rounds n : ℕ) (after : Bytes)
    → (0 < rounds) ⊎ (starts_with_digit after ≡ true)
    → starts_with_digit (digits rounds n after) ≡ true
unfolding digits
starts-digits zero n after (inl h) = absurd (omega arith)
starts-digits zero n after (inr h) = h
starts-digits (suc rounds) n after h =
    let more : starts_with_digit ((48 + n % 10) ∷ after) ≡ true =
      is_digit_digit (n % 10) (omega arith) in
    if_either (λ xs. starts_with_digit xs ≡ true) (ltb n 10) ((48 + n % 10) ∷ after)
      (digits rounds (n / 10) ((48 + n % 10) ∷ after)) more
      (starts-digits rounds (n / 10) ((48 + n % 10) ∷ after) (inr more))

pub to_decimal-Lacks : (b n : ℕ) → is_digit b ≡ false → Lacks b (to_decimal n)
unfolding to_decimal Lacks
to_decimal-Lacks b n d = digits-Lacks b 20 n [] d tt

pub starts-to_decimal : (n : ℕ) → starts_with_digit (to_decimal n) ≡ true
unfolding to_decimal
starts-to_decimal n = starts-digits 20 n [] (inl (omega arith))

scan-to_decimal : (n : ℕ) → n < 2 ^ 64 → scan 0 (to_decimal n) ≡ (n, [])
unfolding to_decimal scan
scan-to_decimal n h = scan-digits 20 n [] (omega arith) (omega arith)

-- A 64-bit integer that is printed is read back, whole.
pub from_chars-to_decimal : (n : ℕ) → n < 2 ^ 64 → from_chars (2 ^ 64) (to_decimal n) ≡ some (n, [])
unfolding from_chars
from_chars-to_decimal n h = rw (starts-to_decimal n, scan-to_decimal n h) (ground arith)
