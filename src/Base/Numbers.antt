-- ===== src/Base/Numbers.antt =====
-- Integers, and JavaScript numbers as the code reads them.
use Prim.Native.Nat.{Ordering, compare, ◌/◌, ◌%◌}
use solutions_studio.Base.{
  ℕ, zero, suc, ◌+◌, Bool, true, false, [], ◌∷◌, if◌then◌else◌, ltb, ◌≡◌, ◌≤◌, arith,
}
use solutions_studio.Base.Text.{Text}

-- `negsuc n` is -(n + 1).
pub data ℤ : Type 0 where
  pos : ℕ → ℤ
  negsuc : ℕ → ℤ

abbrev pub add_one : ℤ → ℤ
add_one (pos n) = pos (suc n)
add_one (negsuc zero) = pos zero
add_one (negsuc (suc n)) = negsuc n

abbrev pub sub_one : ℤ → ℤ
sub_one (pos zero) = negsuc zero
sub_one (pos (suc n)) = pos n
sub_one (negsuc n) = negsuc (suc n)

abbrev pub is_zero : ℤ → Bool
is_zero (pos zero) = true
is_zero _ = false

-- A number: an integer, or a fraction, an infinity or NaN, which no code here tells apart.
-- Integers are exact, as doubles are below 2 ^ 53.
pub data Number : Type 0 where
  integer : ℤ → Number
  non_integer : Number

-- `!Number.isInteger(n) || n < 1`.
unfoldable pub is_not_positive_integer : Number → Bool
is_not_positive_integer (integer (pos zero)) = true
is_not_positive_integer (integer (pos (suc n))) = false
is_not_positive_integer (integer (negsuc n)) = true
is_not_positive_integer non_integer = true

-- The value of a number that passed that test.
unfoldable pub to_ℕ : Number → ℕ
to_ℕ (integer (pos n)) = n
to_ℕ _ = 0

pub to_ℕ_positive : (n : Number) → is_not_positive_integer n ≡ false → 1 ≤ to_ℕ n
unfolding is_not_positive_integer to_ℕ
to_ℕ_positive n h = ground arith

-- `${n}`: the decimal digits. A number has at most as many digits as its value has units.
digits_from : ℕ → ℕ → Text → Text
digits_from zero n acc = acc
digits_from (suc fuel) n acc =
    let rest = digits_from fuel (n / 10) ((b'0' + n % 10) ∷ acc) in
    if ltb n 10 then (b'0' + n) ∷ acc else rest

unfoldable pub decimal : ℕ → Text
unfolding digits_from
decimal n = digits_from (suc n) n []

-- The comparison by code units that `sort()` makes.
unfoldable pub compare_code_units : Text → Text → Ordering
compare_code_units [] [] = Ordering.eq
compare_code_units [] (d ∷ s) = Ordering.lt
compare_code_units (c ∷ r) [] = Ordering.gt
compare_code_units (c ∷ r) (d ∷ s) =
    let rest = compare_code_units r s in
    elim (compare c d) [
      | Ordering.eq ↦ rest
      | Ordering.lt ↦ Ordering.lt
      | Ordering.gt ↦ Ordering.gt
    ]
