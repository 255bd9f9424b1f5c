-- ===== src/Ids/Instant.antt =====
-- `isValidInstant` and `createInstant` of packages/domain/src/requirements/ids.ts. The pattern is
-- matched from left to right, since no two of its alternatives start alike. `Date.parse` gives a time
-- for every text that passes the tests before it.
pub mod Laws
use Prim.Native.Nat.{◌%◌}
use solutions_studio.Base.{
  ℕ, ◌+◌, ◌-◌, ◌*◌, Bool, true, false, not, ◌&&◌, ◌||◌, Option, none, some, List, [], ◌∷◌, leb, ltb,
  ◌==◌, if◌then◌else◌, value_or,
}
use solutions_studio.Base.Text.{Text}
use solutions_studio.Base.Result.{Result, ok, throw, ◌>>=◌, ◌>>◌, throw_if}
use solutions_studio.Ids.{IdError, invalid_instant, instant, assert_non_empty}

-- What a piece of the pattern reads and what it leaves.
abbrev pub Match : Type 0
Match = Option (ℕ × Text)

abbrev pub after : Match → (ℕ → Text → Bool) → Bool
after none k = false
after (some (n, rest)) k = k n rest

abbrev pub is_digit : ℕ → Bool
is_digit c = leb b'0' c && leb c b'9'

-- `\d\d`, as the number that it is.
unfoldable pub two_digits : Text → Match
two_digits (a ∷ b ∷ rest) =
    if is_digit a && is_digit b then some ((a - b'0') * 10 + (b - b'0'), rest) else none
two_digits _ = none

-- Two digits between two bounds, which the alternatives of the pattern spell out.
unfoldable pub two_digits_in : ℕ → ℕ → Text → Match
unfolding two_digits
two_digits_in low high t = elim (two_digits t) [
  | none ↦ none
  | some (n, rest) ↦ if leb low n && leb n high then some (n, rest) else none
]

-- A single character; the number is of no use.
unfoldable pub char : ℕ → Text → Match
char c [] = none
char c (d ∷ rest) = if d == c then some (0, rest) else none

-- What `\d*` leaves.
unfoldable pub drop_digits : Text → Text
drop_digits [] = []
drop_digits (c ∷ rest) = let later = drop_digits rest in if is_digit c then later else c ∷ rest

-- `(?:\.\d+)?`, with what it leaves; a point without digits is left, where nothing matches it.
unfoldable pub fraction : Text → Text
unfolding drop_digits
fraction [] = []
fraction (c ∷ []) = c ∷ []
fraction (c ∷ d ∷ rest) = if c == b'.' && is_digit d then drop_digits rest else c ∷ d ∷ rest

-- `[+-](?:[01]\d|2[0-3]):[0-5]\d$`
unfoldable pub offset : Text → Bool
unfolding two_digits_in char
offset t = after (two_digits_in 0 23 t) λ hours t.
    after (char b':' t)
      λ _ t. after (two_digits_in 0 59 t) λ minutes t. elim t [ [] ↦ true | _ ∷ _ ↦ false ]

-- `(Z|[+-]...)$`
unfoldable pub zone : Text → Bool
unfolding offset
zone [] = false
zone (c ∷ rest) =
    if c == b'Z'
    then elim rest [ [] ↦ true | _ ∷ _ ↦ false ]
    else (c == b'+' || c == b'-') && offset rest

unfoldable pub is_leap_year : ℕ → Bool
is_leap_year year = (year % 4 == 0 && not (year % 100 == 0)) || year % 400 == 0

-- `daysInMonth[month - 1]`, for the months from 1 to 12.
unfoldable pub days_in_month : ℕ → ℕ → ℕ
unfolding is_leap_year
days_in_month year month =
    if month == 2
    then if is_leap_year year then 29 else 28
    else if month == 4 || month == 6 || month == 9 || month == 11
    then 30
    else 31

unfoldable pub is_valid_instant : Text → Bool
unfolding two_digits two_digits_in char fraction zone days_in_month
is_valid_instant value = after (two_digits value) λ century t. after (two_digits t) λ year t.
    after (char b'-' t) λ _ t. after (two_digits_in 1 12 t) λ month t. after (char b'-' t) λ _ t.
      after (two_digits_in 1 31 t) λ day t. after (char b'T' t) λ _ t.
        after (two_digits_in 0 23 t) λ hour t. after (char b':' t) λ _ t.
          after (two_digits_in 0 59 t) λ minute t. after (char b':' t) λ _ t.
            after (two_digits_in 0 59 t)
              λ second t. zone (fraction t) && leb day (days_in_month (century * 100 + year) month)

unfoldable pub create_instant : Text → Result IdError Text
create_instant iso_string = do
  trimmed ← assert_non_empty iso_string instant
  throw_if (not (is_valid_instant trimmed)) (invalid_instant trimmed)
  ok trimmed
